-- ===== src/Fs/Pipe.antt =====
-- kernel/src/fs/pipe.rs over kernel/src/sync/condvar.rs: a pipe, its queue of waiting threads, and
-- the status of the threads. A thread is its number. The queues are lists, first to last. A turn of a
-- read is one pass through its loop; the scheduler comes between two turns.
pub mod History
pub mod Wakeup
mod Tests
use hecto_os.Base.{
  ℕ, zero, suc, Bool, true, false, Option, none, some, List, [], ◌∷◌, ◌++◌, ◌==◌, if◌then◌else◌,
  length,
}

pub data ThreadStatus : Type 0 where
  ready running waiting zombie : ThreadStatus

-- `write_end` and `read_end` say that the last descriptor of that end is not dropped yet.
pub record Pipe : Type 0 where
  pub data_queue : List ℕ
  pub wait_queue : List ℕ
  pub write_end : Bool
  pub read_end : Bool
  pub status : ℕ → ThreadStatus

unfoldable pub set_status : (ℕ → ThreadStatus) → ℕ → ThreadStatus → ℕ → ThreadStatus
set_status status t value = λ u. if u == t then value else status u

-- Condvar::wait
unfoldable pub wait : ℕ → Pipe → Pipe
unfolding set_status
wait cur p = record p {
  wait_queue = p.wait_queue ++ cur ∷ [];
  status = set_status p.status cur waiting;
}

notify_loop : List ℕ → (ℕ → ThreadStatus) → ℕ → ThreadStatus
unfolding set_status
notify_loop [] status = status
notify_loop (t ∷ queue) status = notify_loop queue (set_status status t ready)

-- Condvar::notify_all
unfoldable pub notify_all : Pipe → Pipe
unfolding notify_loop
notify_all p = record p { wait_queue = []; status = notify_loop p.wait_queue p.status }

-- `while i < buf.len()`: the bytes read, and those left
unfoldable pub pop_bytes : ℕ → List ℕ → List ℕ × List ℕ
pop_bytes zero bytes = ([], bytes)
pop_bytes (suc n) [] = ([], [])
pop_bytes (suc n) (b ∷ rest) = let (bytes, left) = pop_bytes n rest in (b ∷ bytes, left)

pub data ReadTurn : Type 0 where
  gives : List ℕ → ReadTurn
  at_end : ReadTurn
  yields : ReadTurn

-- What follows the critical section, with the bytes read in it.
read_result : ℕ → List ℕ × List ℕ → Pipe → ReadTurn × Pipe
unfolding wait
read_result cur ([], left) p =
    let p' = wait cur (record p { data_queue = left }) in
    if p.write_end then (yields, p') else (at_end, p')
read_result cur (b ∷ bytes, left) p = (gives (b ∷ bytes), record p { data_queue = left })

-- One turn of PipeRead::read of the thread `cur` into a buffer of `len` bytes.
unfoldable pub read_turn : ℕ → ℕ → Pipe → ReadTurn × Pipe
unfolding read_result pop_bytes
read_turn cur zero p = (gives [], p)
read_turn cur (suc len) p = read_result cur (pop_bytes (suc len) p.data_queue) p

-- PipeWrite::write: the count, or BrokenPipe
unfoldable pub write_pipe : List ℕ → Pipe → Option ℕ × Pipe
unfolding notify_all
write_pipe bytes p =
    if p.read_end
    then (some (length bytes), notify_all (record p { data_queue = p.data_queue ++ bytes }))
    else (none, p)

unfoldable pub create_pipe : (ℕ → ThreadStatus) → Pipe
create_pipe status = record {
  data_queue = [];
  wait_queue = [];
  write_end = true;
  read_end = true;
  status = status;
}

-- What the holders of the two ends do: there is no write after the write end is dropped, and no read
-- after the read end is.
pub data PipeOp : Type 0 where
  do_read : ℕ → ℕ → PipeOp
  do_write : List ℕ → PipeOp
  drop_write drop_read : PipeOp

bytes_of : ReadTurn → List ℕ
bytes_of (gives bytes) = bytes
bytes_of at_end = []
bytes_of yields = []

abbrev pub Transfer : Type 0
Transfer = (List ℕ × List ℕ) × Pipe

reads : ReadTurn × Pipe → Transfer
unfolding bytes_of
reads (turn, p) = ((bytes_of turn, []), p)

writes : List ℕ → Option ℕ × Pipe → Transfer
writes bytes (some count, p) = (([], bytes), p)
writes bytes (none, p) = (([], []), p)

-- The bytes that the step reads, and those that it writes.
unfoldable pub pipe_step : PipeOp → Pipe → Transfer
unfolding read_turn write_pipe reads writes
pipe_step (do_read cur len) p = if p.read_end then reads (read_turn cur len p) else (([], []), p)
pipe_step (do_write bytes) p =
    if p.write_end then writes bytes (write_pipe bytes p) else (([], []), p)
pipe_step drop_write p = (([], []), record p { write_end = false })
pipe_step drop_read p = (([], []), record p { read_end = false })

-- All the bytes read and all those written, in order.
unfoldable pub pipe_run : List PipeOp → Pipe → Transfer
unfolding pipe_step
pipe_run [] p = (([], []), p)
pipe_run (op ∷ ops) p =
    let ((got, sent), p') = pipe_step op p in
    let ((more_got, more_sent), p'') = pipe_run ops p' in
    ((got ++ more_got, sent ++ more_sent), p'')
