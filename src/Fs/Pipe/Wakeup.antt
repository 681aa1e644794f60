-- ===== src/Fs/Pipe/Wakeup.antt =====
-- Which threads wait on a pipe, and who wakes them.
use hecto_os.Base.{
  ℕ, zero, suc, ◌≡◌, ◌≢◌, refl, sym, ap, subst, ◌∙◌, inl, inr, Bool, true, false, ◌||◌, Option,
  List, [], ◌∷◌, ◌++◌, ◌==◌, if◌then◌else◌, Bool-cases, if-both, arith,
}
use hecto_os.Mm.FrameAllocator.{holds}
use hecto_os.Fs.Pipe.{
  ThreadStatus, ready, waiting, Pipe, set_status, wait, notify_loop, notify_all, pop_bytes,
  ReadTurn, read_result, read_turn, write_pipe, PipeOp, do_read, do_write, drop_write, drop_read,
  pipe_step, pipe_run, Transfer, reads, writes, create_pipe,
}

-- A waiting thread stands in the queue, and where the queue has a thread the pipe is empty.
pub record IsQuiet (p : Pipe) : Type 0 where
  pub queued : (t : ℕ) → p.status t ≡ waiting → holds t p.wait_queue ≡ true
  pub idle : (t : ℕ) → holds t p.wait_queue ≡ true → p.data_queue ≡ []

holds-append : (t : ℕ) (xs ys : List ℕ) → holds t (xs ++ ys) ≡ (holds t xs || holds t ys)
unfolding holds
holds-append t [] ys = refl
holds-append t (x ∷ xs) ys = ground (arith, holds-append t xs ys)

-- A notified thread does not wait.
notify_loop-waiting :
    (queue : List ℕ) (status : ℕ → ThreadStatus) (t : ℕ)
    → notify_loop queue status t ≡ waiting
    → (holds t queue ≡ false) × (status t ≡ waiting)
unfolding notify_loop set_status holds
notify_loop-waiting [] status t e = (refl, e)
notify_loop-waiting (u ∷ queue) status t e =
    let (apart, before) = notify_loop-waiting queue (set_status status u ready) t e in
    elim (Bool-cases (t == u)) [
      | inl same ↦ absurd (ground (arith, same, before))
      | inr other ↦
          let turned : (u == t) ≡ false = ground (arith, other) in
          (rw turned apart, rw other at before)
    ]

notify_all-IsQuiet :
    (p : Pipe) (bytes : List ℕ) → IsQuiet p → IsQuiet (notify_all (record p { data_queue = bytes }))
unfolding notify_all holds
notify_all-IsQuiet p bytes v = record {
  queued = λ t e.
      let (apart, before) = notify_loop-waiting p.wait_queue p.status t e in
      absurd (ground (arith, apart, v.queued t before));
  idle = λ t e. absurd (cc);
}

or_true : (b : Bool) → (b || true) ≡ true
or_true true = refl
or_true false = refl

wait-IsQuiet : (cur : ℕ) (p : Pipe) → IsQuiet p → p.data_queue ≡ [] → IsQuiet (wait cur p)
unfolding wait set_status holds
wait-IsQuiet cur p v none_left = record {
  queued = λ t e. rw (holds-append t p.wait_queue (cur ∷ [])) (elim (Bool-cases (t == cur)) [
    | inl same ↦
        let turned : (cur == t) ≡ true = ground (arith, same) in
        rw turned (or_true (holds t p.wait_queue))
    | inr other ↦ ground (arith, v.queued t (rw other at e))
  ]);
  idle = λ t e. none_left;
}

pop_bytes-nil : (n : ℕ) → pop_bytes n [] ≡ ([], [])
unfolding pop_bytes
pop_bytes-nil zero = refl
pop_bytes-nil (suc n) = refl

-- A read that finds no byte leaves none.
pop_bytes_none :
    (n : ℕ) (bytes : List ℕ) → (pop_bytes (suc n) bytes).0 ≡ [] → (pop_bytes (suc n) bytes).1 ≡ []
unfolding pop_bytes
pop_bytes_none n [] e = refl
pop_bytes_none n (b ∷ rest) e = absurd (cc)

left-IsQuiet :
    (p : Pipe) (left : List ℕ)
    → IsQuiet p
    → (p.data_queue ≡ [] → left ≡ [])
    → IsQuiet (record p { data_queue = left })
left-IsQuiet p left v empty = record { queued = v.queued; idle = λ t e. empty (v.idle t e) }

read_result-IsQuiet :
    (cur : ℕ) (popped : List ℕ × List ℕ) (p : Pipe)
    → IsQuiet p
    → (popped.0 ≡ [] → popped.1 ≡ [])
    → (p.data_queue ≡ [] → popped.1 ≡ [])
    → IsQuiet (read_result cur popped p).1
unfolding read_result
read_result-IsQuiet cur ([], left) p v none_left empty =
    let q =
      wait-IsQuiet cur (record p { data_queue = left }) (left-IsQuiet p left v empty)
        (none_left refl) in
    if-both (λ (r : ReadTurn × Pipe). IsQuiet r.1) p.write_end q q
read_result-IsQuiet cur (b ∷ bytes, left) p v none_left empty = left-IsQuiet p left v empty

read_turn-IsQuiet : (cur len : ℕ) (p : Pipe) → IsQuiet p → IsQuiet (read_turn cur len p).1
unfolding read_turn
read_turn-IsQuiet cur zero p v = v
read_turn-IsQuiet cur (suc len) p v =
    read_result-IsQuiet cur (pop_bytes (suc len) p.data_queue) p v (pop_bytes_none len p.data_queue)
      (λ e.
        ap (λ (l : List ℕ). (pop_bytes (suc len) l).1) e
        ∙ ap (λ (r : List ℕ × List ℕ). r.1) (pop_bytes-nil (suc len)))

pipe_step-IsQuiet : (op : PipeOp) (p : Pipe) → IsQuiet p → IsQuiet (pipe_step op p).1
unfolding pipe_step write_pipe reads writes
pipe_step-IsQuiet (do_read cur len) p v =
    if-both (λ (r : Transfer). IsQuiet r.1) p.read_end (read_turn-IsQuiet cur len p v) v
pipe_step-IsQuiet (do_write bytes) p v =
    if-both (λ (r : Transfer). IsQuiet r.1) p.write_end
      (if-both (λ (r : Option ℕ × Pipe). IsQuiet (writes bytes r).1) p.read_end
        (notify_all-IsQuiet p (p.data_queue ++ bytes) v) v)
      v
pipe_step-IsQuiet drop_write p v = record { queued = v.queued; idle = v.idle }
pipe_step-IsQuiet drop_read p v = record { queued = v.queued; idle = v.idle }

-- A quiet pipe stays quiet over any history, so that no wakeup is lost: while bytes are in the pipe no
-- thread waits on it.
pub pipe_run-IsQuiet :
    (ops : List PipeOp) (p : Pipe)
    → IsQuiet p
    → IsQuiet (pipe_run ops p).1
      × ((pipe_run ops p).1.data_queue ≢ [] → (t : ℕ) → (pipe_run ops p).1.status t ≢ waiting)
unfolding pipe_run
pipe_run-IsQuiet [] p v = (v, λ some_left t e. some_left (v.idle t (v.queued t e)))
pipe_run-IsQuiet (op ∷ ops) p v = pipe_run-IsQuiet ops (pipe_step op p).1 (pipe_step-IsQuiet op p v)

pub create_pipe-IsQuiet :
    (status : ℕ → ThreadStatus) → ((t : ℕ) → status t ≢ waiting) → IsQuiet (create_pipe status)
unfolding create_pipe holds
create_pipe-IsQuiet status awake = record { queued = λ t e. absurd (awake t e); idle = λ t e. refl }

abbrev IsStuck : ℕ → Pipe → Type 0
IsStuck t p = (p.write_end ≡ false) × (p.status t ≡ waiting)

read_result-IsStuck :
    (t cur : ℕ) (popped : List ℕ × List ℕ) (p : Pipe)
    → IsStuck t p
    → IsStuck t (read_result cur popped p).1
unfolding read_result wait set_status
read_result-IsStuck t cur ([], left) p (gone, e) =
    let still : (if t == cur then waiting else p.status t) ≡ waiting =
      if-both (λ (s : ThreadStatus). s ≡ waiting) (t == cur) refl e in
    if-both (λ (r : ReadTurn × Pipe). IsStuck t r.1) p.write_end (gone, still) (gone, still)
read_result-IsStuck t cur (b ∷ bytes, left) p v = v

pipe_step-IsStuck : (t : ℕ) (op : PipeOp) (p : Pipe) → IsStuck t p → IsStuck t (pipe_step op p).1
unfolding pipe_step reads read_turn
pipe_step-IsStuck t (do_read cur zero) p v =
    if-both (λ (r : Transfer). IsStuck t r.1) p.read_end v v
pipe_step-IsStuck t (do_read cur (suc len)) p v =
    if-both (λ (r : Transfer). IsStuck t r.1) p.read_end
      (read_result-IsStuck t cur (pop_bytes (suc len) p.data_queue) p v) v
pipe_step-IsStuck t (do_write bytes) p (gone, e) =
    let closed : (if p.write_end then writes bytes (write_pipe bytes p) else (([], []), p))
        ≡ (([], []), p) =
      ap (λ (b : Bool). if b then writes bytes (write_pipe bytes p) else (([], []), p)) gone in
    subst (λ (r : Transfer). IsStuck t r.1) (sym closed) (gone, e)
pipe_step-IsStuck t drop_write p (gone, e) = (refl, e)
pipe_step-IsStuck t drop_read p v = v

-- Once the write end is dropped nothing wakes a thread that waits: it waits after every history.
pub pipe_run-waiting :
    (ops : List PipeOp) (p : Pipe) (t : ℕ)
    → p.write_end ≡ false
    → p.status t ≡ waiting
    → (pipe_run ops p).1.status t ≡ waiting
unfolding pipe_run
pipe_run-waiting [] p t gone e = e
pipe_run-waiting (op ∷ ops) p t gone e =
    let (gone', e') = pipe_step-IsStuck t op p (gone, e) in
    pipe_run-waiting ops (pipe_step op p).1 t gone' e'
