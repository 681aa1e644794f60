-- ===== src/Fs/Pipe/History.antt =====
-- A pipe is a queue of bytes.
use hecto_os.Base.{
  ℕ, zero, suc, ◌≡◌, refl, sym, ap, ◌∙◌, inl, inr, List, [], ◌∷◌, ◌++◌, Bool-cases, if-both,
}
use mathlib.Core.List.{append_assoc, append-nil}
use hecto_os.Fs.Pipe.{
  Pipe, wait, notify_all, pop_bytes, ReadTurn, bytes_of, read_result, read_turn, write_pipe, PipeOp,
  do_read, do_write, drop_write, drop_read, pipe_step, pipe_run, Transfer, reads, writes,
}

pop_bytes-append : (n : ℕ) (bytes : List ℕ) → (pop_bytes n bytes).0 ++ (pop_bytes n bytes).1 ≡ bytes
unfolding pop_bytes
pop_bytes-append zero bytes = refl
pop_bytes-append (suc n) [] = refl
pop_bytes-append (suc n) (b ∷ rest) = ap (λ (l : List ℕ). b ∷ l) (pop_bytes-append n rest)

read_result-append :
    (cur : ℕ) (popped : List ℕ × List ℕ) (p : Pipe)
    → bytes_of (read_result cur popped p).0 ++ (read_result cur popped p).1.data_queue
      ≡ popped.0 ++ popped.1
unfolding read_result bytes_of wait
read_result-append cur ([], left) p = elim (Bool-cases p.write_end) [
  | inl there ↦ rw there refl
  | inr gone ↦ rw gone refl
]
read_result-append cur (b ∷ bytes, left) p = refl

read_turn-append :
    (cur len : ℕ) (p : Pipe)
    → bytes_of (read_turn cur len p).0 ++ (read_turn cur len p).1.data_queue ≡ p.data_queue
unfolding read_turn bytes_of
read_turn-append cur zero p = refl
read_turn-append cur (suc len) p =
    read_result-append cur (pop_bytes (suc len) p.data_queue) p
    ∙ pop_bytes-append (suc len) p.data_queue

-- No byte is lost between a pipe and what comes of it.
abbrev Conserves : Pipe → Transfer → Type 0
Conserves p r = r.0.0 ++ r.1.data_queue ≡ p.data_queue ++ r.0.1

reads-Conserves :
    (p : Pipe) (r : ReadTurn × Pipe)
    → bytes_of r.0 ++ r.1.data_queue ≡ p.data_queue
    → Conserves p (reads r)
unfolding reads
reads-Conserves p (turn, p') h = h ∙ sym (append-nil p.data_queue)

pipe_step-Conserves : (op : PipeOp) (p : Pipe) → Conserves p (pipe_step op p)
unfolding pipe_step write_pipe writes notify_all
pipe_step-Conserves (do_read cur len) p =
    if-both (Conserves p) p.read_end
      (reads-Conserves p (read_turn cur len p) (read_turn-append cur len p))
      (sym (append-nil p.data_queue))
pipe_step-Conserves (do_write bytes) p =
    if-both (Conserves p) p.write_end
      (if-both (λ r. Conserves p (writes bytes r)) p.read_end refl (sym (append-nil p.data_queue)))
      (sym (append-nil p.data_queue))
pipe_step-Conserves drop_write p = sym (append-nil p.data_queue)
pipe_step-Conserves drop_read p = sym (append-nil p.data_queue)

-- Over any history the bytes read, followed by those still in the pipe, are the bytes that were in it,
-- followed by those written: each byte comes out once and in order.
pub pipe_run-append :
    (ops : List PipeOp) (p : Pipe)
    → (pipe_run ops p).0.0 ++ (pipe_run ops p).1.data_queue ≡ p.data_queue ++ (pipe_run ops p).0.1
unfolding pipe_run
pipe_run-append [] p = sym (append-nil p.data_queue)
pipe_run-append (op ∷ ops) p =
    let got = (pipe_step op p).0.0 in
    let sent = (pipe_step op p).0.1 in
    let p' = (pipe_step op p).1 in
    let more_got = (pipe_run ops p').0.0 in
    let more_sent = (pipe_run ops p').0.1 in
    append_assoc got more_got (pipe_run ops p').1.data_queue
    ∙ ap (λ (l : List ℕ). got ++ l) (pipe_run-append ops p')
    ∙ sym (append_assoc got p'.data_queue more_sent)
    ∙ ap (λ (l : List ℕ). l ++ more_sent) (pipe_step-Conserves op p)
    ∙ append_assoc p.data_queue sent more_sent
