-- ===== src/Fs/Pipe/Tests.antt =====
-- A pipe with one writer and the reading thread 5.
use hecto_os.Base.{ℕ, ◌≡◌, ◌≢◌, refl, true, false, List, [], ◌∷◌, ◌++◌}
use hecto_os.Fs.Pipe.{running, waiting, Pipe, create_pipe, PipeOp, do_read, do_write, pipe_run}
use hecto_os.Fs.Pipe.History.{pipe_run-append}
use hecto_os.Fs.Pipe.Wakeup.{IsQuiet, pipe_run-IsQuiet, create_pipe-IsQuiet, pipe_run-waiting}

new_pipe : Pipe
new_pipe = create_pipe (λ t. running)

running≢waiting : running ≢ waiting
running≢waiting e = absurd (cc)

new_pipe-IsQuiet : IsQuiet new_pipe
unfolding new_pipe
new_pipe-IsQuiet = create_pipe-IsQuiet (λ t. running) (λ t. running≢waiting)

-- The reader finds nothing and waits, the writer sends three bytes, the reader takes two.
abbrev ops : List PipeOp
ops = do_read 5 2 ∷ do_write (7 ∷ 8 ∷ 9 ∷ []) ∷ do_read 5 2 ∷ []

pipe_run-append_example :
    (pipe_run ops new_pipe).0.0 ++ (pipe_run ops new_pipe).1.data_queue
    ≡ new_pipe.data_queue ++ (pipe_run ops new_pipe).0.1
pipe_run-append_example = pipe_run-append ops new_pipe

read_two : (pipe_run ops new_pipe).0 ≡ (7 ∷ 8 ∷ [], 7 ∷ 8 ∷ 9 ∷ [])
unfolding pipe_run new_pipe create_pipe
read_two = refl

pipe_run-IsQuiet_example :
    IsQuiet (pipe_run ops new_pipe).1
    × ((pipe_run ops new_pipe).1.data_queue ≢ []
        → (t : ℕ) → (pipe_run ops new_pipe).1.status t ≢ waiting)
pipe_run-IsQuiet_example = pipe_run-IsQuiet ops new_pipe new_pipe-IsQuiet

-- The reader waits when the write end is dropped.
abbrev left_alone : Pipe
left_alone = record {
  data_queue = [];
  wait_queue = 5 ∷ [];
  write_end = false;
  read_end = true;
  status = λ t. waiting;
}

pipe_run-waiting_example : (pipe_run (do_read 6 1 ∷ []) left_alone).1.status 5 ≡ waiting
pipe_run-waiting_example = pipe_run-waiting (do_read 6 1 ∷ []) left_alone 5 refl refl
