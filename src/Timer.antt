-- ===== src/Timer.antt =====
-- kernel/src/timer.rs and the clock of kernel/arch/riscv/timer.rs: callbacks by their deadline. The
-- tree of events is the list of its entries in order; a callback is a number, a deadline a number of
-- nanoseconds.
pub mod Events
mod Tests
use hecto_os.Base.{
  ℕ, zero, suc, ◌+◌, ◌*◌, ◌/◌, ◌%◌, ◌-◌, Bool, true, false, ◌||◌, Option, none, some, List, [], ◌∷◌,
  ltb, ◌==◌, if◌then◌else◌, length,
}
use hecto_os.Base.Word.{usize_mod}

abbrev pub Events : Type 0
Events = List (ℕ × ℕ)

unfoldable pub contains_key : ℕ → Events → Bool
contains_key deadline [] = false
contains_key deadline (event ∷ rest) = (event.0 == deadline) || contains_key deadline rest

-- `while self.events.contains_key(&deadline)`, with one round for each event
unfoldable pub free_deadline : ℕ → ℕ → Events → ℕ
unfolding contains_key
free_deadline zero deadline events = deadline
free_deadline (suc fuel) deadline events =
    let later = free_deadline fuel (deadline + 1) events in
    if contains_key deadline events then later else deadline

-- `insert` of the tree: an equal key changes its callback
unfoldable pub insert_event : ℕ → ℕ → Events → Events
insert_event deadline callback [] = (deadline, callback) ∷ []
insert_event deadline callback (event ∷ rest) =
    let after = insert_event deadline callback rest in
    if ltb deadline event.0
    then (deadline, callback) ∷ event ∷ rest
    else if event.0 == deadline
    then (deadline, callback) ∷ rest
    else event ∷ after

unfoldable pub register : ℕ → ℕ → Events → Events
unfolding free_deadline insert_event
register deadline callback events =
    insert_event (free_deadline (length events) deadline events) callback events

-- The callbacks called, in order, and the events left.
unfoldable pub expire : ℕ → Events → List ℕ × Events
expire now [] = ([], [])
expire now (event ∷ rest) =
    let (called, left) = expire now rest in
    if ltb now event.0 then ([], event ∷ rest) else (event.1 ∷ called, left)

abbrev pub clock_freq : ℕ
clock_freq = 10000000

-- seconds and microseconds of a reading of the clock
unfoldable pub get_time : ℕ → ℕ × ℕ
get_time time = let usec = time / (clock_freq / 1000000) in (usec / 1000000, usec % 1000000)

unfoldable pub get_time_ms : ℕ → ℕ
get_time_ms time = time / (clock_freq / 1000)

-- seconds and nanoseconds; the product has 64 bits
unfoldable pub get_duration : ℕ → Option (ℕ × ℕ)
get_duration time =
    let nsec = time * (1000000000 / 1000) / (clock_freq / 1000) in
    if ltb (time * (1000000000 / 1000)) usize_mod
    then some (nsec / 1000000000, nsec % 1000000000)
    else none
