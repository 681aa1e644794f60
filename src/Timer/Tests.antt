-- ===== src/Timer/Tests.antt =====
-- Three events, one registered at a deadline that is taken, and two of them due.
use hecto_os.Base.{
  ℕ, ◌+◌, ◌≤◌, ◌<◌, ◌≡◌, refl, false, none, [], ◌∷◌, ◌++◌, ◌==◌, if◌then◌else◌, All, arith,
}
use hecto_os.Timer.{Events, contains_key, register, expire, get_time, get_duration}
use hecto_os.Timer.Events.{
  IsSorted, Taken, count_event, callbacks, register-count_event, expire-callbacks,
}

abbrev events : Events
events = (10, 1) ∷ (11, 2) ∷ (20, 3) ∷ []

events-IsSorted : IsSorted 0 events
events-IsSorted = (omega arith, (omega arith, (omega arith, tt)))

register-count_event_example :
    (at : ℕ) × (10 ≤ at)
    × (contains_key at events ≡ false)
    × Taken 10 at events
    × IsSorted 0 (register 10 4 events)
    × ((d c : ℕ)
        → count_event d c (register 10 4 events)
          ≡ (if at == d then (if 4 == c then 1 else 0) else 0) + count_event d c events)
register-count_event_example = register-count_event 10 4 events events-IsSorted

registered_later : register 10 4 events ≡ (10, 1) ∷ (11, 2) ∷ (12, 4) ∷ (20, 3) ∷ []
unfolding register
registered_later = refl

expire-callbacks_example :
    (due : Events) × (events ≡ due ++ (expire 11 events).1)
    × ((expire 11 events).0 ≡ callbacks due)
    × All (λ e. e.0 ≤ 11) due
    × All (λ e. 11 < e.0) (expire 11 events).1
expire-callbacks_example = expire-callbacks 11 0 events events-IsSorted

-- After 1.5 s.
get_time_half : get_time 15000000 ≡ (1, 500000)
unfolding get_time
get_time_half = refl

-- The product leaves 64 bits after about 21 days.
get_duration_overflow : get_duration 20000000000000 ≡ none
unfolding get_duration
get_duration_overflow = refl
