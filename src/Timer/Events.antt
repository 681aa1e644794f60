-- ===== src/Timer/Events.antt =====
-- Registering keeps every earlier event, and expiring calls what is due.
use hecto_os.Base.{
  ℕ, zero, suc, ◌+◌, ◌≤◌, ◌<◌, ◌≡◌, refl, ap, subst, inl, inr, true, false, List, [], ◌∷◌, ◌++◌,
  ltb, leb, ◌==◌, if◌then◌else◌, Bool-cases, length, All, arith,
}
use hecto_os.Timer.{Events, contains_key, free_deadline, insert_event, register, expire}

-- Events in the order of their deadlines, all after `from`.
abbrev pub IsSorted : ℕ → Events → Type 0
IsSorted from [] = Unit
IsSorted from (event ∷ rest) = (from ≤ event.0) × IsSorted (suc event.0) rest

-- How often an event stands in the list.
abbrev pub count_event : ℕ → ℕ → Events → ℕ
count_event deadline callback [] = 0
count_event deadline callback (event ∷ rest) =
    (if event.0 == deadline then (if event.1 == callback then 1 else 0) else 0)
    + count_event deadline callback rest

-- The events from a deadline on: the rounds that the search for a free one may need.
abbrev due_from : ℕ → Events → ℕ
due_from deadline [] = 0
due_from deadline (event ∷ rest) = (if leb deadline event.0 then 1 else 0) + due_from deadline rest

due_from-le : (d : ℕ) (events : Events) → due_from (d + 1) events ≤ due_from d events
due_from-le d [] = omega arith
due_from-le d (event ∷ rest) = ground (arith, due_from-le d rest)

due_from-contains :
    (d : ℕ) (events : Events)
    → contains_key d events ≡ true
    → suc (due_from (d + 1) events) ≤ due_from d events
unfolding contains_key
due_from-contains d [] h = absurd (cc)
due_from-contains d (event ∷ rest) h = elim (Bool-cases (event.0 == d)) [
  | inl same ↦ ground (arith, same, due_from-le d rest)
  | inr other ↦ ground (arith, other, due_from-contains d rest (rw other at h))
]

due_from-length : (d : ℕ) (events : Events) → due_from d events ≤ length events
due_from-length d [] = omega arith
due_from-length d (event ∷ rest) = ground (arith, due_from-length d rest)

-- From a deadline up to another, each has an event.
abbrev pub Taken : ℕ → ℕ → Events → Type 0
Taken from to events = (x : ℕ) → from ≤ x → x < to → contains_key x events ≡ true

Taken-first :
    (d to : ℕ) (events : Events)
    → contains_key d events ≡ true
    → Taken (d + 1) to events
    → Taken d to events
Taken-first d to events taken above x low high = elim (Bool-cases (x == d)) [
  | inl same ↦ let is : x ≡ d = ground (arith, same) in rw is taken
  | inr other ↦ above x (ground (arith, other)) high
]

free_deadline-contains :
    (fuel d : ℕ) (events : Events)
    → due_from d events ≤ fuel
    → (contains_key (free_deadline fuel d events) events ≡ false)
      × (d ≤ free_deadline fuel d events)
      × Taken d (free_deadline fuel d events) events
unfolding free_deadline
free_deadline-contains zero d events enough = elim (Bool-cases (contains_key d events)) [
  | inr free ↦ (free, omega arith, λ x low high. absurd (omega arith))
  | inl taken ↦ absurd (omega (arith, due_from-contains d events taken))
]
free_deadline-contains (suc fuel) d events enough = elim (Bool-cases (contains_key d events)) [
  | inr free ↦ rw free (free, omega arith, λ x low high. absurd (omega arith))
  | inl taken ↦
      let (free, late, above) =
        free_deadline-contains fuel (d + 1) events
          (omega (arith, due_from-contains d events taken)) in
      rw taken (
        free,
        omega (arith, late),
        Taken-first d (free_deadline fuel (d + 1) events) events taken above,
      )
]

insert_event-count_event :
    (f callback : ℕ) (events : Events) (d c : ℕ)
    → contains_key f events ≡ false
    → count_event d c (insert_event f callback events)
      ≡ (if f == d then (if callback == c then 1 else 0) else 0) + count_event d c events
unfolding insert_event contains_key
insert_event-count_event f callback [] d c free = refl
insert_event-count_event f callback (event ∷ rest) d c free =
    let other : (event.0 == f) ≡ false = ground (arith, free) in
    let deeper : contains_key f rest ≡ false = ground (arith, free) in
    elim (Bool-cases (ltb f event.0)) [
      | inl before ↦ rw before refl
      | inr after ↦
          rw (after, other) (omega (arith, insert_event-count_event f callback rest d c deeper))
    ]

insert_event-IsSorted :
    (f callback from : ℕ) (events : Events)
    → from ≤ f
    → IsSorted from events
    → IsSorted from (insert_event f callback events)
unfolding insert_event
insert_event-IsSorted f callback from [] le sorted = (le, tt)
insert_event-IsSorted f callback from (event ∷ rest) le (low, sorted) =
    elim (Bool-cases (ltb f event.0)) [
      | inl before ↦ rw before (le, (ground (arith, before), sorted))
      | inr after ↦ elim (Bool-cases (event.0 == f)) [
        | inl same ↦
            let at : event.0 ≡ f = ground (arith, same) in
            rw (after, same) (le, subst (λ (d : ℕ). IsSorted (suc d) rest) at sorted)
        | inr other ↦
            rw (after, other)
              (
                low,
                insert_event-IsSorted f callback (suc event.0) rest (ground (arith, after, other))
                    sorted,
              )
      ]
    ]

-- A callback is registered at the first deadline from the one asked for on that has no event: each
-- deadline before it, from the one asked for, has one. Every event registered before is still there, as
-- often as it was, and in order.
pub register-count_event :
    (deadline callback : ℕ) (events : Events)
    → IsSorted 0 events
    → (at : ℕ) × (deadline ≤ at)
      × (contains_key at events ≡ false)
      × Taken deadline at events
      × IsSorted 0 (register deadline callback events)
      × ((d c : ℕ)
          → count_event d c (register deadline callback events)
            ≡ (if at == d then (if callback == c then 1 else 0) else 0) + count_event d c events)
unfolding register
register-count_event deadline callback events sorted =
    let at = free_deadline (length events) deadline events in
    let (free, late, taken) =
      free_deadline-contains (length events) deadline events (due_from-length deadline events) in
    (
      at,
      late,
      free,
      taken,
      insert_event-IsSorted at callback 0 events (omega arith) sorted,
      λ d c. insert_event-count_event at callback events d c free,
    )

abbrev pub callbacks : Events → List ℕ
callbacks [] = []
callbacks (event ∷ rest) = event.1 ∷ callbacks rest

not_due_yet :
    (now from : ℕ) (events : Events)
    → now < from
    → IsSorted from events
    → All (λ e. now < e.0) events
not_due_yet now from [] lt sorted = tt
not_due_yet now from (event ∷ rest) lt (low, sorted) =
    (omega arith, not_due_yet now (suc event.0) rest (omega arith) sorted)

-- Of events in order, expire calls those that are due, in order, and leaves the others.
pub expire-callbacks :
    (now from : ℕ) (events : Events)
    → IsSorted from events
    → (due : Events) × (events ≡ due ++ (expire now events).1)
      × ((expire now events).0 ≡ callbacks due)
      × All (λ e. e.0 ≤ now) due
      × All (λ e. now < e.0) (expire now events).1
unfolding expire
expire-callbacks now from [] sorted = ([], refl, refl, tt, tt)
expire-callbacks now from (event ∷ rest) (low, sorted) = elim (Bool-cases (ltb now event.0)) [
  | inl later ↦ rw later (
    [],
    refl,
    refl,
    tt,
    (ground (arith, later), not_due_yet now (suc event.0) rest (ground (arith, later)) sorted),
  )
  | inr due_now ↦
      let (due, split, called, all, left) = expire-callbacks now (suc event.0) rest sorted in
      rw due_now (
        event ∷ due,
        ap (λ (l : Events). event ∷ l) split,
        ap (λ (l : List ℕ). event.1 ∷ l) called,
        (ground (arith, due_now), all),
        left,
      )
]
