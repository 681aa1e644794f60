-- ===== src/Process/UserStack/Parts.antt =====
-- The parts of the stack: strings with the pointers to them, and words.
use hecto_os.Base.{
  ℕ, suc, ◌+◌, ◌*◌, ◌-◌, ◌^◌, ◌≤◌, ◌<◌, ◌≡◌, refl, ap, ◌∙◌, some, List, [], ◌∷◌, ◌++◌, length, All,
  arith,
}
use hecto_os.Base.Word.{checked_sub-some}
use hecto_os.Process.UserStack.{Memory, write_string, write_words, push_strings, push_words}
use hecto_os.Process.UserStack.Bytes.{
  SameFrom, SameBetween, HasString, HasString-moved, HasWords, HasString-SameFrom,
  write_string-HasString, write_string-SameFrom, write_words-HasWords, write_words-SameFrom,
}

abbrev pub total_bytes : List (List ℕ) → ℕ
total_bytes [] = 0
total_bytes (s ∷ rest) = length s + 1 + total_bytes rest

-- Each pointer is the address of its string.
abbrev pub PointTo : Memory → ℕ → List ℕ → List (List ℕ) → Type 0
PointTo memory offset [] [] = Unit
PointTo memory offset [] (s ∷ rest) = ⊥
PointTo memory offset (p ∷ pointers) [] = ⊥
PointTo memory offset (p ∷ pointers) (s ∷ rest) =
    HasString memory (p + offset) s × PointTo memory offset pointers rest

pub PointTo-SameFrom :
    (low offset : ℕ) (pointers : List ℕ) (strings : List (List ℕ)) (memory memory' : Memory)
    → SameFrom (low + offset) memory memory'
    → All (λ p. low ≤ p) pointers
    → PointTo memory offset pointers strings
    → PointTo memory' offset pointers strings
PointTo-SameFrom low offset [] [] memory memory' same above there = tt
PointTo-SameFrom low offset [] (s ∷ rest) memory memory' same above there = there
PointTo-SameFrom low offset (p ∷ pointers) [] memory memory' same above there = there
PointTo-SameFrom low offset (p ∷ pointers) (s ∷ rest) memory memory' same (le, above)
      (here, there) =
    (
      HasString-SameFrom (p + offset) s memory memory' (λ x le'. same x (omega arith)) here,
      PointTo-SameFrom low offset pointers rest memory memory' same above there,
    )

-- Each pointer and its string lie between two addresses.
abbrev pub Within : ℕ → ℕ → List ℕ → List (List ℕ) → Type 0
Within low high (p ∷ pointers) (s ∷ rest) =
    (low ≤ p) × (p + length s < high) × Within low high pointers rest
Within low high pointers strings = Unit

pub Within-wider :
    (low high low' high' : ℕ) (pointers : List ℕ) (strings : List (List ℕ))
    → low' ≤ low
    → high ≤ high'
    → Within low high pointers strings
    → Within low' high' pointers strings
Within-wider low high low' high' [] strings below above there = tt
Within-wider low high low' high' (p ∷ pointers) [] below above there = tt
Within-wider low high low' high' (p ∷ pointers) (s ∷ rest) below above (le, lt, there) =
    (omega arith, omega arith, Within-wider low high low' high' pointers rest below above there)

-- The same strings in a memory that has the bytes elsewhere
pub PointTo-moved :
    (low high offset offset' : ℕ) (pointers : List ℕ) (strings : List (List ℕ))
    (memory memory' : Memory)
    → SameBetween low high offset offset' memory memory'
    → Within low high pointers strings
    → PointTo memory offset pointers strings
    → PointTo memory' offset' pointers strings
PointTo-moved low high offset offset' [] [] memory memory' same inside there = tt
PointTo-moved low high offset offset' [] (s ∷ rest) memory memory' same inside there = there
PointTo-moved low high offset offset' (p ∷ pointers) [] memory memory' same inside there = there
PointTo-moved low high offset offset' (p ∷ pointers) (s ∷ rest) memory memory' same (le, lt, inside)
      (here, there) =
    (
      HasString-moved low high offset offset' p s memory memory' same le lt here,
      PointTo-moved low high offset offset' pointers rest memory memory' same inside there,
    )

-- What the loops over strings give
pub record Pushed (offset user_sp : ℕ) (strings : List (List ℕ)) (memory : Memory) : Type 0 where
  pub user_sp' : ℕ
  pub pointers : List ℕ
  pub memory' : Memory
  pub done : push_strings offset strings user_sp memory ≡ some (user_sp', pointers, memory')
  pub room : user_sp' + total_bytes strings ≡ user_sp
  pub same : SameFrom (user_sp + offset) memory memory'
  pub point : PointTo memory' offset pointers strings
  pub above : All (λ p. user_sp' ≤ p) pointers
  pub within : Within user_sp' user_sp pointers strings
  pub small : All (λ p. p < 2 ^ 64) pointers
  pub each : length pointers ≡ length strings

pub push_strings-Pushed :
    (offset : ℕ) (strings : List (List ℕ)) (user_sp : ℕ) (memory : Memory)
    → total_bytes strings ≤ user_sp
    → user_sp < 2 ^ 64
    → Pushed offset user_sp strings memory
unfolding push_strings
push_strings-Pushed offset [] user_sp memory fits lt = record {
  user_sp' = user_sp;
  pointers = [];
  memory' = memory;
  done = refl;
  room = omega arith;
  same = λ x le. refl;
  point = tt;
  above = tt;
  within = tt;
  small = tt;
  each = refl;
}
push_strings-Pushed offset (s ∷ rest) user_sp memory fits lt =
    let sp = user_sp - (length s + 1) in
    let memory1 = write_string (sp + offset) s memory in
    let r = push_strings-Pushed offset rest sp memory1 (omega arith) (omega arith) in
    record {
      user_sp' = r.user_sp';
      pointers = sp ∷ r.pointers;
      memory' = r.memory';
      done = rw (checked_sub-some user_sp (length s + 1) (omega arith), r.done) refl;
      room = omega (arith, r.room);
      same = λ x le.
          r.same x (omega arith) ∙ write_string-SameFrom (sp + offset) s memory x (omega arith);
      point = (
        HasString-SameFrom (sp + offset) s memory1 r.memory' r.same
            (write_string-HasString (sp + offset) s memory),
        r.point,
      );
      above = (omega (arith, r.room), r.above);
      within = (
        omega (arith, r.room),
        omega arith,
        Within-wider r.user_sp' sp r.user_sp' user_sp r.pointers rest (omega arith) (omega arith)
            r.within,
      );
      small = (omega arith, r.small);
      each = ap suc r.each;
    }

-- What words below the stack pointer give
pub record Worded (offset user_sp : ℕ) (ws : List ℕ) (memory : Memory) : Type 0 where
  pub base : ℕ
  pub memory' : Memory
  pub done : push_words offset ws user_sp memory ≡ some (base, memory')
  pub room : base + length ws * 8 ≡ user_sp
  pub same : SameFrom (user_sp + offset) memory memory'
  pub words : HasWords memory' (base + offset) ws

pub push_words-Worded :
    (offset : ℕ) (ws : List ℕ) (user_sp : ℕ) (memory : Memory)
    → length ws * 8 ≤ user_sp
    → All (λ w. w < 2 ^ 64) ws
    → Worded offset user_sp ws memory
unfolding push_words
push_words-Worded offset ws user_sp memory fits small =
    let base = user_sp - length ws * 8 in
    record {
      base = base;
      memory' = write_words (base + offset) ws memory;
      done = rw (checked_sub-some user_sp (length ws * 8) fits) refl;
      room = omega arith;
      same = λ x le. write_words-SameFrom (base + offset) ws memory x (omega arith);
      words = write_words-HasWords (base + offset) ws memory small;
    }

pub All-zero_last : (ws : List ℕ) → All (λ w. w < 2 ^ 64) ws → All (λ w. w < 2 ^ 64) (ws ++ 0 ∷ [])
All-zero_last [] small = (omega arith, tt)
All-zero_last (w ∷ ws) (lt, small) = (lt, All-zero_last ws small)
