-- ===== src/Process/UserStack/Bytes.antt =====
-- Strings and words in memory, and which writes leave them.
use hecto_os.Base.{
  ℕ, ◌+◌, ◌*◌, ◌/◌, ◌%◌, ◌-◌, ◌^◌, ◌≤◌, ◌<◌, ◌≡◌, ◌⊎◌, refl, ap, subst, ◌∙◌, inl, inr, true, ◌&&◌,
  List, [], ◌∷◌, ltb, leb, length, All, arith,
}
use hecto_os.Process.UserStack.{Memory, write_byte, write_word, write_string, write_words}

-- The memory from an address on is the same.
abbrev pub SameFrom : ℕ → Memory → Memory → Type 0
SameFrom a memory memory' = (x : ℕ) → a ≤ x → memory' x ≡ memory x

-- The string at an address, up to its zero byte
abbrev pub HasString : Memory → ℕ → List ℕ → Type 0
HasString memory a [] = memory a ≡ 0
HasString memory a (c ∷ s) = (memory a ≡ c) × HasString memory (a + 1) s

abbrev pub read_word : Memory → ℕ → ℕ
read_word memory a =
    memory a
    + 256
      * (memory (a + 1)
          + 256
            * (memory (a + 2)
                + 256
                  * (memory (a + 3)
                      + 256
                        * (memory (a + 4)
                            + 256
                              * (memory (a + 5) + 256 * (memory (a + 6) + 256 * memory (a + 7)))))))

abbrev pub HasWords : Memory → ℕ → List ℕ → Type 0
HasWords memory a [] = Unit
HasWords memory a (w ∷ ws) = (read_word memory a ≡ w) × HasWords memory (a + 8) ws

pub HasString-SameFrom :
    (a : ℕ) (s : List ℕ) (memory memory' : Memory)
    → SameFrom a memory memory'
    → HasString memory a s
    → HasString memory' a s
HasString-SameFrom a [] memory memory' same h = same a (omega arith) ∙ h
HasString-SameFrom a (c ∷ s) memory memory' same (here, there) = (
  same a (omega arith) ∙ here,
  HasString-SameFrom (a + 1) s memory memory' (λ x le. same x (omega arith)) there,
)

-- The bytes between two addresses are the same, each memory with an offset of its own.
abbrev pub SameBetween : ℕ → ℕ → ℕ → ℕ → Memory → Memory → Type 0
SameBetween low high offset offset' memory memory' =
    (x : ℕ) → low ≤ x → x < high → memory' (x + offset') ≡ memory (x + offset)

pub HasString-moved :
    (low high offset offset' a : ℕ) (s : List ℕ) (memory memory' : Memory)
    → SameBetween low high offset offset' memory memory'
    → low ≤ a
    → a + length s < high
    → HasString memory (a + offset) s
    → HasString memory' (a + offset') s
HasString-moved low high offset offset' a [] memory memory' same le lt h =
    same a le (omega arith) ∙ h
HasString-moved low high offset offset' a (c ∷ s) memory memory' same le lt (here, there) = (
  same a le (omega arith) ∙ here,
  subst (λ x. HasString memory' x s) (omega arith)
      (HasString-moved low high offset offset' (a + 1) s memory memory' same (omega arith)
        (omega arith) (subst (λ x. HasString memory x s) (omega arith) there)),
)

read_word_moved :
    (a b : ℕ) (memory memory' : Memory)
    → ((x : ℕ) → x < 8 → memory' (b + x) ≡ memory (a + x))
    → read_word memory' b ≡ read_word memory a
read_word_moved a b memory memory' same =
    let first : memory' b ≡ memory a =
      ap memory' (omega arith) ∙ (same 0 (omega arith) ∙ ap memory (omega arith)) in
    omega (
      arith,
      first,
      same 1 (omega arith),
      same 2 (omega arith),
      same 3 (omega arith),
      same 4 (omega arith),
      same 5 (omega arith),
      same 6 (omega arith),
      same 7 (omega arith),
    )

pub HasWords-moved :
    (low high offset offset' a : ℕ) (ws : List ℕ) (memory memory' : Memory)
    → SameBetween low high offset offset' memory memory'
    → low ≤ a
    → a + length ws * 8 ≤ high
    → HasWords memory (a + offset) ws
    → HasWords memory' (a + offset') ws
HasWords-moved low high offset offset' a [] memory memory' same le fits h = tt
HasWords-moved low high offset offset' a (w ∷ ws) memory memory' same le fits (here, there) = (
  read_word_moved (a + offset) (a + offset') memory memory' (λ x lt.
        ap memory' (omega arith)
        ∙ (same (a + x) (omega arith) (omega arith) ∙ ap memory (omega arith)))
      ∙ here,
  subst (λ x. HasWords memory' x ws) (omega arith)
      (HasWords-moved low high offset offset' (a + 8) ws memory memory' same (omega arith)
        (omega arith) (subst (λ x. HasWords memory x ws) (omega arith) there)),
)

-- A word depends on its eight bytes.
read_word_local :
    (a : ℕ) (memory memory' : Memory)
    → ((x : ℕ) → a ≤ x → x < a + 8 → memory' x ≡ memory x)
    → read_word memory' a ≡ read_word memory a
read_word_local a memory memory' same =
    read_word_moved a a memory memory' (λ x lt. same (a + x) (omega arith) (omega arith))

pub HasWords-SameFrom :
    (a : ℕ) (ws : List ℕ) (memory memory' : Memory)
    → SameFrom a memory memory'
    → HasWords memory a ws
    → HasWords memory' a ws
HasWords-SameFrom a [] memory memory' same h = tt
HasWords-SameFrom a (w ∷ ws) memory memory' same (here, there) = (
  read_word_local a memory memory' (λ x le lt. same x le) ∙ here,
  HasWords-SameFrom (a + 8) ws memory memory' (λ x le. same x (omega arith)) there,
)

-- What a string and words written leave below and above them
write_string_apart :
    (a : ℕ) (s : List ℕ) (memory : Memory) (x : ℕ)
    → (x < a) ⊎ (a + length s < x)
    → write_string a s memory x ≡ memory x
unfolding write_string
write_string_apart a [] memory x apart = ground arith
write_string_apart a (c ∷ s) memory x apart =
    let far : (x < a + 1) ⊎ (a + 1 + length s < x) = elim apart [
      | inl below ↦ inl (omega arith)
      | inr above ↦ inr (omega arith)
    ] in
    ground (arith, write_string_apart (a + 1) s (write_byte a c memory) x far)

pub write_string-HasString :
    (a : ℕ) (s : List ℕ) (memory : Memory) → HasString (write_string a s memory) a s
unfolding write_string
write_string-HasString a [] memory = ground arith
write_string-HasString a (c ∷ s) memory = (
  write_string_apart (a + 1) s (write_byte a c memory) a (inl (omega arith)) ∙ ground arith,
  write_string-HasString (a + 1) s (write_byte a c memory),
)

pub write_string-SameFrom :
    (a : ℕ) (s : List ℕ) (memory : Memory)
    → SameFrom (a + (length s + 1)) memory (write_string a s memory)
write_string-SameFrom a s memory x le = write_string_apart a s memory x (inr (omega arith))

write_word_apart :
    (a v : ℕ) (memory : Memory) (x : ℕ) → (x < a) ⊎ (a + 8 ≤ x) → write_word a v memory x ≡ memory x
unfolding write_word
write_word_apart a v memory x apart = ground arith

write_word_at :
    (a v : ℕ) (memory : Memory) (i : ℕ) → i < 8 → write_word a v memory (a + i) ≡ v / 256 ^ i % 256
unfolding write_word
write_word_at a v memory i lt =
    let inside : (leb a (a + i) && ltb (a + i) (a + 8)) ≡ true = ground arith in
    let byte : a + i - a ≡ i = omega arith in rw (inside, byte) refl

read_word-write_word :
    (a v : ℕ) (memory : Memory) → v < 2 ^ 64 → read_word (write_word a v memory) a ≡ v
read_word-write_word a v memory lt =
    let here : write_word a v memory a ≡ v / 256 ^ 0 % 256 =
      ap (write_word a v memory) (omega arith) ∙ write_word_at a v memory 0 (omega arith) in
    omega (
      arith,
      here,
      write_word_at a v memory 1 (omega arith),
      write_word_at a v memory 2 (omega arith),
      write_word_at a v memory 3 (omega arith),
      write_word_at a v memory 4 (omega arith),
      write_word_at a v memory 5 (omega arith),
      write_word_at a v memory 6 (omega arith),
      write_word_at a v memory 7 (omega arith),
    )

write_words_apart :
    (a : ℕ) (ws : List ℕ) (memory : Memory) (x : ℕ)
    → (x < a) ⊎ (a + length ws * 8 ≤ x)
    → write_words a ws memory x ≡ memory x
unfolding write_words
write_words_apart a [] memory x apart = refl
write_words_apart a (w ∷ ws) memory x apart =
    let (far, farther) : ((x < a + 8) ⊎ (a + 8 + length ws * 8 ≤ x)) × ((x < a) ⊎ (a + 8 ≤ x)) =
      elim apart [
        | inl below ↦ (inl (omega arith), inl (omega arith))
        | inr above ↦ (inr (omega arith), inr (omega arith))
      ] in
    write_words_apart (a + 8) ws (write_word a w memory) x far
    ∙ write_word_apart a w memory x farther

pub write_words-SameFrom :
    (a : ℕ) (ws : List ℕ) (memory : Memory)
    → SameFrom (a + length ws * 8) memory (write_words a ws memory)
write_words-SameFrom a ws memory x le = write_words_apart a ws memory x (inr le)

pub write_words-HasWords :
    (a : ℕ) (ws : List ℕ) (memory : Memory)
    → All (λ w. w < 2 ^ 64) ws
    → HasWords (write_words a ws memory) a ws
unfolding write_words
write_words-HasWords a [] memory small = tt
write_words-HasWords a (w ∷ ws) memory (lt, small) = (
  read_word_local a (write_word a w memory) (write_words a (w ∷ ws) memory)
        (λ x le under. write_words_apart (a + 8) ws (write_word a w memory) x (inl under))
      ∙ read_word-write_word a w memory lt,
  write_words-HasWords (a + 8) ws (write_word a w memory) small,
)
