-- ===== src/Process/UserStack/Stacked.antt =====
-- The parts of the stack one below the other, as alloc_user_stack writes them.
use hecto_os.Base.{
  ℕ, ◌+◌, ◌*◌, ◌%◌, ◌-◌, ◌^◌, ◌≤◌, ◌<◌, ◌≡◌, refl, ◌∙◌, some, List, [], ◌∷◌, ◌++◌, length,
  length-append, All, arith,
}
use hecto_os.Base.Word.{checked_sub, checked_sub-some}
use hecto_os.Process.UserStack.{Memory, UserStack, lay_out}
use hecto_os.Process.UserStack.Bytes.{SameFrom, HasWords, HasWords-SameFrom}
use hecto_os.Process.UserStack.Parts.{
  total_bytes, PointTo, PointTo-SameFrom, Within, Within-wider, Pushed, push_strings-Pushed, Worded,
  push_words-Worded, All-zero_last,
}

-- What is needed of the stack
abbrev pub stack_bytes : List (List ℕ) → List (List ℕ) → List ℕ → ℕ
stack_bytes arguments environments aux =
    8
    + total_bytes environments
    + total_bytes arguments
    + 15
    + (length aux + length environments + 1 + length arguments + 1 + 1) * 8

-- What a program finds: the number of its arguments at its stack pointer, then a pointer to each
-- argument and a null pointer, a pointer to each string of its environment and a null pointer, and
-- the auxiliary vector; all below the top of the stack, and within the bytes that are needed.
pub record IsLaid (offset top : ℕ) (arguments environments : List (List ℕ)) (aux : List ℕ)
    (u : UserStack) : Type 0 where
  pub argv : List ℕ
  pub envp : List ℕ
  pub argc : HasWords u.memory (u.user_sp + offset) (length arguments ∷ [])
  pub argv_at : u.argv_base ≡ u.user_sp + 8
  pub argv_words : HasWords u.memory (u.argv_base + offset) (argv ++ 0 ∷ [])
  pub argv_point : PointTo u.memory offset argv arguments
  pub envp_at : u.envp_base ≡ u.argv_base + (length arguments + 1) * 8
  pub envp_words : HasWords u.memory (u.envp_base + offset) (envp ++ 0 ∷ [])
  pub envp_point : PointTo u.memory offset envp environments
  pub auxv_at : u.auxv_base ≡ u.envp_base + (length environments + 1) * 8
  pub auxv_words : HasWords u.memory (u.auxv_base + offset) aux
  pub argv_within : Within u.user_sp top argv arguments
  pub envp_within : Within u.user_sp top envp environments
  pub auxv_low : u.auxv_base + length aux * 8 ≤ top
  pub argv_each : length argv ≡ length arguments
  pub envp_each : length envp ≡ length environments
  pub low : top ≤ u.user_sp + stack_bytes arguments environments aux
  pub padded : (u.auxv_base + length aux * 8) % 16 ≡ 0

-- The parts of the stack, one below the other
module _ {offset : ℕ} {arguments environments : List (List ℕ)} {aux : List ℕ} {user_sp : ℕ}
    {memory : Memory} (e : Pushed offset user_sp environments memory)
    (a : Pushed offset e.user_sp' arguments e.memory')
    (x : Worded offset (a.user_sp' - a.user_sp' % 16) aux a.memory')
    (v : Worded offset x.base (e.pointers ++ 0 ∷ []) x.memory')
    (w : Worded offset v.base (a.pointers ++ 0 ∷ []) v.memory')
    (c : Worded offset w.base (length arguments ∷ []) w.memory') where
  abbrev laid : UserStack
  laid = record {
    user_sp = c.base;
    argv_base = w.base;
    envp_base = v.base;
    auxv_base = x.base;
    memory = c.memory';
  }

  laid-done :
      (top : ℕ)
      → checked_sub top 8 ≡ some user_sp
      → lay_out offset arguments environments aux top memory ≡ some laid
  unfolding lay_out
  laid-done top fits = rw (fits, e.done, a.done, x.done, v.done, w.done, c.done) refl

  -- The memory written below is the same above.
  above_words : SameFrom (v.base + offset) v.memory' c.memory'
  above_words y le = c.same y (omega (arith, w.room)) ∙ w.same y (omega (arith, w.room))

  above_vector : SameFrom (x.base + offset) x.memory' c.memory'
  above_vector y le = above_words y (omega (arith, v.room)) ∙ v.same y (omega (arith, v.room))

  above_strings : SameFrom (a.user_sp' - a.user_sp' % 16 + offset) a.memory' c.memory'
  above_strings y le = above_vector y (omega (arith, x.room)) ∙ x.same y (omega (arith, x.room))

  lower : c.base ≤ a.user_sp'
  lower = omega (arith, c.room, w.room, v.room, x.room)

  laid-IsLaid : (top : ℕ) → top ≡ user_sp + 8 → IsLaid offset top arguments environments aux laid
  laid-IsLaid top is = record {
    argv = a.pointers;
    envp = e.pointers;
    argc = c.words;
    argv_at = omega (arith, c.room);
    argv_words =
        HasWords-SameFrom (w.base + offset) (a.pointers ++ 0 ∷ []) w.memory' c.memory'
          (λ y le. c.same y (omega (arith, c.room))) w.words;
    argv_point =
        PointTo-SameFrom a.user_sp' offset a.pointers arguments a.memory' c.memory'
          (λ y le. above_strings y (omega arith)) a.above a.point;
    envp_at = omega (arith, w.room, a.each, length-append a.pointers (0 ∷ []));
    envp_words =
        HasWords-SameFrom (v.base + offset) (e.pointers ++ 0 ∷ []) v.memory' c.memory' above_words
          v.words;
    envp_point =
        PointTo-SameFrom e.user_sp' offset e.pointers environments e.memory' c.memory'
          (λ y le. above_strings y (omega (arith, a.room)) ∙ a.same y le) e.above e.point;
    auxv_at = omega (arith, v.room, e.each, length-append e.pointers (0 ∷ []));
    auxv_words = HasWords-SameFrom (x.base + offset) aux x.memory' c.memory' above_vector x.words;
    argv_within =
        Within-wider a.user_sp' e.user_sp' c.base top a.pointers arguments lower
          (omega (arith, e.room)) a.within;
    envp_within =
        Within-wider e.user_sp' user_sp c.base top e.pointers environments
          (omega (arith, a.room, lower)) (omega arith) e.within;
    auxv_low = omega (arith, x.room, a.room, e.room);
    argv_each = a.each;
    envp_each = e.each;
    low = omega (
      arith,
      c.room,
      w.room,
      v.room,
      x.room,
      a.room,
      e.room,
      a.each,
      e.each,
      length-append a.pointers (0 ∷ []),
      length-append e.pointers (0 ∷ []),
    );
    padded = omega (arith, x.room);
  }

-- The parts are added one by one, each with the room that is left.
module _ (offset : ℕ) (arguments environments : List (List ℕ)) (aux : List ℕ) (top : ℕ)
    (memory : Memory) (fits : stack_bytes arguments environments aux ≤ top) (lt : top < 2 ^ 64)
    (small : All (λ w. w < 2 ^ 64) aux) where
  abbrev LaidOut : Type 0
  LaidOut =
      (u : UserStack) × (lay_out offset arguments environments aux top memory ≡ some u)
      × IsLaid offset top arguments environments aux u

  abbrev Strings : Type 0
  Strings = Pushed offset (top - 8) environments memory

  with_argv :
      (e : Strings) (a : Pushed offset e.user_sp' arguments e.memory')
      (x : Worded offset (a.user_sp' - a.user_sp' % 16) aux a.memory')
      (v : Worded offset x.base (e.pointers ++ 0 ∷ []) x.memory')
      → Worded offset v.base (a.pointers ++ 0 ∷ []) v.memory'
      → LaidOut
  with_argv e a x v w =
      let c =
        push_words-Worded offset (length arguments ∷ []) w.base w.memory'
          (omega (
            arith,
            e.room,
            a.room,
            x.room,
            v.room,
            w.room,
            e.each,
            a.each,
            length-append e.pointers (0 ∷ []),
            length-append a.pointers (0 ∷ []),
          ))
          (omega arith, tt) in
      (
        laid e a x v w c,
        laid-done e a x v w c top (checked_sub-some top 8 (omega arith)),
        laid-IsLaid e a x v w c top (omega arith),
      )

  with_envp :
      (e : Strings) (a : Pushed offset e.user_sp' arguments e.memory')
      (x : Worded offset (a.user_sp' - a.user_sp' % 16) aux a.memory')
      → Worded offset x.base (e.pointers ++ 0 ∷ []) x.memory'
      → LaidOut
  with_envp e a x v = with_argv e a x v (
      push_words-Worded offset (a.pointers ++ 0 ∷ []) v.base v.memory'
        (omega (
          arith,
          e.room,
          a.room,
          x.room,
          v.room,
          e.each,
          a.each,
          length-append e.pointers (0 ∷ []),
          length-append a.pointers (0 ∷ []),
        ))
        (All-zero_last a.pointers a.small))

  with_auxv :
      (e : Strings) (a : Pushed offset e.user_sp' arguments e.memory')
      → Worded offset (a.user_sp' - a.user_sp' % 16) aux a.memory'
      → LaidOut
  with_auxv e a x = with_envp e a x (
      push_words-Worded offset (e.pointers ++ 0 ∷ []) x.base x.memory'
        (omega (arith, e.room, a.room, x.room, e.each, length-append e.pointers (0 ∷ [])))
        (All-zero_last e.pointers e.small))

  with_arguments : (e : Strings) → Pushed offset e.user_sp' arguments e.memory' → LaidOut
  with_arguments e a = with_auxv e a (
      push_words-Worded offset aux (a.user_sp' - a.user_sp' % 16) a.memory'
        (omega (arith, e.room, a.room)) small)

  with_environments : Strings → LaidOut
  with_environments e = with_arguments e (
      push_strings-Pushed offset arguments e.user_sp' e.memory' (omega (arith, e.room))
        (omega (arith, e.room)))

pub lay_out-IsLaid :
    (offset : ℕ) (arguments environments : List (List ℕ)) (aux : List ℕ) (top : ℕ) (memory : Memory)
    → stack_bytes arguments environments aux ≤ top
    → top < 2 ^ 64
    → All (λ w. w < 2 ^ 64) aux
    → (u : UserStack) × (lay_out offset arguments environments aux top memory ≡ some u)
      × IsLaid offset top arguments environments aux u
lay_out-IsLaid offset arguments environments aux top memory fits lt small =
    with_environments offset arguments environments aux top memory fits lt small
      (push_strings-Pushed offset environments (top - 8) memory (omega arith) (omega arith))
