-- ===== src/Process/UserStack/Layout.antt =====
-- A program finds the number of its arguments, its arguments, its environment and the auxiliary vector
-- where its stack pointer says.
use hecto_os.Base.{
  ℕ, ◌+◌, ◌*◌, ◌%◌, ◌/◌, ◌-◌, ◌^◌, ◌≤◌, ◌<◌, ◌≡◌, ◌↔◌, ap, sym, ◌∙◌, some, some-eq, List, [], ◌∷◌,
  ◌++◌, length, length-append, All, arith,
}
use hecto_os.Process.UserStack.{
  Memory, UserStack, ElfHeader, ProgramHeader, ph_head, auxv, alloc_user_stack,
}
use hecto_os.Process.UserStack.Bytes.{SameBetween, HasWords, HasWords-moved}
use hecto_os.Process.UserStack.Parts.{PointTo-moved}
use hecto_os.Process.UserStack.Stacked.{IsLaid, stack_bytes, lay_out-IsLaid}

module _ (offset : ℕ) (arguments environments : List (List ℕ)) (elf : ElfHeader)
    (headers : List ProgramHeader) (top : ℕ) (memory : Memory) (ph_head_addr : ℕ)
    (found : ph_head elf.ph_offset headers ≡ some ph_head_addr)
    (fits : stack_bytes arguments environments (auxv ph_head_addr elf) ≤ top) (lt : top < 2 ^ 64)
    (small : All (λ w. w < 2 ^ 64) (auxv ph_head_addr elf)) where
  alloc_user_stack_lem :
      (u : UserStack) × (alloc_user_stack offset arguments environments elf headers top memory
        ≡ some u)
      × IsLaid offset top arguments environments (auxv ph_head_addr elf) u
  unfolding alloc_user_stack
  alloc_user_stack_lem = rw found (
      lay_out-IsLaid offset arguments environments (auxv ph_head_addr elf) top memory fits lt small)

  -- Where the program headers are found and the stack has the room: the stack pointer that the program starts with is a multiple of 16, as the
  -- calling convention wants, exactly if the arguments and the strings of the environment are an odd
  -- number together.
  pub alloc_user_stack-aligned :
      (u : UserStack)
      → alloc_user_stack offset arguments environments elf headers top memory ≡ some u
      → (u.user_sp % 16 ≡ 0) ↔ ((length arguments + length environments) % 2 ≡ 1)
  unfolding auxv
  alloc_user_stack-aligned u done =
      let (u', done', l) = alloc_user_stack_lem in
      let same : u'.user_sp ≡ u.user_sp = ap UserStack.user_sp (some-eq (sym done' ∙ done)) in
      (
        (λ h. omega (arith, same, l.argv_at, l.envp_at, l.auxv_at, l.padded)),
        (λ h. omega (arith, same, l.argv_at, l.envp_at, l.auxv_at, l.padded)),
      )

-- The memory that the program sees, through its page table
abbrev pub seen_through : (ℕ → ℕ) → UserStack → UserStack
seen_through translate u = record u { memory = λ x. u.memory (translate x) }

-- In a memory that has the bytes of the stack where the program sees them, it finds the same.
IsLaid-moved :
    (offset top : ℕ) (arguments environments : List (List ℕ)) (aux : List ℕ) (u : UserStack)
    (memory : Memory)
    → SameBetween u.user_sp top offset 0 u.memory memory
    → IsLaid offset top arguments environments aux u
    → IsLaid 0 top arguments environments aux (record u { memory = memory })
IsLaid-moved offset top arguments environments aux u memory same l =
    let words : (a : ℕ) (ws : List ℕ)
        → u.user_sp ≤ a
        → a + length ws * 8 ≤ top
        → HasWords u.memory (a + offset) ws
        → HasWords memory (a + 0) ws =
      λ a ws. HasWords-moved u.user_sp top offset 0 a ws u.memory memory same in
    let argv_length = length-append l.argv (0 ∷ []) in
    let envp_length = length-append l.envp (0 ∷ []) in
    let ends : u.argv_base + 8 * (length arguments + 1) + 8 * (length environments + 1) ≤ top =
      omega (arith, l.envp_at, l.auxv_at, l.auxv_low) in
    record {
      argv = l.argv;
      envp = l.envp;
      argc =
          words u.user_sp (length arguments ∷ []) (omega arith) (omega (arith, l.argv_at, ends))
            l.argc;
      argv_at = l.argv_at;
      argv_words =
          words u.argv_base (l.argv ++ 0 ∷ []) (omega (arith, l.argv_at))
            (omega (arith, argv_length, l.argv_each, ends)) l.argv_words;
      argv_point =
          PointTo-moved u.user_sp top offset 0 l.argv arguments u.memory memory same l.argv_within
            l.argv_point;
      envp_at = l.envp_at;
      envp_words =
          words u.envp_base (l.envp ++ 0 ∷ []) (omega (arith, l.argv_at, l.envp_at))
            (omega (arith, envp_length, l.envp_each, l.envp_at, ends)) l.envp_words;
      envp_point =
          PointTo-moved u.user_sp top offset 0 l.envp environments u.memory memory same
            l.envp_within l.envp_point;
      auxv_at = l.auxv_at;
      auxv_words =
          words u.auxv_base aux (omega (arith, l.argv_at, l.envp_at, l.auxv_at)) l.auxv_low
            l.auxv_words;
      argv_within = l.argv_within;
      envp_within = l.envp_within;
      auxv_low = l.auxv_low;
      argv_each = l.argv_each;
      envp_each = l.envp_each;
      low = l.low;
      padded = l.padded;
    }

module _ (translate : ℕ → ℕ)
    (pages : (p q : ℕ) → p / 4096 ≡ q / 4096 → translate p + q ≡ translate q + p) where
  -- Where the program headers are found and all that goes on the stack fits in the page below its top,
  -- with the offset that the code takes from that page: alloc_user_stack gives a stack, and a program that
  -- reads it by its own page table, upwards from its stack pointer, finds the number of its arguments, the
  -- pointers to the arguments, to the strings of its environment and the auxiliary vector, each list with
  -- its end; every pointer leads to its string, by the program's own addresses.
  pub alloc_user_stack-IsLaid :
      (offset : ℕ) (arguments environments : List (List ℕ)) (elf : ElfHeader)
      (headers : List ProgramHeader) (top : ℕ) (memory : Memory) (ph_head_addr : ℕ)
      → ph_head elf.ph_offset headers ≡ some ph_head_addr
      → stack_bytes arguments environments (auxv ph_head_addr elf) ≤ (top - 1) % 4096 + 1
      → 0 < top
      → top < 2 ^ 64
      → All (λ w. w < 2 ^ 64) (auxv ph_head_addr elf)
      → offset + top ≡ translate (top - 8) + 8
      → (u : UserStack) × (alloc_user_stack offset arguments environments elf headers top memory
          ≡ some u)
        × IsLaid 0 top arguments environments (auxv ph_head_addr elf) (seen_through translate u)
  alloc_user_stack-IsLaid offset arguments environments elf headers top memory ph_head_addr found
        fits above lt small at_top =
      let (u, done, l) =
        alloc_user_stack_lem offset arguments environments elf headers top memory ph_head_addr found
          (omega arith) lt small in
      (
        u,
        done,
        IsLaid-moved offset top arguments environments (auxv ph_head_addr elf) u
            (λ x. u.memory (translate x))
            (λ x le below.
              let zero_added : x + 0 ≡ x = omega arith in
              let at : translate x ≡ x + offset =
                omega (arith, pages x (top - 8) (omega (arith, l.low)), at_top) in
              ap u.memory (ap translate zero_added ∙ at))
            l,
      )
