-- ===== src/Process/UserStack/Tests.antt =====
-- A stack of one page for `cat a` with one string of environment.
use hecto_os.Base.{
  ℕ, ◌+◌, ◌%◌, ◌/◌, ltb, if◌then◌else◌, ◌≡◌, ◌↔◌, refl, true, Option, none, some, List, [], ◌∷◌,
  length, arith,
}
use hecto_os.Process.UserStack.{
  ElfHeader, ProgramHeader, UserStack, alloc_user_stack, auxv, ph_head,
}
use hecto_os.Process.UserStack.Stacked.{IsLaid}
use hecto_os.Process.UserStack.Layout.{
  seen_through, alloc_user_stack-IsLaid, alloc_user_stack-aligned,
}

abbrev arguments : List (List ℕ)
arguments = (0x63 ∷ 0x61 ∷ 0x74 ∷ []) ∷ (0x61 ∷ []) ∷ []

abbrev environments : List (List ℕ)
environments = (0x50 ∷ 0x3D ∷ 0x2F ∷ []) ∷ []

abbrev elf : ElfHeader
elf = record { ph_offset = 64; ph_entry_size = 56; ph_count = 1; entry_point = 0x10100 }

abbrev headers : List ProgramHeader
headers = record { is_load = true; offset = 0; virtual_addr = 0x10000 } ∷ []

found : ph_head elf.ph_offset headers ≡ some 0x10040
unfolding ph_head hecto_os.Base.Word.checked_sub
found = refl

-- The page table of the program: the page below 0x8000 is not next to the others in the kernel's view.
abbrev translate : ℕ → ℕ
translate p = if ltb p 0x7000 then p + 0x5000 else p + 0x1000

translate-pages : (p q : ℕ) → p / 4096 ≡ q / 4096 → translate p + q ≡ translate q + p
translate-pages p q same = ground arith

alloc_user_stack-IsLaid_example :
    (u : UserStack) × (alloc_user_stack 0x1000 arguments environments elf headers 0x8000 (λ x. 0)
      ≡ some u)
    × IsLaid 0 0x8000 arguments environments (auxv 0x10040 elf) (seen_through translate u)
unfolding auxv
alloc_user_stack-IsLaid_example =
    alloc_user_stack-IsLaid translate translate-pages 0x1000 arguments environments elf headers
      0x8000 (λ x. 0) 0x10040 found (omega arith) (omega arith) (omega arith) (omega arith)
      (omega arith)

abbrev or_empty : Option UserStack → UserStack
or_empty none = record { user_sp = 0; argv_base = 0; envp_base = 0; auxv_base = 0; memory = λ x. 0 }
or_empty (some u) = u

unfoldable stack : UserStack
unfolding alloc_user_stack
stack = or_empty (alloc_user_stack 0x1000 arguments environments elf headers 0x8000 (λ x. 0))

stack-done : alloc_user_stack 0x1000 arguments environments elf headers 0x8000 (λ x. 0) ≡ some stack
unfolding stack hecto_os.Base.Word.checked_sub
stack-done = refl

-- 32768 - 8 - 4 - 2 - 4 is cut to a multiple of 16, and 14 + 2 + 3 + 1 words are put below it.
stack_pointer : stack.user_sp ≡ 0x7F40
unfolding stack hecto_os.Base.Word.checked_sub
stack_pointer = refl

alloc_user_stack-aligned_example :
    (stack.user_sp % 16 ≡ 0) ↔ ((length arguments + length environments) % 2 ≡ 1)
unfolding auxv
alloc_user_stack-aligned_example =
    alloc_user_stack-aligned 0x1000 arguments environments elf headers 0x8000 (λ x. 0) 0x10040 found
      (omega arith) (omega arith) (omega arith) stack stack-done
