-- ===== src/Process/UserStack.antt =====
-- Process::alloc_user_stack of kernel/src/process/process.rs: what a program finds on its stack. The
-- memory is a function from address to byte. A user address `p` of the stack is written through the
-- kernel's address `p + offset`, for the `offset` of its highest page. The code does so in the pages
-- below, too, which are elsewhere in the kernel's view. `none` is a panic.
pub mod Bytes
pub mod Parts
pub mod Stacked
pub mod Layout
mod Tests
use hecto_os.Base.{
  ℕ, zero, suc, ◌+◌, ◌*◌, ◌/◌, ◌%◌, ◌-◌, ◌^◌, Bool, ◌&&◌, Option, none, some, List, [], ◌∷◌, ◌++◌,
  ltb, leb, ◌==◌, if◌then◌else◌, ◌>>=◌, length,
}
use hecto_os.Base.Word.{checked_sub}

abbrev pub Memory : Type 0
Memory = ℕ → ℕ

abbrev pub write_byte : ℕ → ℕ → Memory → Memory
write_byte a v memory = λ x. if x == a then v else memory x

-- `write` of a usize: eight bytes, the lowest first
unfoldable pub write_word : ℕ → ℕ → Memory → Memory
write_word a v memory = λ x. if leb a x && ltb x (a + 8) then v / 256 ^ (x - a) % 256 else memory x

-- The loop over a string's bytes, and its end
unfoldable pub write_string : ℕ → List ℕ → Memory → Memory
write_string a [] memory = write_byte a 0 memory
write_string a (c ∷ s) memory = write_string (a + 1) s (write_byte a c memory)

-- The loops over the environments and over the arguments: the stack pointer, the pointers and the
-- memory afterwards
unfoldable pub push_strings : ℕ → List (List ℕ) → ℕ → Memory → Option (ℕ × List ℕ × Memory)
unfolding write_string
push_strings offset [] user_sp memory = some (user_sp, [], memory)
push_strings offset (s ∷ rest) user_sp memory = do
  user_sp' ← checked_sub user_sp (length s + 1)
  (user_sp'', pointers, memory') ←
      push_strings offset rest user_sp' (write_string (user_sp' + offset) s memory)
  some (user_sp'', user_sp' ∷ pointers, memory')

unfoldable pub write_words : ℕ → List ℕ → Memory → Memory
unfolding write_word
write_words a [] memory = memory
write_words a (w ∷ ws) memory = write_words (a + 8) ws (write_word a w memory)

-- Room for words below the stack pointer, and the words in it
unfoldable pub push_words : ℕ → List ℕ → ℕ → Memory → Option (ℕ × Memory)
unfolding write_words
push_words offset ws user_sp memory = do
  base ← checked_sub user_sp (length ws * 8)
  some (base, write_words (base + offset) ws memory)

pub record ProgramHeader : Type 0 where
  pub is_load : Bool
  pub offset : ℕ
  pub virtual_addr : ℕ

-- The loop over the program headers: where they are in memory
unfoldable pub ph_head : ℕ → List ProgramHeader → Option ℕ
ph_head ph_offset [] = some ph_offset
ph_head ph_offset (ph ∷ rest) =
    let after = ph_head ph_offset rest in
    if ph.is_load && leb ph.offset ph_offset
    then (do up ← checked_sub ph.virtual_addr ph.offset; some (ph_offset + up))
    else after

pub record ElfHeader : Type 0 where
  pub ph_offset : ℕ
  pub ph_entry_size : ℕ
  pub ph_count : ℕ
  pub entry_point : ℕ

-- The auxiliary vector, its pairs one after the other
unfoldable pub auxv : ℕ → ElfHeader → List ℕ
auxv ph_head_addr elf =
    3 ∷ ph_head_addr ∷ 4 ∷ elf.ph_entry_size ∷ 5 ∷ elf.ph_count ∷ 6 ∷ 4096 ∷ 7 ∷ 0 ∷ 9
    ∷ elf.entry_point ∷ 0 ∷ 0 ∷ []

pub record UserStack : Type 0 where
  pub user_sp : ℕ
  pub argv_base : ℕ
  pub envp_base : ℕ
  pub auxv_base : ℕ
  pub memory : Memory

-- From the strings to the number of arguments
unfoldable pub lay_out : ℕ → List (List ℕ) → List (List ℕ) → List ℕ → ℕ → Memory → Option UserStack
unfolding push_strings push_words
lay_out offset arguments environments aux user_stack_top memory = do
  user_sp ← checked_sub user_stack_top 8
  (env_sp, envp, memory1) ← push_strings offset environments user_sp memory
  (arg_sp, argv, memory2) ← push_strings offset arguments env_sp memory1
  (auxv_base, memory3) ← push_words offset aux (arg_sp - arg_sp % 16) memory2
  (envp_base, memory4) ← push_words offset (envp ++ 0 ∷ []) auxv_base memory3
  (argv_base, memory5) ← push_words offset (argv ++ 0 ∷ []) envp_base memory4
  (user_sp', memory6) ← push_words offset (length arguments ∷ []) argv_base memory5
  some (record {
    user_sp = user_sp';
    argv_base = argv_base;
    envp_base = envp_base;
    auxv_base = auxv_base;
    memory = memory6;
  })

unfoldable pub alloc_user_stack :
    ℕ
    → List (List ℕ)
    → List (List ℕ)
    → ElfHeader
    → List ProgramHeader
    → ℕ
    → Memory
    → Option UserStack
unfolding lay_out auxv ph_head
alloc_user_stack offset arguments environments elf headers user_stack_top memory = do
  ph_head_addr ← ph_head elf.ph_offset headers
  lay_out offset arguments environments (auxv ph_head_addr elf) user_stack_top memory
