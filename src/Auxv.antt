-- ===== src/Auxv.antt =====
-- execve/auxv.c: the ELF auxiliary vectors on the stack of a tracee. The tracee's memory is a map from
-- addresses to words, `none` where an access fails; a word takes `w` bytes, 4 for a tracee of 32 bits and 8
-- otherwise, and those that the code uses do not overlap. Addresses have no tags.
pub mod Roundtrip
pub mod Address
mod Tests
use xyzterm.Common.{
  ℕ, zero, suc, ◌+◌, ◌*◌, ◌%◌, ◌^◌, List, [], ◌∷◌, ◌++◌, Option, none, some, Bool, ◌==◌,
  if◌then◌else◌, Result, ok, err, ◌>>=◌, Errno, efault,
}

pub record ElfAuxVector : Type 0 where
  pub type : ℕ
  pub value : ℕ

abbrev pub at_null : ℕ
at_null = 0

abbrev pub Memory : Type 0
Memory = ℕ → Option ℕ

-- A number as a word of the tracee.
abbrev pub as_word : ℕ → ℕ → ℕ
as_word w x = if w == 4 then x % 2 ^ 32 else x % 2 ^ 64

-- A word is read or `errno` is set.
abbrev pub peek_word : ℕ → Memory → ℕ → Result ℕ
peek_word w memory address = elim (memory address) [ none ↦ err efault | some x ↦ ok (as_word w x) ]

abbrev pub written : Memory → ℕ → ℕ → Memory
written memory address x = λ a. if a == address then some x else memory a

abbrev pub poke_word : ℕ → Memory → ℕ → ℕ → Result Memory
poke_word w memory address x = elim (memory address) [
  | none ↦ err efault
  | some old ↦ ok (written memory address (as_word w x))
]

-- `address += sizeof_word(tracee)`.
abbrev pub next_word : ℕ → ℕ → ℕ
next_word w address = (address + w) % 2 ^ 64

-- The vectors in front of the sentinel. Memory of the tracer does not run out.
abbrev pub add_elf_aux_vector : List ElfAuxVector → ℕ → ℕ → List ElfAuxVector
add_elf_aux_vector vectors type value = vectors ++ (record { type = type; value = value } ∷ [])

-- The loop that skips envp, `none` if the fuel does not last; the address is 0 on an error.
abbrev pub skip_envp : ℕ → ℕ → Memory → ℕ → Option ℕ
skip_envp zero w memory address = none
skip_envp (suc fuel) w memory address = elim (peek_word w memory address) [
  | err e ↦ some 0
  | ok word ↦
      if word == 0
      then some (next_word w address)
      else skip_envp fuel w memory (next_word w address)
]

-- From the stack pointer.
unfoldable pub get_elf_aux_vectors_address : ℕ → ℕ → Memory → ℕ → Option ℕ
get_elf_aux_vectors_address fuel w memory stack_pointer = elim (peek_word w memory stack_pointer) [
  | err e ↦ some 0
  | ok word ↦ skip_envp fuel w memory ((stack_pointer + (1 + word + 1) * w) % 2 ^ 64)
]

-- The loop of fetch_elf_aux_vectors: `none` if the fuel does not last.
abbrev pub fetch_loop : ℕ → ℕ → Memory → ℕ → List ElfAuxVector → Option (Result (List ElfAuxVector))
fetch_loop zero w memory address vectors = none
fetch_loop (suc fuel) w memory address vectors = elim (peek_word w memory address) [
  | err e ↦ some (err e)
  | ok type ↦
      if type == at_null
      then some (ok vectors)
      else elim (peek_word w memory (next_word w address)) [
        | err e ↦ some (err e)
        | ok value ↦
            fetch_loop fuel w memory (next_word w (next_word w address))
              (add_elf_aux_vector vectors type value)
      ]
]

unfoldable pub fetch_elf_aux_vectors : ℕ → ℕ → Memory → ℕ → Option (Result (List ElfAuxVector))
fetch_elf_aux_vectors fuel w memory address = fetch_loop fuel w memory address []

abbrev pub push_pair : ℕ → Memory → ℕ → ℕ → ℕ → Result Memory
push_pair w memory address type value =
    poke_word w memory address type >>= (λ memory'. poke_word w memory' (next_word w address) value)

-- What was written before an error is not kept. A vector of type AT_NULL ends the loop as the sentinel does.
abbrev pub push_elf_aux_vectors : ℕ → Memory → List ElfAuxVector → ℕ → Result Memory
push_elf_aux_vectors w memory [] address = push_pair w memory address at_null 0
push_elf_aux_vectors w memory (v ∷ vectors) address =
    if v.type == at_null
    then push_pair w memory address at_null 0
    else push_pair w memory address v.type v.value
      >>= (λ memory'. push_elf_aux_vectors w memory' vectors (next_word w (next_word w address)))
