-- ===== src/Auxv/Tests.antt =====
-- The properties of the auxiliary vectors at a small stack.
use xyzterm.Common.{◌≡◌, refl, List, [], ◌∷◌, some, none, ok, arith, ltb, if◌then◌else◌}
use xyzterm.Auxv.{ElfAuxVector, Memory, push_elf_aux_vectors, fetch_elf_aux_vectors}
use xyzterm.Auxv.Roundtrip.{push-fetch}

-- AT_PAGESZ, 4096.
abbrev one_vector : List ElfAuxVector
one_vector = record { type = 6; value = 4096 } ∷ []

abbrev zeros : Memory
zeros = λ a. if ltb a 1000 then some 0 else none

push-fetch_example :
    (memory : Memory) × (push_elf_aux_vectors 8 zeros one_vector 16 ≡ ok memory)
    × (fetch_elf_aux_vectors 2 8 memory 16 ≡ some (ok one_vector))
push-fetch_example =
    push-fetch 8 zeros one_vector 16 (omega arith)
      (
        λ e. absurd (omega (arith, e)),
        (omega arith, λ e. omega arith),
        (omega arith, λ e. omega arith),
        tt,
      )
      (omega arith, omega arith) ((0, refl), (0, refl), ((0, refl), (0, refl)))

-- One argument and one environment string.
abbrev stack : Memory
stack = λ a.
    if ltb a 40
    then (if ltb a 16
        then some 1
        else if ltb a 24
        then some 0
        else if ltb a 32
        then some 7
        else some 0)
    else none
