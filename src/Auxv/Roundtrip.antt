-- ===== src/Auxv/Roundtrip.antt =====
-- Vectors that push_elf_aux_vectors of execve/auxv.c wrote are what fetch_elf_aux_vectors reads.
use xyzterm.Common.{
  inl, inr, Bool-cases, ℕ, suc, ◌+◌, ◌^◌, ◌<◌, ◌≤◌, ◌≡◌, refl, ap, sym, ◌∙◌, ◌≢◌, List, [], ◌∷◌,
  ◌++◌, some, true, false, ◌==◌, ok, ◌>>=◌, arith, length, append-nil, append_assoc,
}
use xyzterm.Auxv.{
  ElfAuxVector, at_null, as_word, Memory, peek_word, written, poke_word, next_word,
  add_elf_aux_vector, fetch_loop, fetch_elf_aux_vectors, push_pair, push_elf_aux_vectors,
}

-- The address space has room for the vectors and the sentinel from `address` on.
abbrev pub Room : ℕ → ℕ → List ElfAuxVector → Type 0
Room w address [] = address + w + w ≤ 2 ^ 64
Room w address (v ∷ vectors) = (address + w + w < 2 ^ 64) × Room w (address + w + w) vectors

-- Their words can be accessed.
abbrev pub IsMapped : ℕ → ℕ → List ElfAuxVector → Memory → Type 0
IsMapped w address [] memory =
    ((x : ℕ) × (memory address ≡ some x)) × ((x : ℕ) × (memory (address + w) ≡ some x))
IsMapped w address (v ∷ vectors) memory =
    ((x : ℕ) × (memory address ≡ some x))
    × ((x : ℕ) × (memory (address + w) ≡ some x))
    × IsMapped w (address + w + w) vectors memory

-- A number is a word of the tracee.
abbrev pub FitsWord : ℕ → ℕ → Type 0
FitsWord w x = (x < 2 ^ 64) × (w ≡ 4 → x < 2 ^ 32)

-- Their types and values are words, and none of them is a sentinel.
abbrev pub HasTypes : ℕ → List ElfAuxVector → Type 0
HasTypes w [] = Unit {0}
HasTypes w (v ∷ vectors) =
    (v.type ≢ at_null) × FitsWord w v.type × FitsWord w v.value × HasTypes w vectors

as_word-FitsWord : (w x : ℕ) → FitsWord w x → as_word w x ≡ x
as_word-FitsWord w x h = elim (Bool-cases (w == 4)) [
  | inl y ↦ let four : w ≡ 4 = ground arith in let lt = h.1 four in rw (y) (omega (arith, lt))
  | inr n ↦ let lt = h.0 in rw (n) (omega (arith, lt))
]

zero-FitsWord : (w : ℕ) → FitsWord w 0
zero-FitsWord w = (omega arith, λ e. omega arith)

next_word_lem : (w a : ℕ) → a + w < 2 ^ 64 → next_word w a ≡ a + w
next_word_lem w a h = omega arith

poke_word-ok :
    (w : ℕ) (m : Memory) (a x y : ℕ)
    → FitsWord w x
    → m a ≡ some y
    → poke_word w m a x ≡ ok (written m a x)
poke_word-ok w m a x y h e =
    rw (e, poke_word) (ap (λ z. ok (written m a z)) (as_word-FitsWord w x h))

written_self : (m : Memory) (a x : ℕ) → written m a x a ≡ some x
written_self m a x = let e : (a == a) ≡ true = ground arith in rw (e) refl

written_other : (m : Memory) (a x b : ℕ) → b ≢ a → written m a x b ≡ m b
written_other m a x b h = let e : (b == a) ≡ false = ground arith in rw (e) refl

-- A pair of words.
abbrev paired : ℕ → Memory → ℕ → ℕ → ℕ → Memory
paired w m a t x = written (written m a t) (a + w) x

push_pair-ok :
    (w : ℕ) (m : Memory) (a t x y z : ℕ)
    → 0 < w
    → a + w < 2 ^ 64
    → FitsWord w t
    → FitsWord w x
    → m a ≡ some y
    → m (a + w) ≡ some z
    → push_pair w m a t x ≡ ok (paired w m a t x)
push_pair-ok w m a t x y z pos room ft fx e f =
    let other : written m a t (a + w) ≡ some z = written_other m a t (a + w) (omega arith) ∙ f in
    let nw : next_word w a ≡ a + w = next_word_lem w a room in
    ap (λ r. r >>= (λ m'. poke_word w m' (next_word w a) x)) (poke_word-ok w m a t y ft e)
    ∙ ap (λ b. poke_word w (written m a t) b x) nw
    ∙ poke_word-ok w (written m a t) (a + w) x z fx other

paired-above : (w : ℕ) (m : Memory) (a t x b : ℕ) → 0 < w → a + w < b → paired w m a t x b ≡ m b
paired-above w m a t x b pos h =
    written_other (written m a t) (a + w) x b (omega arith) ∙ written_other m a t b (omega arith)

paired-below : (w : ℕ) (m : Memory) (a t x b : ℕ) → 0 < w → b < a → paired w m a t x b ≡ m b
paired-below w m a t x b pos h =
    written_other (written m a t) (a + w) x b (omega arith) ∙ written_other m a t b (omega arith)

paired-first : (w : ℕ) (m : Memory) (a t x : ℕ) → 0 < w → paired w m a t x a ≡ some t
paired-first w m a t x pos =
    written_other (written m a t) (a + w) x a (omega arith) ∙ written_self m a t

IsMapped-above :
    (w : ℕ) (m : Memory) (a t x b : ℕ) (vectors : List ElfAuxVector)
    → 0 < w
    → a + w < b
    → IsMapped w b vectors m
    → IsMapped w b vectors (paired w m a t x)
IsMapped-above w m a t x b [] pos h i = (
  (i.0.0, paired-above w m a t x b pos h ∙ i.0.1),
  (i.1.0, paired-above w m a t x (b + w) pos (omega arith) ∙ i.1.1),
)
IsMapped-above w m a t x b (v ∷ vectors) pos h i = (
  (i.0.0, paired-above w m a t x b pos h ∙ i.0.1),
  (i.1.0, paired-above w m a t x (b + w) pos (omega arith) ∙ i.1.1),
  IsMapped-above w m a t x (b + w + w) vectors pos (omega arith) i.2,
)

fetch_stop :
    (f w : ℕ) (m : Memory) (a : ℕ) (read : List ElfAuxVector)
    → m a ≡ some at_null
    → fetch_loop (suc f) w m a read ≡ some (ok read)
fetch_stop f w m a read e =
    let z = as_word-FitsWord w 0 (zero-FitsWord w) in rw (e, z, fetch_loop, peek_word) refl

fetch_step :
    (f w : ℕ) (m : Memory) (a t x : ℕ) (read : List ElfAuxVector)
    → m a ≡ some t
    → t ≢ at_null
    → FitsWord w t
    → FitsWord w x
    → m (a + w) ≡ some x
    → a + w + w < 2 ^ 64
    → fetch_loop (suc f) w m a read ≡ fetch_loop f w m (a + w + w) (add_elf_aux_vector read t x)
fetch_step f w m a t x read e n ft fx g room =
    let wt = as_word-FitsWord w t ft in
    let wx = as_word-FitsWord w x fx in
    let z : (t == at_null) ≡ false = ground arith in
    let nw : next_word w a ≡ a + w = next_word_lem w a (omega arith) in
    let nw' : next_word w (a + w) ≡ a + w + w = next_word_lem w (a + w) room in
    let g' : m (next_word w a) ≡ some x = ap m nw ∙ g in
    rw (e, wt, z, g', wx, wt, fetch_loop, peek_word)
      (ap (λ b. fetch_loop f w m b (add_elf_aux_vector read t x)) (ap (next_word w) nw ∙ nw'))

push_step :
    (w : ℕ) (m m' : Memory) (v : ElfAuxVector) (vectors : List ElfAuxVector) (a : ℕ)
    → v.type ≢ at_null
    → push_pair w m a v.type v.value ≡ ok m'
    → a + w + w < 2 ^ 64
    → push_elf_aux_vectors w m (v ∷ vectors) a ≡ push_elf_aux_vectors w m' vectors (a + w + w)
push_step w m m' v vectors a n e room =
    let z : (v.type == at_null) ≡ false = ground arith in
    let nw : next_word w a ≡ a + w = next_word_lem w a (omega arith) in
    let nw' : next_word w (a + w) ≡ a + w + w = next_word_lem w (a + w) room in
    rw (z, push_elf_aux_vectors)
      (ap (λ r. r >>= (λ m''. push_elf_aux_vectors w m'' vectors (next_word w (next_word w a)))) e
        ∙ ap (λ b. push_elf_aux_vectors w m' vectors b) (ap (next_word w) nw ∙ nw'))

-- What a write of vectors leaves: a memory with the words below as they were, from which they can be
-- read.
record Pushed (w : ℕ) (m : Memory) (vectors : List ElfAuxVector) (a : ℕ) : Type 0 where
  memory : Memory
  pushes : push_elf_aux_vectors w m vectors a ≡ ok memory
  below : (b : ℕ) → b < a → memory b ≡ m b
  reads :
      (read : List ElfAuxVector)
      → fetch_loop (suc (length vectors)) w memory a read ≡ some (ok (read ++ vectors))

pushed :
    (w : ℕ) (m : Memory) (vectors : List ElfAuxVector) (a : ℕ)
    → 0 < w
    → HasTypes w vectors
    → Room w a vectors
    → IsMapped w a vectors m
    → Pushed w m vectors a
pushed w m [] a pos types room i = record {
  memory = paired w m a at_null 0;
  pushes =
      push_pair-ok w m a at_null 0 i.0.0 i.1.0 pos (omega arith) (zero-FitsWord w) (zero-FitsWord w)
        i.0.1 i.1.1;
  below = λ b h. paired-below w m a at_null 0 b pos h;
  reads = λ read.
      let e : paired w m a at_null 0 a ≡ some at_null = paired-first w m a at_null 0 pos in
      fetch_stop 0 w (paired w m a at_null 0) a read e
      ∙ ap (λ t. some (ok t)) (sym (append-nil read));
}
pushed w m (v ∷ vectors) a pos types room i =
    let m' = paired w m a v.type v.value in
    let above = IsMapped-above w m a v.type v.value (a + w + w) vectors pos (omega arith) i.2 in
    let rest = pushed w m' vectors (a + w + w) pos types.3 room.1 above in
    let first = rest.below a (omega arith) ∙ paired-first w m a v.type v.value pos in
    let second =
      rest.below (a + w) (omega arith) ∙ written_self (written m a v.type) (a + w) v.value in
    record {
      memory = rest.memory;
      pushes =
          push_step w m m' v vectors a types.0
            (push_pair-ok w m a v.type v.value i.0.0 i.1.0 pos (omega arith) types.1 types.2 i.0.1
              i.1.1)
            room.0
          ∙ rest.pushes;
      below = λ b h. rest.below b (omega arith) ∙ paired-below w m a v.type v.value b pos h;
      reads = λ read.
          fetch_step (suc (length vectors)) w rest.memory a v.type v.value read first types.0
            types.1 types.2 second room.0
          ∙ rest.reads (add_elf_aux_vector read v.type v.value)
          ∙ ap (λ t. some (ok t)) (append_assoc read (v ∷ []) vectors);
    }

-- Vectors of words of the tracee, none of which is a sentinel, can be pushed where their words are
-- accessible and do not wrap round the address space, and fetching them from there, with fuel for one
-- round more than there are vectors, gives them back.
pub push-fetch :
    (w : ℕ) (m : Memory) (vectors : List ElfAuxVector) (a : ℕ)
    → 0 < w
    → HasTypes w vectors
    → Room w a vectors
    → IsMapped w a vectors m
    → (memory : Memory) × (push_elf_aux_vectors w m vectors a ≡ ok memory)
      × (fetch_elf_aux_vectors (suc (length vectors)) w memory a ≡ some (ok vectors))
unfolding fetch_elf_aux_vectors
push-fetch w m vectors a pos types room i =
    let p = pushed w m vectors a pos types room i in (p.memory, p.pushes, p.reads [])
