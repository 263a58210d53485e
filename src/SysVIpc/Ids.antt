-- ===== src/SysVIpc/Ids.antt =====
-- Identifiers of IPC objects: the lookup macro LOOKUP_IPC_OBJECT, IPC_OBJECT_ID, and the search for
-- a key or a free slot that msgget(2) and semget(2) begin with. They are the same for the arrays of
-- queues and of semaphores, and are written over the fields that these share.
use xyzterm.Common.{
  ℕ, suc, ◌+◌, ◌-◌, ◌*◌, ◌/◌, ◌%◌, ◌^◌, ◌<◌, ◌≡◌, List, [], ◌∷◌, Option, none, some, Bool, true,
  false, not, ◌&&◌, ◌||◌, arith, ltb, ◌==◌, if◌then◌else◌, bit_and, bit_or, length, get_elem?,
  bit_or_disjoint, bit_and_fff, bit_and_ffff, Option-cases, inl, inr, get_elem?-lt, ◌≢◌,
}
use xyzterm.Common.Int.{ℤ, pos, negsuc, signed16}
use xyzterm.SysVIpc.{Slot}

-- A test of a bit of a flag word.
abbrev pub has_flag : ℕ → ℕ → Bool
has_flag word flag = not (bit_and word flag == 0)

abbrev pub ipc_creat : ℕ
ipc_creat = 0x200

abbrev pub ipc_excl : ℕ
ipc_excl = 0x400

abbrev pub ipc_nowait : ℕ
ipc_nowait = 0x800

-- (index + 1) | (generation << 12), as an `int`. The shift of a negative generation is the
-- multiplication that compilers make of it, and `x | -(n + 1)` is `-((n & ~x) + 1)`.
unfoldable pub object_id : ℕ → ℕ → ℤ
object_id index generation = elim (signed16 generation) [
  | pos g ↦ pos (bit_or (index + 1) (g * 2 ^ 12))
  | negsuc g ↦ let n = (g + 1) * 2 ^ 12 - 1 in negsuc (n - bit_and n (index + 1))
]

-- The generation of an object equals the field of an identifier; a negative one never does.
abbrev pub same_generation : ℕ → ℕ → Bool
same_generation generation field = elim (signed16 generation) [
  | pos g ↦ g == field
  | negsuc g ↦ false
]

module _ {A : Type 0} (slot : A → Slot) where
  checked : Option A → ℕ → ℕ → Option (ℕ × A)
  checked none index field = none
  checked (some object) index field =
      if not (slot object).valid || not (same_generation (slot object).generation field)
      then none
      else some (index, object)

  -- `none` is a return of -EINVAL. The identifier is the `int` with the word's low bits.
  unfoldable pub lookup_ipc_object : List A → ℕ → Option (ℕ × A)
  unfolding checked
  lookup_ipc_object objects word =
      let id = word % 2 ^ 32 in
      let object_index = bit_and id 0xfff in
      if object_index == 0 || ltb (length objects) object_index
      then none
      else checked (get_elem? objects (object_index - 1)) (object_index - 1)
          (bit_and (id / 2 ^ 12) 0xffff)

-- Where the search stopped, and the first slot on the way that was not in use.
pub record Search : Type 0 where
  pub found : Bool
  pub index : ℕ
  pub unused_slot : Option ℕ

abbrev pub first_unused : Option ℕ → Bool → ℕ → Option ℕ
first_unused none false i = some i
first_unused u valid i = u

-- The key matches: it is not IPC_PRIVATE, and its low 32 bits are the slot's key.
abbrev pub key_matches : ℕ → Slot → Bool
key_matches word s = not (word == 0) && s.key == word % 2 ^ 32

module _ {A : Type 0} (slot : A → Slot) where
  unfoldable pub find_slot : ℕ → List A → ℕ → Option ℕ → Search
  find_slot word [] i u = record { found = false; index = i; unused_slot = u }
  find_slot word (a ∷ objects) i u =
      let rest = find_slot word objects (suc i) (first_unused u (slot a).valid i) in
      if (slot a).valid && key_matches word (slot a)
      then record { found = true; index = i; unused_slot = u }
      else rest

same_generation-eq : (g field : ℕ) → same_generation g field ≡ true → g ≡ field
same_generation-eq g field h = ground arith

module _ {A : Type 0} (slot : A → Slot) where
  -- What a lookup finds is in use, stands at the index that the word holds, and has the generation
  -- that the word holds.
  pub lookup_found :
      (objects : List A) (word : ℕ) {index : ℕ} {a : A}
      → lookup_ipc_object slot objects word ≡ some (index, a)
      → (get_elem? objects index ≡ some a)
        × ((slot a).valid ≡ true)
        × (bit_and (word % 2 ^ 32) 0xfff - 1 ≡ index)
        × ((slot a).generation ≡ bit_and (word % 2 ^ 32 / 2 ^ 12) 0xffff)
  unfolding lookup_ipc_object
  lookup_found objects word {index} {a} e =
      let at = bit_and (word % 2 ^ 32) 0xfff - 1 in
      let field = bit_and (word % 2 ^ 32 / 2 ^ 12) 0xffff in
      elim (Option-cases (get_elem? objects at)) [
        | inl m ↦ absurd (ground arith)
        | inr (x, m) ↦ ground (arith, same_generation-eq (slot x).generation field)
      ]

  pub lookup-get_elem? :
      (objects : List A) (word : ℕ) {index : ℕ} {a : A}
      → lookup_ipc_object slot objects word ≡ some (index, a)
      → (get_elem? objects index ≡ some a) × ((slot a).valid ≡ true)
  lookup-get_elem? objects word e = let f = lookup_found objects word e in (f.0, f.1)

-- An identifier names its object: the encoding of an index and a generation is undone by the lookup.
module _ {A : Type 0} (slot : A → Slot) where
  pub lookup-object_id :
      (objects : List A) (index w : ℕ) {a : A}
      → get_elem? objects index ≡ some a
      → (slot a).valid ≡ true
      → (slot a).generation < 2 ^ 15
      → index + 1 < 2 ^ 12
      → object_id index (slot a).generation ≡ pos w
      → lookup_ipc_object slot objects w ≡ some (index, a)
  unfolding lookup_ipc_object object_id
  lookup-object_id objects index w {a} at v young small e =
      let g = (slot a).generation in
      let split : bit_or (index + 1) (g * 2 ^ 12) ≡ index + 1 + g * 2 ^ 12 =
        bit_or_disjoint 12 (index + 1) g small in
      let wide : w ≡ index + 1 + g * 2 ^ 12 = ground (arith, split) in
      let low : bit_and (w % 2 ^ 32) 0xfff ≡ index + 1 = omega (arith, bit_and_fff (w % 2 ^ 32)) in
      let high : bit_and (w % 2 ^ 32 / 2 ^ 12) 0xffff ≡ g =
        omega (arith, bit_and_ffff (w % 2 ^ 32 / 2 ^ 12)) in
      let back : index + 1 - 1 ≡ index = omega arith in
      let inside = get_elem?-lt objects index at in
      rw (low, high, back, at) (ground (arith, inside))

  -- An identifier that names an object names none once the object's generation is another.
  pub lookup_stale :
      (objects objects' : List A) (word : ℕ) {index : ℕ} {a b : A}
      → lookup_ipc_object slot objects word ≡ some (index, a)
      → get_elem? objects' index ≡ some b
      → (slot b).generation ≢ (slot a).generation
      → lookup_ipc_object slot objects' word ≡ none
  unfolding lookup_ipc_object
  lookup_stale objects objects' word {index} {a} {b} e at moved =
      let f = lookup_found slot objects word e in
      let field = bit_and (word % 2 ^ 32 / 2 ^ 12) 0xffff in
      rw (f.2, at) (ground (arith, f.3, same_generation-eq (slot b).generation field))

  -- An identifier that names an object in one array names that in the same slot of another.
  pub lookup_kept :
      (objects objects' : List A) (word : ℕ) {index : ℕ} {a b : A}
      → lookup_ipc_object slot objects' word ≡ some (index, b)
      → length objects ≡ length objects'
      → get_elem? objects index ≡ some a
      → slot a ≡ slot b
      → lookup_ipc_object slot objects word ≡ some (index, a)
  unfolding lookup_ipc_object
  lookup_kept objects objects' word {index} {a} {b} e long at same =
      let f = lookup_found slot objects' word e in
      let e' = rw (f.2, f.0, ← same, ← long) at e in rw (f.2, at) (ground (arith))
