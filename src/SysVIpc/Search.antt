-- ===== src/SysVIpc/Search.antt =====
-- What the search for a key or a free slot finds.
use xyzterm.Common.{
  ℕ, zero, suc, ◌+◌, ◌<◌, ◌≡◌, refl, ◌⊎◌, inl, inr, List, [], ◌∷◌, Option, none, some, Bool, true,
  false, ◌&&◌, arith, length, get_elem?, Bool-cases,
}
use xyzterm.SysVIpc.{Slot}
use xyzterm.SysVIpc.Ids.{find_slot, key_matches, first_unused}

module _ {A : Type 0} (slot : A → Slot) where
  -- A hit is in use and has the key; its index counts from where the search began.
  pub find_slot_found :
      (word : ℕ) (objects : List A) (i : ℕ) (u : Option ℕ)
      → (find_slot slot word objects i u).found ≡ true
      → (k : ℕ) × (a : A) × ((find_slot slot word objects i u).index ≡ i + k)
        × (get_elem? objects k ≡ some a)
        × ((slot a).valid ≡ true)
        × (key_matches word (slot a) ≡ true)
  unfolding find_slot
  find_slot_found word [] i u h = absurd (cc)
  find_slot_found word (x ∷ xs) i u h =
      elim (Bool-cases ((slot x).valid && key_matches word (slot x))) [
        | inl hit ↦ (zero, x, rw hit (omega arith), refl, ground arith, ground arith)
        | inr miss ↦
            let (k, a, at, got, v, m) =
              find_slot_found word xs (suc i) (first_unused u (slot x).valid i) (rw miss at h) in
            (suc k, a, rw miss (omega (arith, at)), got, v, m)
      ]

  -- A free slot on the way is the one handed in, or an element of the array.
  pub find_slot_unused :
      (word : ℕ) (objects : List A) (i : ℕ) (u : Option ℕ) (j : ℕ)
      → (find_slot slot word objects i u).unused_slot ≡ some j
      → (u ≡ some j) ⊎ ((k : ℕ) × (j ≡ i + k) × (k < length objects))
  unfolding find_slot
  find_slot_unused word [] i u j h = inl h
  find_slot_unused word (x ∷ xs) i u j h =
      elim (Bool-cases ((slot x).valid && key_matches word (slot x))) [
        | inl hit ↦ inl (rw hit at h)
        | inr miss ↦
            later u (slot x).valid
              (find_slot_unused word xs (suc i) (first_unused u (slot x).valid i) j (rw miss at h))
      ]
    where
      later :
          (u : Option ℕ) (v : Bool)
          → (first_unused u v i ≡ some j) ⊎ ((k : ℕ) × (j ≡ suc i + k) × (k < length xs))
          → (u ≡ some j) ⊎ ((k : ℕ) × (j ≡ i + k) × (k < suc (length xs)))
      later u v (inr (k, e, l)) = inr (suc k, omega arith, omega arith)
      later none false (inl e) = inr (zero, ground arith, omega arith)
      later none true (inl e) = inl e
      later (some m) v (inl e) = inl e
