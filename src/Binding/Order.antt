-- ===== src/Binding/Order.antt =====
-- insort_binding of path/binding.c: a list of bindings stays sorted, what is nested deeper first.
use xyzterm.Common.{
  ℕ, zero, suc, ◌≡◌, refl, ap, sym, subst, ◌∙◌, ◌≢◌, ◌⊎◌, inl, inr, List, [], ◌∷◌, some, true, ◌==◌,
  get_elem?, drop, Bool-cases,
}
use xyzterm.Path.{Bytes, Comparison, compare_paths, is_within}
use xyzterm.Path.Nesting.{IsCanonical, flip, canonical_eq, canonical_flip, canonical_trans}
use xyzterm.Binding.{Binding, Side, ref_of, insert_after, remove_address}

abbrev pub AreCanonical : Side → List Binding → Type 0
AreCanonical side [] = Unit {0}
AreCanonical side (b ∷ l) = IsCanonical (ref_of side b) × AreCanonical side l

-- No path of the list is strictly below `p`.
abbrev pub NoneBelow : Side → Bytes → List Binding → Type 0
NoneBelow side p [] = Unit {0}
NoneBelow side p (b ∷ l) =
    (compare_paths p (ref_of side b) ≢ Comparison.path1_is_prefix) × NoneBelow side p l

-- No binding is followed by one strictly below it.
abbrev pub AreSorted : Side → List Binding → Type 0
AreSorted side [] = Unit {0}
AreSorted side (b ∷ l) = NoneBelow side (ref_of side b) l × AreSorted side l

-- The new path `p` is at or above `q`, so that it may stand behind it.
abbrev pub Behind : Bytes → Bytes → Type 0
Behind p q = is_within (compare_paths p q) ≡ true

pub within_cases :
    (c : Comparison)
    → is_within c ≡ true
    → (c ≡ Comparison.paths_are_equal) ⊎ (c ≡ Comparison.path1_is_prefix)
within_cases Comparison.paths_are_equal h = inl refl
within_cases Comparison.path1_is_prefix h = inr refl
within_cases Comparison.path2_is_prefix h = absurd (cc)
within_cases Comparison.paths_are_not_comparable h = absurd (cc)

-- What is above a path that lies above another is strictly above that one.
pub above-Behind :
    {x p q : Bytes}
    → IsCanonical x
    → IsCanonical p
    → IsCanonical q
    → compare_paths x p ≡ Comparison.path1_is_prefix
    → Behind p q
    → compare_paths x q ≡ Comparison.path1_is_prefix
above-Behind {x} {p} {q} cx cp cq h k = elim (within_cases (compare_paths p q) k) [
  | inl e ↦ ap (compare_paths x) (sym (canonical_eq cp cq e)) ∙ h
  | inr e ↦ canonical_trans cx cp cq h e
]

pub Behind-not_below :
    {p q : Bytes}
    → IsCanonical p
    → IsCanonical q
    → Behind p q
    → compare_paths q p ≢ Comparison.path1_is_prefix
Behind-not_below {p} {q} cp cq k e =
    let f : compare_paths q p ≡ flip (compare_paths p q) = canonical_flip cp cq in
    elim (within_cases (compare_paths p q) k) [
      | inl i ↦
          let g : flip (compare_paths p q) ≡ Comparison.paths_are_equal = ap flip i in absurd (cc)
      | inr i ↦
          let g : flip (compare_paths p q) ≡ Comparison.path2_is_prefix = ap flip i in absurd (cc)
    ]

-- A member of the list is not strictly below what none of it is below.
pub NoneBelow-elem :
    (side : Side) (p : Bytes) (l : List Binding) (i : ℕ) (c : Binding)
    → NoneBelow side p l
    → get_elem? l i ≡ some c
    → compare_paths p (ref_of side c) ≢ Comparison.path1_is_prefix
NoneBelow-elem side p [] i c h e = absurd (cc)
NoneBelow-elem side p (b ∷ l) zero c h e =
    let eq : b ≡ c = cc in λ q. h.0 (ap (λ t. compare_paths p (ref_of side t)) eq ∙ q)
NoneBelow-elem side p (b ∷ l) (suc i) c h e = NoneBelow-elem side p l i c h.1 e

pub NoneBelow-insert :
    (side : Side) (p : Bytes) (l : List Binding) (i : ℕ) (b : Binding)
    → NoneBelow side p l
    → compare_paths p (ref_of side b) ≢ Comparison.path1_is_prefix
    → NoneBelow side p (insert_after i b l)
NoneBelow-insert side p [] i b h n = (n, tt)
NoneBelow-insert side p (c ∷ l) zero b h n = (h.0, (n, h.1))
NoneBelow-insert side p (c ∷ l) (suc i) b h n = (h.0, NoneBelow-insert side p l i b h.1 n)

pub AreCanonical-elem :
    (side : Side) (l : List Binding) (i : ℕ) (c : Binding)
    → AreCanonical side l
    → get_elem? l i ≡ some c
    → IsCanonical (ref_of side c)
AreCanonical-elem side [] i c h e = absurd (cc)
AreCanonical-elem side (b ∷ l) zero c h e =
    let eq : b ≡ c = cc in subst (λ t. IsCanonical (ref_of side t)) eq h.0
AreCanonical-elem side (b ∷ l) (suc i) c h e = AreCanonical-elem side l i c h.1 e

-- Insertion behind a binding at or below the new one, with none below it further on.
pub insert_after-AreSorted :
    (side : Side) (b : Binding) (l : List Binding) (i : ℕ) (c : Binding)
    → IsCanonical (ref_of side b)
    → AreCanonical side l
    → AreSorted side l
    → get_elem? l i ≡ some c
    → Behind (ref_of side b) (ref_of side c)
    → NoneBelow side (ref_of side b) (drop (suc i) l)
    → AreSorted side (insert_after i b l)
insert_after-AreSorted side b [] i c cb cl sl e k n = absurd (cc)
insert_after-AreSorted side b (d ∷ l) zero c cb cl sl e k n =
    let eq : d ≡ c = cc in
    let k' : Behind (ref_of side b) (ref_of side d) =
      ap (λ t. is_within (compare_paths (ref_of side b) (ref_of side t))) eq ∙ k in
    ((Behind-not_below cb cl.0 k', sl.0), (n, sl.1))
insert_after-AreSorted side b (d ∷ l) (suc i) c cb cl sl e k n =
    let cc' : IsCanonical (ref_of side c) = AreCanonical-elem side l i c cl.1 e in
    let far = NoneBelow-elem side (ref_of side d) l i c sl.0 e in
    (
      NoneBelow-insert side (ref_of side d) l i b sl.0 (λ q. far (above-Behind cl.0 cb cc' q k)),
      insert_after-AreSorted side b l i c cb cl.1 sl.1 e k n,
    )

pub NoneBelow-remove :
    (side : Side) (p : Bytes) (a : ℕ) (l : List Binding)
    → NoneBelow side p l
    → NoneBelow side p (remove_address a l)
NoneBelow-remove side p a [] h = tt
NoneBelow-remove side p a (b ∷ l) h =
    let ih = NoneBelow-remove side p a l h.1 in
    elim (Bool-cases (b.address == a)) [ inl e ↦ rw (e) ih | inr e ↦ rw (e) (h.0, ih) ]

pub remove_address-AreSorted :
    (side : Side) (a : ℕ) (l : List Binding)
    → AreSorted side l
    → AreSorted side (remove_address a l)
remove_address-AreSorted side a [] h = tt
remove_address-AreSorted side a (b ∷ l) h =
    let ih = remove_address-AreSorted side a l h.1 in
    elim (Bool-cases (b.address == a)) [
      | inl e ↦ rw (e) ih
      | inr e ↦ rw (e) (NoneBelow-remove side (ref_of side b) a l h.0, ih)
    ]
