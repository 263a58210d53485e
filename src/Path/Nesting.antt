-- ===== src/Path/Nesting.antt =====
-- How canonical paths lie in one another, by compare_paths: the laws that the lists of bindings rest on.
use xyzterm.Common.{
  ◌≡◌, refl, ap, sym, ◌∙◌, ◌≢◌, List, [], ◌∷◌, Bool, true, false, if◌then◌else◌, inl, inr,
  Bool-cases, arith,
}
use xyzterm.Path.{Bytes, Comparison, is_within, compare_paths}
use xyzterm.Path.Names.{AreNames, render}
use xyzterm.Path.Compare.{same_name, compare_names, compare_paths-render}

abbrev pub IsCanonical : Bytes → Type 0
IsCanonical p = (ns : List Bytes) × AreNames ns × (p ≡ render ns)

-- The comparison the other way round.
abbrev pub flip : Comparison → Comparison
flip Comparison.paths_are_equal = Comparison.paths_are_equal
flip Comparison.path1_is_prefix = Comparison.path2_is_prefix
flip Comparison.path2_is_prefix = Comparison.path1_is_prefix
flip Comparison.paths_are_not_comparable = Comparison.paths_are_not_comparable

same_name→≡ : (n m : Bytes) → same_name n m ≡ true → n ≡ m
same_name→≡ [] [] h = refl
same_name→≡ [] (y ∷ m) h = absurd (cc)
same_name→≡ (x ∷ n) [] h = absurd (cc)
same_name→≡ (x ∷ n) (y ∷ m) h =
    let e : x ≡ y = ground arith in
    let rest : same_name n m ≡ true = ground arith in rw (e, same_name→≡ n m rest) refl

same_name_refl : (n : Bytes) → same_name n n ≡ true
same_name_refl [] = refl
same_name_refl (x ∷ n) = let ih = same_name_refl n in ground arith

same_name_comm : (n m : Bytes) → same_name n m ≡ same_name m n
same_name_comm [] [] = refl
same_name_comm [] (y ∷ m) = refl
same_name_comm (x ∷ n) [] = refl
same_name_comm (x ∷ n) (y ∷ m) = let ih = same_name_comm n m in ground arith

compare_names-flip : (ns ms : List Bytes) → compare_names ms ns ≡ flip (compare_names ns ms)
compare_names-flip [] [] = refl
compare_names-flip [] (m ∷ ms) = refl
compare_names-flip (n ∷ ns) [] = refl
compare_names-flip (n ∷ ns) (m ∷ ms) =
    let ih = compare_names-flip ns ms in
    elim (Bool-cases (same_name n m)) [
      | inl e ↦ rw (sym (same_name_comm n m) ∙ e, e) ih
      | inr e ↦ rw (sym (same_name_comm n m) ∙ e, e) refl
    ]

-- What a comparison of nonempty lists says unless they are not comparable.
names_inv :
    (n m : Bytes) (ns ms : List Bytes) (c : Comparison)
    → compare_names (n ∷ ns) (m ∷ ms) ≡ c
    → c ≢ Comparison.paths_are_not_comparable
    → (n ≡ m) × (compare_names ns ms ≡ c)
names_inv n m ns ms c h ne =
    let branch : Bool → Comparison =
      λ b. if b then compare_names ns ms else Comparison.paths_are_not_comparable in
    elim (Bool-cases (same_name n m)) [
      | inl e ↦ (same_name→≡ n m e, sym (ap branch e) ∙ h)
      | inr e ↦ absurd (ne (sym (sym (ap branch e) ∙ h)))
    ]

pub names_same :
    (n : Bytes) (ns ms : List Bytes) → compare_names (n ∷ ns) (n ∷ ms) ≡ compare_names ns ms
names_same n ns ms = rw (same_name_refl n) refl

names_eq : (ns ms : List Bytes) → compare_names ns ms ≡ Comparison.paths_are_equal → ns ≡ ms
names_eq [] [] h = refl
names_eq [] (m ∷ ms) h = absurd (cc)
names_eq (n ∷ ns) [] h = absurd (cc)
names_eq (n ∷ ns) (m ∷ ms) h =
    let i = names_inv n m ns ms Comparison.paths_are_equal h (λ e. absurd (cc)) in
    rw (i.0, names_eq ns ms i.1) refl

names_trans :
    (ks bs cs : List Bytes)
    → compare_names ks bs ≡ Comparison.path1_is_prefix
    → compare_names bs cs ≡ Comparison.path1_is_prefix
    → compare_names ks cs ≡ Comparison.path1_is_prefix
names_trans ks [] [] h k = absurd (cc)
names_trans [] [] (c ∷ cs) h k = refl
names_trans (a ∷ ks) [] (c ∷ cs) h k = absurd (cc)
names_trans ks (b ∷ bs) [] h k = absurd (cc)
names_trans [] (b ∷ bs) (c ∷ cs) h k = refl
names_trans (a ∷ ks) (b ∷ bs) (c ∷ cs) h k =
    let i = names_inv a b ks bs Comparison.path1_is_prefix h (λ e. absurd (cc)) in
    let j = names_inv b c bs cs Comparison.path1_is_prefix k (λ e. absurd (cc)) in
    rw (i.0, j.0, names_same c ks cs) (names_trans ks bs cs i.1 j.1)

not_within : (c : Comparison) → is_within c ≡ true → c ≢ Comparison.paths_are_not_comparable
not_within c h e = let k : is_within c ≡ false = ap is_within e in absurd (cc)

-- Two paths above one path are comparable.
names_comparable :
    (ks bs ps : List Bytes)
    → is_within (compare_names ks ps) ≡ true
    → is_within (compare_names bs ps) ≡ true
    → compare_names ks bs ≢ Comparison.paths_are_not_comparable
names_comparable [] [] ps h k e = absurd (cc)
names_comparable [] (b ∷ bs) ps h k e = absurd (cc)
names_comparable (a ∷ ks) [] ps h k e = absurd (cc)
names_comparable (a ∷ ks) (b ∷ bs) [] h k e = absurd (cc)
names_comparable (a ∷ ks) (b ∷ bs) (p ∷ ps) h k e =
    let i =
      names_inv a p ks ps (compare_names (a ∷ ks) (p ∷ ps)) refl
        (not_within (compare_names (a ∷ ks) (p ∷ ps)) h) in
    let j =
      names_inv b p bs ps (compare_names (b ∷ bs) (p ∷ ps)) refl
        (not_within (compare_names (b ∷ bs) (p ∷ ps)) k) in
    names_comparable ks bs ps (ap is_within i.1 ∙ h) (ap is_within j.1 ∙ k)
      (sym (names_same b ks bs) ∙ ap (λ x. compare_names (x ∷ ks) (b ∷ bs)) (j.0 ∙ sym i.0) ∙ e)

module _ {p q : Bytes} (cp : IsCanonical p) (cq : IsCanonical q) where
  canonical_compare : compare_paths p q ≡ compare_names cp.0 cq.0
  canonical_compare = rw (cp.2, cq.2) (compare_paths-render cp.0 cq.0 cp.1 cq.1)

  pub canonical_eq : compare_paths p q ≡ Comparison.paths_are_equal → p ≡ q
  canonical_eq h = cp.2 ∙ ap render (names_eq cp.0 cq.0 (sym canonical_compare ∙ h)) ∙ sym cq.2

module _ {p q : Bytes} (cp : IsCanonical p) (cq : IsCanonical q) where
  pub canonical_flip : compare_paths q p ≡ flip (compare_paths p q)
  canonical_flip =
      canonical_compare cq cp
      ∙ compare_names-flip cp.0 cq.0
      ∙ ap flip (sym (canonical_compare cp cq))

  pub canonical_trans :
      {r : Bytes}
      → IsCanonical r
      → compare_paths p q ≡ Comparison.path1_is_prefix
      → compare_paths q r ≡ Comparison.path1_is_prefix
      → compare_paths p r ≡ Comparison.path1_is_prefix
  canonical_trans cr h k =
      canonical_compare cp cr
      ∙ names_trans cp.0 cq.0 cr.0 (sym (canonical_compare cp cq) ∙ h)
          (sym (canonical_compare cq cr) ∙ k)

  pub canonical_comparable :
      {r : Bytes}
      → IsCanonical r
      → is_within (compare_paths p r) ≡ true
      → is_within (compare_paths q r) ≡ true
      → compare_paths p q ≢ Comparison.paths_are_not_comparable
  canonical_comparable cr h k e =
      names_comparable cp.0 cq.0 cr.0 (ap is_within (sym (canonical_compare cp cr)) ∙ h)
        (ap is_within (sym (canonical_compare cq cr)) ∙ k) (sym (canonical_compare cp cq) ∙ e)

pub names_refl : (ns : List Bytes) → compare_names ns ns ≡ Comparison.paths_are_equal
names_refl [] = refl
names_refl (n ∷ ns) = names_same n ns ns ∙ names_refl ns

pub canonical_refl : {p : Bytes} → IsCanonical p → compare_paths p p ≡ Comparison.paths_are_equal
canonical_refl cp = canonical_compare cp cp ∙ names_refl cp.0
