-- ===== src/Binding/Deepest.antt =====
-- get_binding and substitute_binding of path/binding.c on sorted lists of canonical paths.
use xyzterm.Common.{
  ℕ, zero, suc, ◌+◌, ◌<◌, ◌≡◌, refl, ap, sym, ◌∙◌, subst, ◌≢◌, inl, inr, List, [], ◌∷◌, ◌++◌, none,
  some, true, false, length, get_elem?, Bool-cases,
}
use xyzterm.Common.Int.{pos}
use xyzterm.Path.{Bytes, path_max, Comparison, compare_paths, is_within}
use xyzterm.Path.Names.{AreNames, render}
use xyzterm.Path.Substitute.{substitute_path_prefix-render}
use xyzterm.Path.Nesting.{IsCanonical, flip, canonical_flip, canonical_comparable, canonical_refl}
use xyzterm.Binding.{
  Binding, Bindings, Side, bindings_of, ref_of, reverse_ref, is_passed_over, find_binding,
  get_binding, substituted_by, substitute_binding,
}
use xyzterm.Binding.Order.{NoneBelow, AreCanonical, AreSorted, AreCanonical-elem, NoneBelow-elem}

find_passed_over :
    (s : Bindings) (side : Side) (path : Bytes) (l : List Binding)
    → is_passed_over s side path ≡ true
    → find_binding s side path l ≡ none
find_passed_over s side path [] h = refl
find_passed_over s side path (b ∷ l) h =
    let ih = find_passed_over s side path l h in
    elim (Bool-cases (is_within (compare_paths (ref_of side b) path))) [
      | inl e ↦ rw (e, h, find_binding) ih
      | inr e ↦ rw (e, find_binding) ih
    ]

find_miss :
    (s : Bindings) (side : Side) (path : Bytes) (b : Binding) (l : List Binding)
    → is_within (compare_paths (ref_of side b) path) ≡ false
    → find_binding s side path (b ∷ l) ≡ find_binding s side path l
find_miss s side path b l e = rw (e, find_binding) refl

find_hit :
    (s : Bindings) (side : Side) (path : Bytes) (b : Binding) (l : List Binding)
    → is_within (compare_paths (ref_of side b) path) ≡ true
    → is_passed_over s side path ≡ false
    → find_binding s side path (b ∷ l) ≡ some b
find_hit s side path b l e h = rw (e, h, find_binding) refl

within_flip :
    (c : Comparison)
    → c ≢ Comparison.path1_is_prefix
    → c ≢ Comparison.paths_are_not_comparable
    → is_within (flip c) ≡ true
within_flip Comparison.paths_are_equal h k = refl
within_flip Comparison.path1_is_prefix h k = absurd (h refl)
within_flip Comparison.path2_is_prefix h k = refl
within_flip Comparison.paths_are_not_comparable h k = absurd (k refl)

-- A binding behind `c` in a sorted list that contains the path contains the path of `c`.
contains_of_nested :
    (side : Side) (path : Bytes) (c : Binding) (l : List Binding) (i : ℕ) (b' : Binding)
    → IsCanonical path
    → IsCanonical (ref_of side c)
    → AreCanonical side l
    → NoneBelow side (ref_of side c) l
    → is_within (compare_paths (ref_of side c) path) ≡ true
    → get_elem? l i ≡ some b'
    → is_within (compare_paths (ref_of side b') path) ≡ true
    → is_within (compare_paths (ref_of side b') (ref_of side c)) ≡ true
contains_of_nested side path c l i b' cp cc' cl n h e k =
    let cb = AreCanonical-elem side l i b' cl e in
    ap is_within (canonical_flip cc' cb)
    ∙ within_flip (compare_paths (ref_of side c) (ref_of side b'))
        (NoneBelow-elem side (ref_of side c) l i b' n e) (canonical_comparable cc' cb cp h k)

first_contains :
    (side : Side) (path : Bytes) (c : Binding) (l : List Binding) (i : ℕ) (b' : Binding)
    → IsCanonical path
    → AreCanonical side (c ∷ l)
    → AreSorted side (c ∷ l)
    → is_within (compare_paths (ref_of side c) path) ≡ true
    → get_elem? (c ∷ l) i ≡ some b'
    → is_within (compare_paths (ref_of side b') path) ≡ true
    → is_within (compare_paths (ref_of side b') (ref_of side c)) ≡ true
first_contains side path c l zero b' cp cl sl h e k =
    let eq : c ≡ b' = cc in
    subst (λ t. is_within (compare_paths (ref_of side t) (ref_of side c)) ≡ true) eq
      (ap is_within (canonical_refl cl.0))
first_contains side path c l (suc i) b' cp cl sl h e k =
    contains_of_nested side path c l i b' cp cl.0 cl.1 sl.0 h e k

-- A member that contains the path is behind one that does not.
elem_behind :
    (side : Side) (path : Bytes) (c : Binding) (l : List Binding) (i : ℕ) (b' : Binding)
    → is_within (compare_paths (ref_of side c) path) ≡ false
    → get_elem? (c ∷ l) i ≡ some b'
    → is_within (compare_paths (ref_of side b') path) ≡ true
    → (j : ℕ) × (get_elem? l j ≡ some b')
elem_behind side path c l zero b' m e k =
    let eq : c ≡ b' = cc in
    let q = ap (λ t. is_within (compare_paths (ref_of side t) path)) eq in absurd (cc)
elem_behind side path c l (suc i) b' m e k = (i, e)

find_binding-deepest :
    (s : Bindings) (side : Side) (path : Bytes) (l : List Binding) (b : Binding) (i : ℕ)
    (b' : Binding)
    → IsCanonical path
    → AreCanonical side l
    → AreSorted side l
    → find_binding s side path l ≡ some b
    → get_elem? l i ≡ some b'
    → is_within (compare_paths (ref_of side b') path) ≡ true
    → is_within (compare_paths (ref_of side b') (ref_of side b)) ≡ true
find_binding-deepest s side path [] b i b' cp cl sl f e k = absurd (cc)
find_binding-deepest s side path (c ∷ l) b i b' cp cl sl f e k =
    elim (Bool-cases (is_passed_over s side path)) [
      | inl over ↦
          let no : find_binding s side path (c ∷ l) ≡ none =
            find_passed_over s side path (c ∷ l) over in
          absurd (cc)
      | inr seen ↦ elim (Bool-cases (is_within (compare_paths (ref_of side c) path))) [
        | inl w ↦
            let hit : find_binding s side path (c ∷ l) ≡ some c = find_hit s side path c l w seen in
            let eq : c ≡ b = cc in
            subst (λ t. is_within (compare_paths (ref_of side b') (ref_of side t)) ≡ true) eq
              (first_contains side path c l i b' cp cl sl w e k)
        | inr m ↦
            let j = elem_behind side path c l i b' m e k in
            find_binding-deepest s side path l b j.0 b' cp cl.1 sl.1
              (sym (find_miss s side path c l m) ∙ f) j.1 k
      ]
    ]

-- On a sorted list of canonical paths, the binding that get_binding finds for a canonical path is the
-- deepest one: the path of every binding of that side that contains the path contains its path too.
pub get_binding-deepest :
    (s : Bindings) (side : Side) (path : Bytes) (b : Binding) (i : ℕ) (b' : Binding)
    → IsCanonical path
    → AreCanonical side (bindings_of s side)
    → AreSorted side (bindings_of s side)
    → get_binding s side path ≡ some b
    → get_elem? (bindings_of s side) i ≡ some b'
    → is_within (compare_paths (ref_of side b') path) ≡ true
    → is_within (compare_paths (ref_of side b') (ref_of side b)) ≡ true
unfolding get_binding
get_binding-deepest s Side.guest_side path b i b' cp cl sl f e k =
    find_binding-deepest s Side.guest_side path (bindings_of s Side.guest_side) b i b' cp cl sl f e
      k
get_binding-deepest s Side.host_side path b i b' cp cl sl f e k =
    find_binding-deepest s Side.host_side path (bindings_of s Side.host_side) b i b' cp cl sl f e k
get_binding-deepest s Side.pending_side path b i b' cp cl sl f e k = absurd (cc)

-- Where get_binding finds a binding with canonical paths that needs substitution, substitute_binding
-- moves a canonical path from below the one path of the binding to below the other, if the buffer
-- surely holds the two parts and not both paths of the binding are the root.
pub substitute_binding-render :
    (s : Bindings) (side : Side) (b : Binding) (g h r : List Bytes)
    → get_binding s side (render (g ++ r)) ≡ some b
    → b.need_substitution ≡ true
    → ref_of side b ≡ render g
    → reverse_ref side b ≡ render h
    → AreNames g
    → AreNames h
    → AreNames r
    → 0 < length g + length h
    → length (render h) + length (render r) < path_max
    → substitute_binding s side (render (g ++ r)) ≡ (pos 1, render (h ++ r))
unfolding substitute_binding
substitute_binding-render s side b g h r f n eg eh ag ah ar ne fits =
    let sub = substitute_path_prefix-render g h r ag ah ar ne fits in
    ap (substituted_by side (render (g ++ r))) f ∙ rw (eg, eh, sub, n, substituted_by) refl
