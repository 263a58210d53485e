-- ===== src/Path/Compare.antt =====
-- compare_paths of path/path.c on canonical paths: the comparison of their names.
use xyzterm.Common.{
  ◌≡◌, refl, ◌∙◌, ◌≢◌, List, [], ◌∷◌, ◌++◌, Bool, true, false, arith, ◌&&◌, length, ◌==◌,
  if◌then◌else◌, inl, inr, Bool-cases,
}
use xyzterm.Path.{
  Bytes, slash, last_byte, Comparison, same_prefix, compared_length, compare_lengths, compare_paths,
}
use xyzterm.Path.Names.{Clean, AreNames, behind_slashes, render, last_of_names}

-- The comparison as one walk over both strings.
abbrev walk : Bytes → Bytes → Comparison
walk [] [] = Comparison.paths_are_equal
walk [] (y ∷ q) =
    if y == slash then Comparison.path1_is_prefix else Comparison.paths_are_not_comparable
walk (x ∷ p) [] =
    if x == slash then Comparison.path2_is_prefix else Comparison.paths_are_not_comparable
walk (x ∷ p) (y ∷ q) = if x == y then walk p q else Comparison.paths_are_not_comparable

abbrev pub NoNul : Bytes → Type 0
NoNul [] = Unit {0}
NoNul (x ∷ xs) = (x ≢ 0) × NoNul xs

compare_lengths-walk :
    (p q : Bytes) → NoNul p → NoNul q → compare_lengths p (length p) q (length q) ≡ walk p q
unfolding compare_lengths same_prefix
compare_lengths-walk [] [] hp hq = refl
compare_lengths-walk [] (y ∷ q) hp hq = let ne : y ≢ 0 = hq.0 in ground arith
compare_lengths-walk (x ∷ p) [] hp hq = let ne : x ≢ 0 = hp.0 in ground arith
compare_lengths-walk (x ∷ p) (y ∷ q) hp hq =
    let ih = compare_lengths-walk p q hp.1 hq.1 in ground arith

-- Whether two names are the same.
abbrev pub same_name : Bytes → Bytes → Bool
same_name [] [] = true
same_name [] (y ∷ m) = false
same_name (x ∷ n) [] = false
same_name (x ∷ n) (y ∷ m) = x == y && same_name n m

-- The order of paths as lists of names.
abbrev pub compare_names : List Bytes → List Bytes → Comparison
compare_names [] [] = Comparison.paths_are_equal
compare_names [] (m ∷ ms) = Comparison.path1_is_prefix
compare_names (n ∷ ns) [] = Comparison.path2_is_prefix
compare_names (n ∷ ns) (m ∷ ms) =
    if same_name n m then compare_names ns ms else Comparison.paths_are_not_comparable

walk_names :
    (n m : Bytes) (ns ms : List Bytes)
    → Clean n
    → Clean m
    → walk (n ++ behind_slashes ns) (m ++ behind_slashes ms) ≡ (
        if same_name n m
        then walk (behind_slashes ns) (behind_slashes ms)
        else Comparison.paths_are_not_comparable)
walk_names [] [] ns ms hn hm = refl
walk_names [] (y ∷ m) [] ms hn hm = let ne : y ≢ slash = hm.0 in ground arith
walk_names [] (y ∷ m) (a ∷ ns) ms hn hm = let ne : y ≢ slash = hm.0 in ground arith
walk_names (x ∷ n) [] ns [] hn hm = let ne : x ≢ slash = hn.0 in ground arith
walk_names (x ∷ n) [] ns (b ∷ ms) hn hm = let ne : x ≢ slash = hn.0 in ground arith
walk_names (x ∷ n) (y ∷ m) ns ms hn hm =
    let ih = walk_names n m ns ms hn.2 hm.2 in
    elim (Bool-cases (x == y)) [ inl e ↦ rw (e) ih | inr e ↦ rw (e) refl ]

walk-behind_slashes :
    (ns ms : List Bytes)
    → AreNames ns
    → AreNames ms
    → walk (behind_slashes ns) (behind_slashes ms) ≡ compare_names ns ms
walk-behind_slashes [] [] hn hm = refl
walk-behind_slashes [] (m ∷ ms) hn hm = refl
walk-behind_slashes (n ∷ ns) [] hn hm = refl
walk-behind_slashes (n ∷ ns) (m ∷ ms) hn hm =
    walk_names n m ns ms hn.0.1 hm.0.1 ∙ rw (walk-behind_slashes ns ms hn.1 hm.1) refl

compared_length-render :
    (ns : List Bytes)
    → AreNames ns
    → compared_length (render ns) (length (render ns)) ≡ length (behind_slashes ns)
compared_length-render [] h = refl
compared_length-render (n ∷ ns) h =
    let ne : last_byte (render (n ∷ ns)) ≢ slash = last_of_names n ns h in
    let nf : (last_byte (render (n ∷ ns)) == slash) ≡ false = ground arith in rw (nf) refl

names-NoNul :
    (n : Bytes) (ns : List Bytes)
    → Clean n
    → NoNul (behind_slashes ns)
    → NoNul (n ++ behind_slashes ns)
names-NoNul [] ns c h = h
names-NoNul (x ∷ n) ns c h = (c.1, names-NoNul n ns c.2 h)

behind_slashes-NoNul : (ns : List Bytes) → AreNames ns → NoNul (behind_slashes ns)
behind_slashes-NoNul [] h = tt
behind_slashes-NoNul (n ∷ ns) h =
    (λ e. absurd (omega (arith, e)), names-NoNul n ns h.0.1 (behind_slashes-NoNul ns h.1))

-- The root counts as the empty string.
compare_lengths-render :
    (ns ms : List Bytes)
    → compare_lengths
        (render ns)
        (length (behind_slashes ns))
        (render ms)
        (length (behind_slashes ms))
      ≡ compare_lengths
          (behind_slashes ns)
          (length (behind_slashes ns))
          (behind_slashes ms)
          (length (behind_slashes ms))
unfolding compare_lengths same_prefix
compare_lengths-render [] [] = refl
compare_lengths-render [] (m ∷ ms) = ground arith
compare_lengths-render (n ∷ ns) [] = ground arith
compare_lengths-render (n ∷ ns) (m ∷ ms) = refl

render_nonempty : (ns : List Bytes) → (length (render ns) == 0) ≡ false
render_nonempty [] = refl
render_nonempty (n ∷ ns) = ground arith

-- On canonical paths compare_paths finds whether the names of one begin those of the other: whole
-- names, so "/usr" is a prefix of "/usr/lib" and not of "/usr2".
pub compare_paths-render :
    (ns ms : List Bytes)
    → AreNames ns
    → AreNames ms
    → compare_paths (render ns) (render ms) ≡ compare_names ns ms
unfolding compare_paths
compare_paths-render ns ms hn hm =
    rw
      (
        render_nonempty ns,
        render_nonempty ms,
        compared_length-render ns hn,
        compared_length-render ms hm,
      )
      (compare_lengths-render ns ms
        ∙ compare_lengths-walk (behind_slashes ns) (behind_slashes ms) (behind_slashes-NoNul ns hn)
            (behind_slashes-NoNul ms hm)
        ∙ walk-behind_slashes ns ms hn hm)
