-- ===== src/Path/Substitute.antt =====
-- substitute_path_prefix of path/path.c on canonical paths.
use xyzterm.Common.{
  ◌+◌, ◌-◌, ◌<◌, ◌≤◌, ◌≡◌, refl, ap, sym, ◌∙◌, List, [], ◌∷◌, ◌++◌, true, false, arith, lt→ltb,
  length, length-append, append-nil, ltb, ◌==◌, if◌then◌else◌, drop, ok, err, enametoolong,
}
use xyzterm.Path.{Bytes, slash, path_max, substitute_path_prefix}
use xyzterm.Path.Names.{IsName, AreNames, behind_slashes, render, behind_slashes-append}

pub drop-append : (xs ys : Bytes) → drop (length xs) (xs ++ ys) ≡ ys
drop-append [] ys = refl
drop-append (x ∷ xs) ys = drop-append xs ys

-- The names behind those of a prefix.
render-append_cons :
    (g : List Bytes) (n : Bytes) (r : List Bytes)
    → render (g ++ (n ∷ r)) ≡ behind_slashes g ++ behind_slashes (n ∷ r)
render-append_cons [] n r = refl
render-append_cons (m ∷ g) n r = behind_slashes-append (m ∷ g) (n ∷ r)

render-append_left :
    (m : Bytes) (g r : List Bytes) → render ((m ∷ g) ++ r) ≡ render (m ∷ g) ++ behind_slashes r
render-append_left m g r = behind_slashes-append (m ∷ g) r

pub length_of_names : (n : Bytes) (ns : List Bytes) → IsName n → 1 < length (render (n ∷ ns))
length_of_names n ns h = omega (arith, length-append n (behind_slashes ns))

behind_slashes_short : (r : List Bytes) → length (behind_slashes r) ≤ length (render r)
behind_slashes_short [] = omega arith
behind_slashes_short (n ∷ r) = omega arith

to_root :
    (xs ys : Bytes)
    → substitute_path_prefix (xs ++ ys) (length xs) (slash ∷ [])
      ≡ (if length ys == 0 then ok (slash ∷ []) else ok ys)
unfolding substitute_path_prefix
to_root xs ys =
    let l : length (xs ++ ys) - length xs ≡ length ys = omega (arith, length-append xs ys) in
    rw (l, drop-append xs ys) (ground arith)

from_root :
    (p h : Bytes)
    → 1 < length h
    → length h + length p < path_max
    → substitute_path_prefix p 1 h ≡ (if ltb 1 (length p) then ok (h ++ p) else ok h)
unfolding substitute_path_prefix
from_root p h lt fits = ground arith

between :
    (xs ys h : Bytes)
    → 1 < length xs
    → 1 < length h
    → length h + length ys < path_max
    → substitute_path_prefix (xs ++ ys) (length xs) h ≡ ok (h ++ ys)
unfolding substitute_path_prefix
between xs ys h lx lh fits =
    let l : length (xs ++ ys) - length xs ≡ length ys = omega (arith, length-append xs ys) in
    rw (l, drop-append xs ys) (ground arith)

-- In a path below the directory `g`, substitution of `h` for `g` gives the path at the same place
-- below `h`, if the buffer surely holds the two parts and not both directories are the root.
pub substitute_path_prefix-render :
    (g h r : List Bytes)
    → AreNames g
    → AreNames h
    → AreNames r
    → 0 < length g + length h
    → length (render h) + length (render r) < path_max
    → substitute_path_prefix (render (g ++ r)) (length (render g)) (render h) ≡ ok (render (h ++ r))
substitute_path_prefix-render [] [] r ag ah ar ne fits = absurd (omega arith)
substitute_path_prefix-render [] (b ∷ h) [] ag ah ar ne fits =
    let e : b ∷ h ≡ (b ∷ h) ++ [] = sym (append-nil (b ∷ h)) in
    from_root (slash ∷ []) (render (b ∷ h)) (length_of_names b h ah.0) fits
    ∙ ap (λ t. ok (render t)) e
substitute_path_prefix-render [] (b ∷ h) (c ∷ r) ag ah ar ne fits =
    let more : ltb 1 (length (render (c ∷ r))) ≡ true =
      lt→ltb 1 (length (render (c ∷ r))) (length_of_names c r ar.0) in
    from_root (render (c ∷ r)) (render (b ∷ h)) (length_of_names b h ah.0) fits
    ∙ rw (more) (ap ok (sym (render-append_left b h (c ∷ r))))
substitute_path_prefix-render (a ∷ g) [] [] ag ah ar ne fits =
    ap (λ t. substitute_path_prefix t (length (render (a ∷ g))) (slash ∷ []))
      (render-append_left a g [])
    ∙ to_root (render (a ∷ g)) []
substitute_path_prefix-render (a ∷ g) [] (c ∷ r) ag ah ar ne fits =
    let nz : (length (render (c ∷ r)) == 0) ≡ false = ground arith in
    ap (λ t. substitute_path_prefix t (length (render (a ∷ g))) (slash ∷ []))
      (render-append_left a g (c ∷ r))
    ∙ to_root (render (a ∷ g)) (render (c ∷ r))
    ∙ rw (nz) refl
substitute_path_prefix-render (a ∷ g) (b ∷ h) r ag ah ar ne fits =
    ap (λ t. substitute_path_prefix t (length (render (a ∷ g))) (render (b ∷ h)))
      (render-append_left a g r)
    ∙ between (render (a ∷ g)) (behind_slashes r) (render (b ∷ h)) (length_of_names a g ag.0)
        (length_of_names b h ah.0) (omega (arith, fits, behind_slashes_short r))
    ∙ ap ok (sym (render-append_left b h r))

long_from_root :
    (p h : Bytes)
    → 1 < length h
    → path_max ≤ length h + length p
    → substitute_path_prefix p 1 h ≡ err enametoolong
unfolding substitute_path_prefix
long_from_root p h lt long = ground arith

long_between :
    (xs ys h : Bytes)
    → 1 < length xs
    → 1 < length h
    → path_max ≤ length h + length ys
    → substitute_path_prefix (xs ++ ys) (length xs) h ≡ err enametoolong
unfolding substitute_path_prefix
long_between xs ys h lx lh long =
    let l : length (xs ++ ys) - length xs ≡ length ys = omega (arith, length-append xs ys) in
    rw (l) (ground arith)

-- Where the new path would not fit in PATH_MAX bytes, substitution of a directory other than the root
-- fails with -ENAMETOOLONG.
pub substitute_path_prefix-render_long :
    (g h r : List Bytes)
    → AreNames g
    → AreNames h
    → AreNames r
    → 0 < length h
    → path_max ≤ length (render (h ++ r))
    → substitute_path_prefix (render (g ++ r)) (length (render g)) (render h) ≡ err enametoolong
substitute_path_prefix-render_long g [] r ag ah ar ne long = absurd (omega arith)
substitute_path_prefix-render_long [] (b ∷ h) r ag ah ar ne long =
    long_from_root (render r) (render (b ∷ h)) (length_of_names b h ah.0) (
      omega (
        arith,
        long,
        ap length (render-append_left b h r),
        length-append (render (b ∷ h)) (behind_slashes r),
        behind_slashes_short r,
      ))
substitute_path_prefix-render_long (a ∷ g) (b ∷ h) r ag ah ar ne long =
    ap (λ t. substitute_path_prefix t (length (render (a ∷ g))) (render (b ∷ h)))
      (render-append_left a g r)
    ∙ long_between (render (a ∷ g)) (behind_slashes r) (render (b ∷ h)) (length_of_names a g ag.0)
        (length_of_names b h ah.0)
        (omega (
          arith,
          long,
          ap length (render-append_left b h r),
          length-append (render (b ∷ h)) (behind_slashes r),
        ))
