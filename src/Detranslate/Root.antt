-- ===== src/Detranslate/Root.antt =====
-- detranslate_path on paths below the root of the guest, and on paths that a binding holds.
use xyzterm.Common.{
  ◌+◌, ◌<◌, ◌≡◌, refl, ap, ◌∙◌, List, [], ◌∷◌, ◌++◌, Option, none, some, Bool, true, false, ◌==◌,
  leb, length, drop, Result, ok, arith, append-nil,
}
use xyzterm.Common.Int.{pos}
use xyzterm.Path.{Bytes, path_max, slash, byte_at, Comparison}
use xyzterm.Path.Names.{AreNames, render, behind_slashes-append}
use xyzterm.Path.Compare.{compare_names, compare_paths-render}
use xyzterm.Path.Nesting.{names_same, names_refl}
use xyzterm.Path.Substitute.{drop-append, length_of_names}
use xyzterm.Binding.{
  Binding, Bindings, Side, get_root, compare_root, get_binding, substituted_by, substitute_binding,
}
use xyzterm.Binding.Deepest.{substitute_binding-render}
use xyzterm.Detranslate.{
  renamed, prefix_length, without_root, after_binding, resolved, detranslate_path,
}

names_below :
    (g : List Bytes) (n : Bytes) (r : List Bytes)
    → compare_names g (g ++ (n ∷ r)) ≡ Comparison.path1_is_prefix
names_below [] n r = refl
names_below (a ∷ g) n r = names_same a g (g ++ (n ∷ r)) ∙ names_below g n r

AreNames-append : (g r : List Bytes) → AreNames g → AreNames r → AreNames (g ++ r)
AreNames-append [] r h k = k
AreNames-append (a ∷ g) r h k = (h.0, AreNames-append g r h.1 k)

compare_root-render :
    (s : Bindings) (g p : List Bytes)
    → get_root s ≡ some (render g)
    → AreNames g
    → AreNames p
    → compare_root s (render p) ≡ compare_names g p
compare_root-render s g p e h k = rw (e, compare_root) (compare_paths-render g p h k)

drop-prefix :
    (g : List Bytes) (n : Bytes) (r : List Bytes)
    → AreNames g
    → drop (prefix_length (some (render g))) (render (g ++ (n ∷ r))) ≡ render (n ∷ r)
drop-prefix [] n r h = refl
drop-prefix (a ∷ g) n r h =
    let long : 1 < length (render (a ∷ g)) = length_of_names a g h.0 in
    let f : (length (render (a ∷ g)) == 1) ≡ false = ground arith in
    rw (f, behind_slashes-append (a ∷ g) (n ∷ r)) (drop-append (render (a ∷ g)) (render (n ∷ r)))

without_root-render :
    (s : Bindings) (sanity : Bool) (g r : List Bytes)
    → get_root s ≡ some (render g)
    → AreNames g
    → AreNames r
    → without_root s sanity (render (g ++ r)) ≡ renamed (render r)
without_root-render s sanity g [] e h k =
    let c : compare_root s (render (g ++ [])) ≡ Comparison.paths_are_equal =
      compare_root-render s g (g ++ []) e h (AreNames-append g [] h tt)
      ∙ ap (compare_names g) (append-nil g)
      ∙ names_refl g in
    rw (c, without_root) refl
without_root-render s sanity g (n ∷ r) e h k =
    let c : compare_root s (render (g ++ (n ∷ r))) ≡ Comparison.path1_is_prefix =
      compare_root-render s g (g ++ (n ∷ r)) e h (AreNames-append g (n ∷ r) h k)
      ∙ names_below g n r in
    rw (c, without_root)
      (ap renamed
        (ap (λ o. drop (prefix_length o) (render (g ++ (n ∷ r)))) e ∙ drop-prefix g n r h))

starts_with_slash : (p : List Bytes) → (byte_at (render p) 0 == slash) ≡ true
starts_with_slash [] = refl
starts_with_slash (n ∷ p) = refl

detranslate_path-resolved :
    (s : Bindings) (readlink_proc2 : Bytes → Bytes → Result (Option Bytes)) (p : List Bytes)
    → length (render p) < path_max
    → detranslate_path s readlink_proc2 (render p) none ≡ resolved s true true (render p)
unfolding detranslate_path
detranslate_path-resolved s readlink_proc2 p h =
    let f : leb path_max (length (render p)) ≡ false = ground arith in
    rw (f, starts_with_slash p) refl

-- A path of the host below the root of the guest, that no binding holds and that is no link's target,
-- is seen without the root, and the status is its length with the NUL.
pub detranslate_path-root :
    (s : Bindings) (readlink_proc2 : Bytes → Bytes → Result (Option Bytes)) (g r : List Bytes)
    → get_root s ≡ some (render g)
    → get_binding s Side.host_side (render (g ++ r)) ≡ none
    → AreNames g
    → AreNames r
    → length (render (g ++ r)) < path_max
    → detranslate_path s readlink_proc2 (render (g ++ r)) none
      ≡ ok (length (render r) + 1, render r)
unfolding substitute_binding
detranslate_path-root s readlink_proc2 g r e n h k fits =
    detranslate_path-resolved s readlink_proc2 (g ++ r) fits
    ∙ ap
        (λ b.
          after_binding s true (render (g ++ r))
            (substituted_by Side.host_side (render (g ++ r)) b))
        n
    ∙ without_root-render s true g r e h k

-- What substitute_binding makes of a path below the guest's side of an asymmetric binding,
-- detranslate_path turns back into the path, where the search on each side finds the binding, it does
-- not bind the root to the root, and both paths fit.
pub detranslate_path-substitute_binding :
    (s : Bindings) (readlink_proc2 : Bytes → Bytes → Result (Option Bytes)) (b : Binding)
    (g h r : List Bytes)
    → get_binding s Side.guest_side (render (g ++ r)) ≡ some b
    → get_binding s Side.host_side (render (h ++ r)) ≡ some b
    → b.need_substitution ≡ true
    → b.guest ≡ render g
    → b.host ≡ render h
    → AreNames g
    → AreNames h
    → AreNames r
    → 0 < length g + length h
    → length (render h) + length (render r) < path_max
    → length (render g) + length (render r) < path_max
    → length (render (h ++ r)) < path_max
    → (substitute_binding s Side.guest_side (render (g ++ r)) ≡ (pos 1, render (h ++ r)))
      × (detranslate_path s readlink_proc2 (render (h ++ r)) none
          ≡ ok (length (render (g ++ r)) + 1, render (g ++ r)))
detranslate_path-substitute_binding s readlink_proc2 b g h r fg fh n eg eh ag ah ar ne fits fits'
      short =
    (
      substitute_binding-render s Side.guest_side b g h r fg n eg eh ag ah ar ne fits,
      detranslate_path-resolved s readlink_proc2 (h ++ r) short
          ∙ ap (after_binding s true (render (h ++ r))) (
              substitute_binding-render s Side.host_side b h g r fh n eh eg ah ag ar (omega arith)
                fits'),
    )
