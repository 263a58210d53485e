-- ===== src/Canon/Fits.antt =====
-- The paths that a link leads to, by detranslate_path, fit a buffer of PATH_MAX bytes.
use xyzterm.Common.{
  ℕ, zero, suc, ◌+◌, ◌-◌, ◌<◌, Option, none, some, Bool, true, false, not, arith, if_both,
  not_leb→lt, leb, ltb, ◌==◌, length, length-append, length-drop, drop, Result, ok, err,
}
use xyzterm.Common.Int.{ℤ, pos, negsuc}
use xyzterm.Path.{
  Bytes, path_max, slash, byte_at, Comparison, compare_paths, substitute_path_prefix,
}
use xyzterm.Binding.{
  Binding, Bindings, Side, get_root, compare_root, belongs_to_guestfs, get_path_binding,
  get_binding, placed, substituted_by, substitute_binding, ref_of, reverse_ref,
}
use xyzterm.Proc.{proc, Monitor, readlink_split, split_last, readlink_proc2}
use xyzterm.Proc.Bounds.{FitsPath, readlink_split-FitsPath}
use xyzterm.Detranslate.{
  Seen, prefix_length, off_root, after_proc, after_binding, resolved, is_path1_prefix,
  is_same_binding, detranslate_path,
}

abbrev pub Fits : Bytes → Type 0
Fits path = length path < path_max

abbrev pub FitsSeen : Seen → Type 0
FitsSeen (err e) = Unit {0}
FitsSeen (ok r) = Fits r.1

abbrev FitsResult : Result Bytes → Type 0
FitsResult (err e) = Unit {0}
FitsResult (ok path) = Fits path

drop-Fits : (n : ℕ) (path : Bytes) → Fits path → Fits (drop n path)
drop-Fits n path h = omega (arith, length-drop n path)

substitute_path_prefix-FitsResult :
    (path : Bytes) (n : ℕ) (new_prefix : Bytes)
    → Fits path
    → FitsResult (substitute_path_prefix path n new_prefix)
unfolding substitute_path_prefix
substitute_path_prefix-FitsResult path n new_prefix h =
    if_both FitsResult (length new_prefix == 1)
      (λ e.
        if_both FitsResult (not (length path - n == 0)) (λ f. drop-Fits n path h)
          (λ f. omega arith))
      λ e.
        if_both FitsResult (n == 1)
          (λ f.
            if_both FitsResult (leb path_max (length new_prefix + length path)) (λ g. tt)
              λ g.
                let lt = not_leb→lt path_max (length new_prefix + length path) g in
                if_both Fits (ltb 1 (length path))
                  (λ k. omega (arith, length-append new_prefix path)) (λ k. omega arith))
          λ f.
            if_both FitsResult (leb path_max (length path - n + length new_prefix)) (λ g. tt)
              λ g.
                let lt = not_leb→lt path_max (length path - n + length new_prefix) g in
                omega (arith, length-append new_prefix (drop n path), length-drop n path)

placed-Fits : (path : Bytes) (r : Result Bytes) → Fits path → FitsResult r → Fits (placed path r).1
placed-Fits path (ok path') h k = k
placed-Fits path (err e) h k = h

substituted_by-Fits :
    (side : Side) (path : Bytes) (b : Option Binding)
    → Fits path
    → Fits (substituted_by side path b).1
substituted_by-Fits side path none h = h
substituted_by-Fits side path (some b) h =
    if_both {A = ℤ × Bytes} (λ r. Fits r.1) (not b.need_substitution) (λ e. h)
      λ e.
        let to = substitute_path_prefix path (length (ref_of side b)) (reverse_ref side b) in
        placed-Fits path to h
          (substitute_path_prefix-FitsResult path (length (ref_of side b)) (reverse_ref side b) h)

substitute_binding-Fits :
    (s : Bindings) (side : Side) (path : Bytes)
    → Fits path
    → Fits (substitute_binding s side path).1
unfolding substitute_binding
substitute_binding-Fits s side path h = substituted_by-Fits side path (get_binding s side path) h

off_root-FitsSeen :
    (s : Bindings) (sanity : Bool) (path : Bytes) (c : Comparison)
    → Fits path
    → FitsSeen (off_root s sanity path c)
off_root-FitsSeen s sanity path Comparison.path1_is_prefix h =
    drop-Fits (prefix_length (get_root s)) path h
off_root-FitsSeen s sanity path Comparison.paths_are_equal h = omega arith
off_root-FitsSeen s sanity path Comparison.path2_is_prefix h =
    if_both FitsSeen sanity (λ e. tt) (λ e. h)
off_root-FitsSeen s sanity path Comparison.paths_are_not_comparable h =
    if_both FitsSeen sanity (λ e. tt) (λ e. h)

after_binding-FitsSeen :
    (s : Bindings) (sanity : Bool) (path : Bytes) (r : ℤ × Bytes)
    → Fits r.1
    → FitsSeen (after_binding s sanity path r)
after_binding-FitsSeen s sanity path (pos zero, path') h = h
after_binding-FitsSeen s sanity path (pos (suc zero), path') h = h
after_binding-FitsSeen s sanity path (pos (suc (suc n)), path') h =
    off_root-FitsSeen s sanity path' (compare_root s path') h
after_binding-FitsSeen s sanity path (negsuc n, path') h =
    off_root-FitsSeen s sanity path' (compare_root s path') h

resolved-FitsSeen :
    (s : Bindings) (sanity follow : Bool) (path : Bytes)
    → Fits path
    → FitsSeen (resolved s sanity follow path)
resolved-FitsSeen s sanity follow path h =
    if_both FitsSeen follow
      (λ e.
        after_binding-FitsSeen s sanity path (substitute_binding s Side.host_side path)
          (substitute_binding-Fits s Side.host_side path h))
      (λ e. off_root-FitsSeen s sanity path (compare_root s path) h)

after_proc-FitsSeen :
    (s : Bindings) (path : Bytes) (o : Option Bytes)
    → FitsPath o
    → Fits path
    → FitsSeen (after_proc s path (ok o))
after_proc-FitsSeen s path none f h = resolved-FitsSeen s false true path h
after_proc-FitsSeen s path (some p) f h = f

proc2-FitsSeen :
    (s : Bindings) (m : Monitor) (path referer : Bytes)
    → Fits path
    → FitsSeen (after_proc s path (readlink_proc2 m referer))
unfolding readlink_proc2
proc2-FitsSeen s m path referer h =
    if_both (λ r. FitsSeen (after_proc s path r)) (leb path_max (length referer)) (λ e. tt)
      (λ e.
        after_proc-FitsSeen s path (readlink_split m (split_last referer))
          (readlink_split-FitsPath m (split_last referer)) h)

-- What a link leads to fits the buffer.
pub detranslate_path-FitsSeen :
    (s : Bindings) (m : Monitor) (path referer : Bytes)
    → FitsSeen
        (detranslate_path s (λ path' referer'. readlink_proc2 m referer') path (some referer))
unfolding detranslate_path
detranslate_path-FitsSeen s m path referer =
    if_both FitsSeen (leb path_max (length path)) (λ e. tt)
      λ e.
        let h : Fits path = not_leb→lt path_max (length path) e in
        if_both FitsSeen (not (byte_at path 0 == slash)) (λ f. h)
          λ f.
            if_both FitsSeen (is_path1_prefix (compare_paths proc referer))
              (λ g. proc2-FitsSeen s m path referer h)
              λ g.
                if_both FitsSeen (not (belongs_to_guestfs s referer))
                  (λ k.
                    resolved-FitsSeen s false
                      (is_same_binding (get_path_binding s Side.host_side path)
                        (get_path_binding s Side.host_side referer))
                      path h)
                  (λ k. resolved-FitsSeen s false false path h)
