-- ===== src/Proc/Bounds.antt =====
-- The length of the paths that path/proc.c gives for the links of /proc.
use xyzterm.Common.{
  ◌<◌, [], ◌∷◌, ◌++◌, Option, none, some, not_leb→lt, if_both, leb, not, length, drop, Result, ok,
  err, strtol, atoi,
}
use xyzterm.Common.Int.{ℤ, pos}
use xyzterm.Path.{Bytes, path_max, slash, Comparison, is_equal, compare_paths}
use xyzterm.Path.Compare.{same_name}
use xyzterm.Proc.{
  Action, KnownTracee, Monitor, exe_name, cwd_name, root_name, self_name, proc_path, fd_path,
  substituted, readlink_tracee, is_long, is_zero, readlink_fd, in_proc, readlink_proc, emulated,
  readlink_split,
}

-- The path that is asked to be canonicalized, if there is one, fits a buffer.
abbrev pub FitsAction : Result Action → Type 0
FitsAction (err e) = Unit {0}
FitsAction (ok Action.default_action) = Unit {0}
FitsAction (ok (Action.canonicalize_it path)) = length path < path_max
FitsAction (ok (Action.dont_canonicalize path)) = length path < path_max

substituted-FitsAction : (path : Bytes) → FitsAction (substituted path)
substituted-FitsAction path =
    if_both FitsAction (leb path_max (length path)) (λ e. tt)
      (λ e. not_leb→lt path_max (length path) e)

readlink_tracee-FitsAction :
    (t : Option KnownTracee) (component : Bytes) → FitsAction (readlink_tracee t component)
readlink_tracee-FitsAction none component = tt
readlink_tracee-FitsAction (some t) component =
    if_both FitsAction (same_name component exe_name) (λ e. substituted-FitsAction t.exe)
      λ e.
        if_both FitsAction (same_name component cwd_name) (λ f. substituted-FitsAction t.cwd)
          λ f.
            if_both FitsAction (same_name component root_name) (λ g. substituted-FitsAction t.root)
              (λ g. tt)

readlink_fd-FitsAction :
    (path base component : Bytes) → FitsAction (readlink_fd path base component)
readlink_fd-FitsAction path base component =
    if_both FitsAction (leb 64 (length path)) (λ e. tt)
      λ e.
        if_both FitsAction (not (is_equal (compare_paths path base))) (λ e. tt)
          λ e.
            if_both FitsAction (not (is_long (strtol component))) (λ e. tt)
              λ e.
                if_both FitsAction (leb path_max (length (base ++ (slash ∷ component)))) (λ e. tt)
                  (λ e. not_leb→lt path_max (length (base ++ (slash ∷ component))) e)

compared-FitsAction :
    (m : Monitor) (base component : Bytes) (pid : ℤ) (comparison : Comparison)
    → FitsAction (in_proc m base component pid comparison)
compared-FitsAction m base component pid Comparison.paths_are_equal =
    readlink_tracee-FitsAction (m.get_tracee pid) component
compared-FitsAction m base component pid Comparison.path1_is_prefix =
    readlink_fd-FitsAction (fd_path pid) base component
compared-FitsAction m base component pid Comparison.path2_is_prefix = tt
compared-FitsAction m base component pid Comparison.paths_are_not_comparable = tt

-- Every path that readlink_proc gives fits a buffer of PATH_MAX bytes, whatever the tracees' own paths
-- are.
pub readlink_proc-FitsAction :
    (m : Monitor) (base component : Bytes) (comparison : Comparison)
    → FitsAction (readlink_proc m base component comparison)
unfolding readlink_proc
readlink_proc-FitsAction m base component Comparison.paths_are_equal =
    if_both FitsAction (not (same_name component self_name)) (λ e. tt)
      λ e.
        if_both FitsAction (leb path_max (length (proc_path (pos m.pid)))) (λ e. tt)
          (λ e. not_leb→lt path_max (length (proc_path (pos m.pid))) e)
readlink_proc-FitsAction m base component Comparison.path1_is_prefix =
    if_both FitsAction (is_zero (atoi (drop 6 base))) (λ e. tt)
      λ e.
        if_both FitsAction (leb 64 (length (proc_path (atoi (drop 6 base))))) (λ e. tt)
          λ e.
            compared-FitsAction m base component (atoi (drop 6 base))
              (compare_paths (proc_path (atoi (drop 6 base))) base)
readlink_proc-FitsAction m base component Comparison.path2_is_prefix = tt
readlink_proc-FitsAction m base component Comparison.paths_are_not_comparable = tt

abbrev pub FitsPath : Option Bytes → Type 0
FitsPath none = Unit {0}
FitsPath (some path) = length path < path_max

emulated-FitsPath : (r : Result Action) → FitsAction r → FitsPath (emulated r)
emulated-FitsPath (err e) h = tt
emulated-FitsPath (ok Action.default_action) h = tt
emulated-FitsPath (ok (Action.dont_canonicalize path)) h = tt
emulated-FitsPath (ok (Action.canonicalize_it [])) h = tt
emulated-FitsPath (ok (Action.canonicalize_it (x ∷ path))) h = h

pub readlink_split-FitsPath :
    (m : Monitor) (split : Option (Bytes × Bytes)) → FitsPath (readlink_split m split)
readlink_split-FitsPath m none = tt
readlink_split-FitsPath m (some (base, [])) = tt
readlink_split-FitsPath m (some (base, x ∷ component)) =
    emulated-FitsPath (readlink_proc m base (x ∷ component) Comparison.path1_is_prefix)
      (readlink_proc-FitsAction m base (x ∷ component) Comparison.path1_is_prefix)
