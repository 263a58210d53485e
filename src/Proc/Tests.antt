-- ===== src/Proc/Tests.antt =====
-- The links of /proc for a tracee with the number 42.
use xyzterm.Common.{◌≡◌, refl, [], ◌∷◌, ◌++◌, none, some, ok, arith, print_int}
use xyzterm.Common.Int.{pos}
use xyzterm.Path.{Bytes, path_max, slash, Comparison}
use xyzterm.Proc.{
  proc, Action, KnownTracee, Monitor, self_name, exe_name, cwd_name, root_name, proc_path, fd_path,
  readlink_proc, readlink_proc2,
}
use xyzterm.Proc.Bounds.{FitsAction, readlink_proc-FitsAction}
use xyzterm.Proc.Links.{readlink_proc-links}

abbrev shell : KnownTracee
shell = record { exe = slash ∷ b's' ∷ b'h' ∷ []; cwd = slash ∷ b'h' ∷ []; root = slash ∷ [] }

-- Every number is that of a shell.
abbrev monitor : Monitor
monitor = record { pid = 42; get_tracee = (λ p. some shell) }

printed : print_int (pos 42) ≡ b'4' ∷ b'2' ∷ []
unfolding print_int
printed = refl

readlink_proc-links_example :
    (readlink_proc monitor proc self_name Comparison.paths_are_equal
      ≡ ok (Action.canonicalize_it (proc_path (pos 42))))
    × (readlink_proc monitor (proc_path (pos 42)) exe_name Comparison.path1_is_prefix
        ≡ ok (Action.canonicalize_it (slash ∷ b's' ∷ b'h' ∷ [])))
    × (readlink_proc monitor (proc_path (pos 42)) cwd_name Comparison.path1_is_prefix
        ≡ ok (Action.canonicalize_it (slash ∷ b'h' ∷ [])))
    × (readlink_proc monitor (proc_path (pos 42)) root_name Comparison.path1_is_prefix
        ≡ ok (Action.canonicalize_it (slash ∷ [])))
    × (readlink_proc monitor (fd_path (pos 42)) (print_int (pos 3)) Comparison.path1_is_prefix
        ≡ ok (Action.dont_canonicalize (fd_path (pos 42) ++ (slash ∷ print_int (pos 3)))))
readlink_proc-links_example =
    readlink_proc-links monitor shell 3 (omega arith) (omega arith) (omega arith) refl (omega arith)
      (omega arith) (omega arith)

readlink_proc-FitsAction_example :
    FitsAction (readlink_proc monitor (proc_path (pos 42)) exe_name Comparison.path1_is_prefix)
readlink_proc-FitsAction_example =
    readlink_proc-FitsAction monitor (proc_path (pos 42)) exe_name Comparison.path1_is_prefix

-- "/proc/42/exe" and "/proc/x/exe".
emulated_exe :
    (readlink_proc2 monitor (proc ++ (slash ∷ b'4' ∷ b'2' ∷ slash ∷ exe_name))
      ≡ ok (some (slash ∷ b's' ∷ b'h' ∷ [])))
    × (readlink_proc2 monitor (proc ++ (slash ∷ b'x' ∷ slash ∷ exe_name)) ≡ ok none)
unfolding readlink_proc2 readlink_proc print_int xyzterm.Path.compare_paths
    xyzterm.Path.compare_lengths xyzterm.Path.same_prefix
emulated_exe = (refl, refl)
