-- ===== src/Proc/Links.antt =====
-- The links of a tracee in /proc, which path/proc.c makes up.
use xyzterm.Common.{
  ℕ, zero, suc, ◌+◌, ◌/◌, ◌%◌, ◌^◌, ◌<◌, ◌≤◌, ◌≡◌, refl, ap, sym, ◌∙◌, List, [], ◌∷◌, ◌++◌, some,
  true, false, arith, if_both, ltb, leb, length, length-append, append-nil, drop, ok, emit,
  print_int, strtol, atoi, strtol-print_int, or_zero,
}
use xyzterm.Common.Int.{pos}
use xyzterm.Path.{Bytes, path_max, slash, Comparison, compare_paths}
use xyzterm.Path.Names.{Clean, IsName, above_slash-Clean, AreNames, render}
use xyzterm.Path.Compare.{compare_paths-render}
use xyzterm.Path.Nesting.{names_refl, names_same}
use xyzterm.Proc.{
  proc, Action, KnownTracee, Monitor, self_name, exe_name, cwd_name, root_name, fd_name, proc_path,
  fd_path, readlink_tracee, is_zero, readlink_fd, in_proc, readlink_beneath, readlink_proc,
}

letter-Clean : (x : ℕ) (out : Bytes) → 47 < x → Clean out → Clean (x ∷ out)
letter-Clean x out h c = (λ e. absurd (omega (arith, e)), λ e. absurd (omega (arith, e)), c)

emit-Clean : (k n : ℕ) (out : Bytes) → Clean out → Clean (emit k n out)
emit-Clean zero n out c = c
emit-Clean (suc k) n out c =
    if_both Clean (ltb n 10) (λ e. letter-Clean (b'0' + n) out (omega arith) c)
      (λ e.
        emit-Clean k (n / 10) ((b'0' + n % 10) ∷ out)
          (letter-Clean (b'0' + n % 10) out (omega arith) c))

emit-grows : (k n : ℕ) (out : Bytes) → length out ≤ length (emit k n out)
emit-grows zero n out = omega arith
emit-grows (suc k) n out =
    if_both (λ r. length out ≤ length r) (ltb n 10) (λ e. omega arith)
      (λ e. omega (arith, emit-grows k (n / 10) ((b'0' + n % 10) ∷ out)))

emit-shrinks : (k n : ℕ) (out : Bytes) → length (emit k n out) ≤ length out + k
emit-shrinks zero n out = omega arith
emit-shrinks (suc k) n out =
    if_both (λ r. length r ≤ length out + suc k) (ltb n 10) (λ e. omega arith)
      (λ e. omega (arith, emit-shrinks k (n / 10) ((b'0' + n % 10) ∷ out)))

emit-nonempty : (k n : ℕ) (out : Bytes) → 0 < length (emit (suc k) n out)
emit-nonempty k n out =
    if_both (λ r. 0 < length r) (ltb n 10) (λ e. omega arith)
      (λ e. omega (arith, emit-grows k (n / 10) ((b'0' + n % 10) ∷ out)))

print-IsName : (p : ℕ) → IsName (print_int (pos p))
unfolding print_int
print-IsName p = (emit-nonempty 9 p [], emit-Clean 10 p [] tt)

-- "/proc/<PID>" and "/proc/<PID>/fd", as names.
abbrev pub proc_names : ℕ → List Bytes
proc_names p = drop 1 proc ∷ print_int (pos p) ∷ []

abbrev pub fd_names : ℕ → List Bytes
fd_names p = drop 1 proc ∷ print_int (pos p) ∷ fd_name ∷ []

proc_path-render : (p : ℕ) → proc_path (pos p) ≡ render (proc_names p)
proc_path-render p = ap (λ t. proc ++ (slash ∷ t)) (sym (append-nil (print_int (pos p))))

fd_path-render : (p : ℕ) → fd_path (pos p) ≡ render (fd_names p)
fd_path-render p = refl

proc-IsName : IsName (drop 1 proc)
proc-IsName = (omega arith, above_slash-Clean (drop 1 proc) refl)

proc_names-AreNames : (p : ℕ) → AreNames (proc_names p)
proc_names-AreNames p = (proc-IsName, (print-IsName p, tt))

length-proc_path : (p : ℕ) → length (proc_path (pos p)) ≤ 16
unfolding print_int
length-proc_path p = omega (arith, emit-shrinks 10 p [])

readlink_beneath_self :
    (m : Monitor) (p : ℕ) (component : Bytes)
    → readlink_beneath m (proc_path (pos p)) component (pos p)
      ≡ readlink_tracee (m.get_tracee (pos p)) component
readlink_beneath_self m p component =
    let f : leb 64 (length (proc_path (pos p))) ≡ false =
      let l = length-proc_path p in ground arith in
    let c : compare_paths (proc_path (pos p)) (proc_path (pos p)) ≡ Comparison.paths_are_equal =
      rw (proc_path-render p) (
        compare_paths-render (proc_names p) (proc_names p) (proc_names-AreNames p)
          (proc_names-AreNames p)
        ∙ names_refl (proc_names p)) in
    rw (f) (ap (in_proc m (proc_path (pos p)) component (pos p)) c)

atoi-print_int : (p : ℕ) → p < 10 ^ 10 → atoi (print_int (pos p)) ≡ pos p
atoi-print_int p h =
    ap (λ s. atoi s) (sym (append-nil (print_int (pos p))))
    ∙ ap or_zero (strtol-print_int p [] h refl)

readlink_proc_self :
    (m : Monitor) (component : Bytes)
    → 0 < m.pid
    → m.pid < 2 ^ 31
    → (readlink_proc m proc self_name Comparison.paths_are_equal
        ≡ ok (Action.canonicalize_it (proc_path (pos m.pid))))
      × (readlink_proc m (proc_path (pos m.pid)) component Comparison.path1_is_prefix
          ≡ readlink_tracee (m.get_tracee (pos m.pid)) component)
unfolding readlink_proc
readlink_proc_self m component lo hi =
    let short = length-proc_path m.pid in
    let f : leb path_max (length (proc_path (pos m.pid))) ≡ false = ground arith in
    let z : is_zero (pos m.pid) ≡ false = ground arith in
    let a : atoi (drop 6 (proc_path (pos m.pid))) ≡ pos m.pid =
      atoi-print_int m.pid (omega arith) in
    (rw (f) refl, rw (a, z) (readlink_beneath_self m m.pid component))

fd_names-AreNames : (p : ℕ) → AreNames (fd_names p)
fd_names-AreNames p =
    (proc-IsName, (print-IsName p, ((omega arith, above_slash-Clean fd_name refl), tt)))

length-print : (p : ℕ) → length (print_int (pos p)) ≤ 10
unfolding print_int
length-print p = omega (arith, emit-shrinks 10 p [])

length-fd_path : (p : ℕ) → length (fd_path (pos p)) ≤ 19
length-fd_path p =
    omega (arith, length-append (print_int (pos p)) (slash ∷ fd_name), length-print p)

atoi-fd_path : (p : ℕ) → p < 10 ^ 10 → atoi (drop 6 (fd_path (pos p))) ≡ pos p
atoi-fd_path p h = ap or_zero (strtol-print_int p (slash ∷ fd_name) h refl)

proc_path-fd_path :
    (p : ℕ) → compare_paths (proc_path (pos p)) (fd_path (pos p)) ≡ Comparison.path1_is_prefix
proc_path-fd_path p =
    rw (proc_path-render p, fd_path-render p)
      (compare_paths-render (proc_names p) (fd_names p) (proc_names-AreNames p)
          (fd_names-AreNames p)
        ∙ names_same (drop 1 proc) (print_int (pos p) ∷ []) (print_int (pos p) ∷ fd_name ∷ [])
        ∙ names_same (print_int (pos p)) [] (fd_name ∷ []))

fd_path_equal :
    (p : ℕ) → compare_paths (fd_path (pos p)) (fd_path (pos p)) ≡ Comparison.paths_are_equal
fd_path_equal p = rw (fd_path-render p) (
    compare_paths-render (fd_names p) (fd_names p) (fd_names-AreNames p) (fd_names-AreNames p)
    ∙ names_refl (fd_names p))

readlink_fd-fd_path :
    (p d : ℕ)
    → d < 10 ^ 10
    → readlink_fd (fd_path (pos p)) (fd_path (pos p)) (print_int (pos d))
      ≡ ok (Action.dont_canonicalize (fd_path (pos p) ++ (slash ∷ print_int (pos d))))
readlink_fd-fd_path p d h =
    let n : strtol (print_int (pos d)) ≡ some (pos d) =
      ap strtol (sym (append-nil (print_int (pos d)))) ∙ strtol-print_int d [] h refl in
    let b : ltb d (2 ^ 63) ≡ true = ground arith in
    let l = length-fd_path p in
    let f : leb 64 (length (fd_path (pos p))) ≡ false = ground arith in
    let whole : length (fd_path (pos p) ++ (slash ∷ print_int (pos d))) ≤ 30 =
      omega
        (arith, l, length-print d, length-append (fd_path (pos p)) (slash ∷ print_int (pos d))) in
    let g : leb path_max (length (fd_path (pos p) ++ (slash ∷ print_int (pos d)))) ≡ false =
      ground arith in
    rw (f, fd_path_equal p, n, b, g) refl

readlink_proc-fd :
    (m : Monitor) (p d : ℕ)
    → 0 < p
    → p < 2 ^ 31
    → d < 2 ^ 31
    → readlink_proc m (fd_path (pos p)) (print_int (pos d)) Comparison.path1_is_prefix
      ≡ ok (Action.dont_canonicalize (fd_path (pos p) ++ (slash ∷ print_int (pos d))))
unfolding readlink_proc
readlink_proc-fd m p d lo hi h =
    let z : is_zero (pos p) ≡ false = ground arith in
    let l = length-proc_path p in
    let f : leb 64 (length (proc_path (pos p))) ≡ false = ground arith in
    rw (atoi-fd_path p (omega arith), z, f)
      (ap (in_proc m (fd_path (pos p)) (print_int (pos d)) (pos p)) (proc_path-fd_path p)
        ∙ readlink_fd-fd_path p d (omega arith))

-- The links of a known tracee, by their names.
readlink_tracee-links :
    (t : KnownTracee)
    → length t.exe < path_max
    → length t.cwd < path_max
    → length t.root < path_max
    → (readlink_tracee (some t) exe_name ≡ ok (Action.canonicalize_it t.exe))
      × (readlink_tracee (some t) cwd_name ≡ ok (Action.canonicalize_it t.cwd))
      × (readlink_tracee (some t) root_name ≡ ok (Action.canonicalize_it t.root))
readlink_tracee-links t x c r =
    let f : leb path_max (length t.exe) ≡ false = ground arith in
    let g : leb path_max (length t.cwd) ≡ false = ground arith in
    let h : leb path_max (length t.root) ≡ false = ground arith in
    (rw (f) refl, rw (g) refl, rw (h) refl)

-- "/proc/self" stands for "/proc/<PID>"; below that, where the number is that of a tracee whose paths fit,
-- "exe", "cwd" and "root" are its program, its working directory and its root; and a link
-- "/proc/<PID>/fd/<number>" is given back as it stands, not to be canonicalized. The numbers are positive
-- values of an `int`, that of the file may be 0.
pub readlink_proc-links :
    (m : Monitor) (t : KnownTracee) (d : ℕ)
    → 0 < m.pid
    → m.pid < 2 ^ 31
    → d < 2 ^ 31
    → m.get_tracee (pos m.pid) ≡ some t
    → length t.exe < path_max
    → length t.cwd < path_max
    → length t.root < path_max
    → (readlink_proc m proc self_name Comparison.paths_are_equal
        ≡ ok (Action.canonicalize_it (proc_path (pos m.pid))))
      × (readlink_proc m (proc_path (pos m.pid)) exe_name Comparison.path1_is_prefix
          ≡ ok (Action.canonicalize_it t.exe))
      × (readlink_proc m (proc_path (pos m.pid)) cwd_name Comparison.path1_is_prefix
          ≡ ok (Action.canonicalize_it t.cwd))
      × (readlink_proc m (proc_path (pos m.pid)) root_name Comparison.path1_is_prefix
          ≡ ok (Action.canonicalize_it t.root))
      × (readlink_proc m (fd_path (pos m.pid)) (print_int (pos d)) Comparison.path1_is_prefix
          ≡ ok (Action.dont_canonicalize (fd_path (pos m.pid) ++ (slash ∷ print_int (pos d)))))
readlink_proc-links m t d lo hi h e x c r =
    let links = readlink_tracee-links t x c r in
    let at = λ (n : Bytes). (readlink_proc_self m n lo hi).1 ∙ ap (λ k. readlink_tracee k n) e in
    (
      (readlink_proc_self m exe_name lo hi).0,
      at exe_name ∙ links.0,
      at cwd_name ∙ links.1,
      at root_name ∙ links.2,
      readlink_proc-fd m m.pid d lo hi h,
    )
