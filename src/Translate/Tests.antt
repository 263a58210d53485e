-- ===== src/Translate/Tests.antt =====
-- translate_path for a tracee with a binding of "/b" to "/u", on a host of directories.
use xyzterm.Common.{
  ◌≡◌, refl, ◌+◌, ◌++◌, [], ◌∷◌, Option, none, some, true, false, Result, ok, err, enotdir, arith,
  length, replicate,
}
use xyzterm.Common.Int.{pos, negsuc}
use xyzterm.Path.{Bytes, slash}
use xyzterm.Path.Names.{IsName, render}
use xyzterm.Binding.{Binding, Bindings, Side, get_binding}
use xyzterm.Detranslate.{detranslate_path}
use xyzterm.Host.{FileKind, substitute_binding_stat}
use xyzterm.Canon.{dot_dot}
use xyzterm.Canon.Lexical.{Spelling, spell, IsSpelling, HasNoLinks, dot-IsName}
use xyzterm.Translate.{Tracee, base_of, readlink_proc_pid_fd, translate_path}
use xyzterm.Translate.Back.{translate_path-detranslate_path}

abbrev usr : Bytes
usr = b'u' ∷ []

abbrev bin : Bytes
bin = b'b' ∷ []

usr-IsName : IsName usr
usr-IsName = (omega arith, (λ e. absurd (omega (arith, e)), λ e. absurd (omega (arith, e)), tt))

bin-IsName : IsName bin
bin-IsName = (omega arith, (λ e. absurd (omega (arith, e)), λ e. absurd (omega (arith, e)), tt))

dot_dot-IsName : IsName dot_dot
dot_dot-IsName =
    (omega arith, (λ e. absurd (omega (arith, e)), λ e. absurd (omega (arith, e)), dot-IsName.1))

abbrev bound : Binding
bound = record {
  address = 2;
  host = render (usr ∷ []);
  guest = render (bin ∷ []);
  need_substitution = true;
  must_exist = false;
}

abbrev root : Binding
root = record {
  address = 1;
  host = render [];
  guest = render [];
  need_substitution = false;
  must_exist = false;
}

abbrev tracee : Tracee
tracee = record {
  pid = 42;
  cwd = render [];
  bindings = record {
    pending = none;
    guest_list = some (bound ∷ root ∷ []);
    host_list = some (bound ∷ root ∷ []);
  };
  host = record {
    max_symlinks = 20;
    glue_type = 0;
    notify_host_path = (λ path final. ok path);
    is_skipped = (λ path. false);
    lstat = (λ path. ok FileKind.directory);
    build_glue = (λ guest_path host_path finality. none);
    readlink = (λ path. ok (b's' ∷ b'o' ∷ b'c' ∷ b'k' ∷ []));
    monitor = record { pid = 1; get_tracee = (λ p. none) };
  };
  notify_guest_path = (λ base path. ok (false, base));
  notify_translated_path = (λ path. ok path);
}

-- "u/..//b"
abbrev parts : Spelling
parts = (dot_dot, 2) ∷ (bin, 0) ∷ []

parts-IsSpelling : IsSpelling ((usr, 1) ∷ parts)
parts-IsSpelling = (
  usr-IsName,
  omega arith,
  omega arith,
  (dot_dot-IsName, omega arith, omega arith, (bin-IsName, omega arith)),
)

parts-HasNoLinks : HasNoLinks tracee.host tracee.bindings 0 [] ((usr, 1) ∷ parts)
unfolding substitute_binding_stat xyzterm.Binding.substitute_binding get_binding
    xyzterm.Path.substitute_path_prefix xyzterm.Path.compare_paths xyzterm.Path.compare_lengths
    xyzterm.Path.same_prefix
parts-HasNoLinks = (λ e f. refl, (λ e f. absurd (cc), λ e f. refl))

guest_finds : get_binding tracee.bindings Side.guest_side (render (bin ∷ [])) ≡ some bound
unfolding get_binding xyzterm.Path.compare_paths xyzterm.Path.compare_lengths
    xyzterm.Path.same_prefix
guest_finds = refl

host_finds : get_binding tracee.bindings Side.host_side (render (usr ∷ [])) ≡ some bound
unfolding get_binding xyzterm.Binding.get_root xyzterm.Path.compare_paths
    xyzterm.Path.compare_lengths xyzterm.Path.same_prefix
host_finds = refl

-- A descriptor of a socket is no base.
socket_refused : base_of tracee (pos 3) bin ≡ err enotdir
unfolding readlink_proc_pid_fd xyzterm.Common.print_int
socket_refused = refl

translate_path-detranslate_path_example :
    (translate_path 3 tracee (negsuc 99) (replicate 1 slash ++ spell ((usr, 1) ∷ parts)) true
      ≡ some (some (ok (render (usr ∷ [])))))
    × ((readlink_proc2 : Bytes → Bytes → Result (Option Bytes))
        → detranslate_path tracee.bindings readlink_proc2 (render (usr ∷ [])) none
          ≡ ok (length (render (bin ∷ [])) + 1, render (bin ∷ [])))
translate_path-detranslate_path_example =
    translate_path-detranslate_path 3 tracee (negsuc 99) true 0 usr 1 parts bound (bin ∷ [])
      (usr ∷ []) [] (λ base path. refl, λ path. refl) parts-IsSpelling parts-HasNoLinks refl refl
      (omega arith) (omega arith) guest_finds host_finds refl refl refl (bin-IsName, tt)
      (usr-IsName, tt) tt (omega arith) (omega arith) (omega arith) (omega arith)
