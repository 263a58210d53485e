-- ===== src/Canon/Tests.antt =====
-- canonicalize on a host of directories with one link, below a root that is the host's.
use xyzterm.Common.{
  ◌≡◌, refl, [], ◌∷◌, ◌++◌, none, some, true, false, ok, err, eloop, arith, if◌then◌else◌, ◌&&◌,
}
use xyzterm.Path.{Bytes, path_max, slash, Finality}
use xyzterm.Path.Names.{IsName, render, above_slash-Clean}
use xyzterm.Path.Compare.{same_name}
use xyzterm.Binding.{Binding, Bindings}
use xyzterm.Host.{FileKind, Host, substitute_binding_stat}
use xyzterm.Proc.{proc}
use xyzterm.Canon.{is_fd_link, canonicalize, dot, dot_dot}
use xyzterm.Canon.Lexical.{Spelling, spell, IsSpelling, HasNoLinks, dot-IsName}
use xyzterm.Canon.Resolve.{canonicalize-resolve}

abbrev root : Binding
root = record {
  address = 1;
  host = slash ∷ [];
  guest = slash ∷ [];
  need_substitution = false;
  must_exist = false;
}

abbrev bindings : Bindings
bindings = record { pending = none; guest_list = some (root ∷ []); host_list = some (root ∷ []) }

-- "/l" is a link to `target`.
abbrev kind_of : Bytes → FileKind
kind_of path = if same_name path (slash ∷ b'l' ∷ []) then FileKind.symlink else FileKind.directory

abbrev host : Bytes → Host
host target = record {
  max_symlinks = 20;
  glue_type = 0;
  notify_host_path = (λ path final. ok path);
  is_skipped = (λ path. false);
  lstat = (λ path. ok (kind_of path));
  build_glue = (λ guest_path host_path finality. none);
  readlink = (λ path. ok target);
  monitor = record { pid = 1; get_tracee = (λ p. none) };
}

abbrev usr : Bytes
usr = b'u' ∷ []

-- "u//./../u/"
abbrev parts : Spelling
parts = (dot, 1) ∷ (dot_dot, 1) ∷ (usr, 1) ∷ []

usr-IsName : IsName usr
usr-IsName = (omega arith, above_slash-Clean usr refl)

dot_dot-IsName : IsName dot_dot
dot_dot-IsName =
    (omega arith, (λ e. absurd (omega (arith, e)), λ e. absurd (omega (arith, e)), dot-IsName.1))

parts-IsSpelling : IsSpelling ((usr, 2) ∷ parts)
parts-IsSpelling = (
  usr-IsName,
  omega arith,
  omega arith,
  (
    dot-IsName,
    omega arith,
    omega arith,
    (dot_dot-IsName, omega arith, omega arith, (usr-IsName, omega arith)),
  ),
)

parts-HasNoLinks : HasNoLinks (host []) bindings 0 (usr ∷ []) ((usr, 2) ∷ parts)
unfolding substitute_binding_stat xyzterm.Binding.substitute_binding xyzterm.Binding.get_binding
    xyzterm.Path.compare_paths xyzterm.Path.compare_lengths xyzterm.Path.same_prefix
parts-HasNoLinks = (λ e f. refl, (λ e f. absurd (cc), (λ e f. absurd (cc), λ e f. refl)))

canonicalize-resolve_example :
    canonicalize 4 (host []) bindings (spell ((usr, 2) ∷ parts)) true (render (usr ∷ [])) 0
    ≡ some (some (ok (render (usr ∷ usr ∷ []) ++ (slash ∷ []))))
canonicalize-resolve_example =
    canonicalize-resolve 4 (host []) bindings true (usr ∷ []) 0 usr 2 parts (usr-IsName, tt)
      parts-IsSpelling parts-HasNoLinks (omega arith) (omega arith)

-- A link to "u", seen from the root, and a link to itself.
link_followed :
    canonicalize 40 (host usr) bindings (slash ∷ b'l' ∷ slash ∷ b'v' ∷ []) true [] 0
    ≡ some (some (ok (slash ∷ b'u' ∷ slash ∷ b'v' ∷ [])))
unfolding canonicalize xyzterm.Canon.canonicalize_loop substitute_binding_stat
    xyzterm.Binding.substitute_binding xyzterm.Binding.get_binding xyzterm.Path.compare_paths
    xyzterm.Path.compare_lengths xyzterm.Path.same_prefix xyzterm.Path.next_component
    xyzterm.Path.join_paths xyzterm.Path.join_step xyzterm.Detranslate.detranslate_path
link_followed = refl

self_link :
    canonicalize 40 (host (b'l' ∷ [])) bindings (slash ∷ b'l' ∷ []) true [] 0
    ≡ some (some (err eloop))
unfolding canonicalize xyzterm.Canon.canonicalize_loop substitute_binding_stat
    xyzterm.Binding.substitute_binding xyzterm.Binding.get_binding xyzterm.Path.compare_paths
    xyzterm.Path.compare_lengths xyzterm.Path.same_prefix xyzterm.Path.next_component
    xyzterm.Path.join_paths xyzterm.Path.join_step xyzterm.Detranslate.detranslate_path
self_link = refl

-- The paths that the assertion excepts.
fd_links :
    (is_fd_link (proc ++ (slash ∷ b'4' ∷ b'2' ∷ slash ∷ b'f' ∷ b'd' ∷ slash ∷ b'7' ∷ [])) ≡ true)
    × (is_fd_link (proc ++ (slash ∷ b'4' ∷ b'2' ∷ slash ∷ b'e' ∷ b'x' ∷ b'e' ∷ [])) ≡ false)
fd_links = (refl, refl)

-- A host that calls "/u" a link only where it is asked about for what a link led to.
abbrev fickle : Host
fickle = record (host usr) {
  notify_host_path = (λ path final.
      if final && same_name path (slash ∷ usr) then ok (slash ∷ b'l' ∷ []) else ok path);
}

failed_assertion : canonicalize 40 fickle bindings (slash ∷ b'l' ∷ []) true [] 0 ≡ some none
unfolding canonicalize xyzterm.Canon.canonicalize_loop substitute_binding_stat
    xyzterm.Binding.substitute_binding xyzterm.Binding.get_binding xyzterm.Path.compare_paths
    xyzterm.Path.compare_lengths xyzterm.Path.same_prefix xyzterm.Path.next_component
    xyzterm.Path.join_paths xyzterm.Path.join_step xyzterm.Detranslate.detranslate_path
failed_assertion = refl
