-- ===== src/Translate/Back.antt =====
-- translate_path on absolute paths without links that a binding holds, and back by detranslate_path.
use xyzterm.Common.{
  ℕ, suc, ◌+◌, ◌-◌, ◌<◌, ◌≡◌, refl, ap, ◌∙◌, List, [], ◌∷◌, ◌++◌, Option, none, some, Bool, true,
  false, leb, arith, length, replicate, Result, ok, ◌>>=◌,
}
use xyzterm.Common.Int.{ℤ, pos}
use xyzterm.Path.{Bytes, path_max, slash, Finality, fit, join_step, join_paths}
use xyzterm.Path.Names.{AreNames, render}
use xyzterm.Binding.{Binding, Side, get_binding, substitute_binding}
use xyzterm.Detranslate.{detranslate_path}
use xyzterm.Detranslate.Root.{detranslate_path-substitute_binding}
use xyzterm.Host.{bound_path}
use xyzterm.Canon.{canonicalize}
use xyzterm.Canon.Lexical.{
  Spelling, spell, resolve, finality_of_spelling, with_finality, IsSpelling, HasNoLinks,
}
use xyzterm.Canon.Resolve.{canonicalize-resolve}
use xyzterm.Translate.{Tracee, canonical, on_host, from_base, translate_path}

fit_ok : (l : ℕ) (p : Bytes) → l + 1 < path_max → fit l p ≡ ok p
fit_ok l p h = let e : leb path_max (l + 1) ≡ false = ground arith in rw (e) refl

-- An absolute path behind the root.
join_paths-absolute :
    (path : Bytes)
    → length path + 2 < path_max
    → join_paths (some (slash ∷ []) ∷ some (slash ∷ path) ∷ []) ≡ ok (slash ∷ path)
unfolding join_paths join_step
join_paths-absolute path h =
    rw (fit_ok (1 + suc (length path) - 1) (slash ∷ path) (omega arith)) refl

-- No extension touches the paths.
abbrev pub IsSilent : Tracee → Type 0
IsSilent t =
    ((base path : Bytes) → t.notify_guest_path base path ≡ ok (false, base))
    × ((path : Bytes) → t.notify_translated_path path ≡ ok path)

translate_path-canonicalize :
    (fuel : ℕ) (t : Tracee) (dir_fd : ℤ) (path : Bytes) (deref_final : Bool)
    → IsSilent t
    → length path + 2 < path_max
    → translate_path fuel t dir_fd (slash ∷ path) deref_final
      ≡ on_host t (canonicalize fuel t.host t.bindings (slash ∷ path) deref_final (slash ∷ []) 0)
unfolding translate_path
translate_path-canonicalize fuel t dir_fd path deref_final silent h =
    ap (from_base fuel t (slash ∷ path) deref_final) (silent.0 (slash ∷ []) (slash ∷ path))
    ∙ ap
        (λ r.
          on_host t
            (canonical (λ p. canonicalize fuel t.host t.bindings p deref_final (slash ∷ []) 0) r))
        (join_paths-absolute path h)

on_host-bound :
    (t : Tracee) (path host_path : Bytes) (n : ℕ)
    → IsSilent t
    → substitute_binding t.bindings Side.guest_side path ≡ (pos n, host_path)
    → on_host t (some (some (ok path))) ≡ some (some (ok host_path))
on_host-bound t path host_path n silent e =
    ap (λ r. some (some (bound_path r >>= (λ p. t.notify_translated_path p)))) e
    ∙ ap (λ q. some (some q)) (silent.1 host_path)

-- An absolute path, spelled with any "." and ".." and runs of slashes, whose names lead below the
-- guest's side of an asymmetric binding, each name being there, no name a link, all but the last one
-- directories, and no extension touching it, with no mark at its end: translate_path gives the path
-- below the host's side of the binding, which detranslate_path turns back into the canonical path, not
-- the spelled one. The search on each side finds the binding, it does not bind the root to the root,
-- all paths fit, and the fuel is a round for each name.
pub translate_path-detranslate_path :
    (fuel : ℕ) (t : Tracee) (dir_fd : ℤ) (deref_final : Bool) (k : ℕ) (n : Bytes) (j : ℕ)
    (parts : Spelling) (b : Binding) (g h r : List Bytes)
    → IsSilent t
    → IsSpelling ((n, j) ∷ parts)
    → HasNoLinks t.host t.bindings 0 [] ((n, j) ∷ parts)
    → finality_of_spelling ((n, j) ∷ parts) ≡ Finality.final_normal
    → resolve [] ((n, j) ∷ parts) ≡ g ++ r
    → length (replicate (suc k) slash ++ spell ((n, j) ∷ parts)) + 5 < path_max
    → length parts < fuel
    → get_binding t.bindings Side.guest_side (render (g ++ r)) ≡ some b
    → get_binding t.bindings Side.host_side (render (h ++ r)) ≡ some b
    → b.need_substitution ≡ true
    → b.guest ≡ render g
    → b.host ≡ render h
    → AreNames g
    → AreNames h
    → AreNames r
    → 0 < length g + length h
    → length (render h) + length (render r) < path_max
    → length (render g) + length (render r) < path_max
    → length (render (h ++ r)) < path_max
    → (translate_path fuel t dir_fd (replicate (suc k) slash ++ spell ((n, j) ∷ parts)) deref_final
        ≡ some (some (ok (render (h ++ r)))))
      × ((readlink_proc2 : Bytes → Bytes → Result (Option Bytes))
          → detranslate_path t.bindings readlink_proc2 (render (h ++ r)) none
            ≡ ok (length (render (g ++ r)) + 1, render (g ++ r)))
translate_path-detranslate_path fuel t dir_fd deref_final k n j parts b g h r silent i plain normal
      leads short enough fg fh ns eg eh ag ah ar ne fits fits' fits'' =
    let rest = replicate k slash ++ spell ((n, j) ∷ parts) in
    let both = λ (readlink_proc2 : Bytes → Bytes → Result (Option Bytes)).
      detranslate_path-substitute_binding t.bindings readlink_proc2 b g h r fg fh ns eg eh ag ah ar
        ne fits fits' fits'' in
    (
      translate_path-canonicalize fuel t dir_fd rest deref_final silent (omega arith)
          ∙ ap (on_host t) (
              canonicalize-resolve fuel t.host t.bindings deref_final [] (suc k) n j parts tt i
                plain (omega arith) enough
              ∙ ap (λ f. some (some (ok (with_finality f (resolve [] ((n, j) ∷ parts)))))) normal
              ∙ ap (λ p. some (some (ok (render p)))) leads)
          ∙ on_host-bound t (render (g ++ r)) (render (h ++ r)) 1 silent (both (λ p q. ok none)).0,
      λ readlink_proc2. (both readlink_proc2).1,
    )
