-- ===== src/Canon/Resolve.antt =====
-- canonicalize on a path without links gives the path that the names spell.
use xyzterm.Common.{
  ℕ, zero, suc, ◌+◌, ◌<◌, ◌≤◌, ◌≡◌, ◌≢◌, refl, ap, ◌∙◌, List, [], ◌∷◌, ◌++◌, some, Bool, true,
  false, arith, leb, ltb, ◌==◌, length, length-append, replicate, ok,
}
use xyzterm.Path.{Bytes, path_max, slash, byte_at}
use xyzterm.Path.Names.{IsName, AreNames, render}
use xyzterm.Binding.{Bindings}
use xyzterm.Host.{Host}
use xyzterm.Canon.{Run, entered, called, canonicalize_loop, canonicalize}
use xyzterm.Canon.Lexical.{
  resolve_name, Spelling, spell, resolve, finality_of_spelling, with_finality, IsSpelling,
  HasNoLinks, resolve_name-length, resolve_name-AreNames,
}
use xyzterm.Canon.Spelling.{finish-with_finality, spell_start, IsName-of_spelling, spell-length}
use xyzterm.Canon.Loop.{loop-resolve}

resolve-AreNames :
    (n : Bytes) (j : ℕ) (parts : Spelling) (ns : List Bytes)
    → AreNames ns
    → IsSpelling ((n, j) ∷ parts)
    → AreNames (resolve ns ((n, j) ∷ parts))
resolve-AreNames n j [] ns a i = resolve_name-AreNames ns n a i.0
resolve-AreNames n j ((m, l) ∷ parts) ns a i =
    resolve-AreNames m l parts (resolve_name ns n) (resolve_name-AreNames ns n a i.0) i.3

resolve-length :
    (n : Bytes) (j : ℕ) (parts : Spelling) (ns : List Bytes)
    → IsSpelling ((n, j) ∷ parts)
    → length (render (resolve ns ((n, j) ∷ parts)))
      ≤ length (render ns) + length (spell ((n, j) ∷ parts)) + 1
resolve-length n j [] ns i = omega (arith, spell-length n j [], resolve_name-length ns n)
resolve-length n j ((m, l) ∷ parts) ns i = omega (
  arith,
  i.2,
  spell-length n j ((m, l) ∷ parts),
  resolve_name-length ns n,
  resolve-length m l parts (resolve_name ns n) i.3,
)

-- An absolute path is resolved from the root.
abbrev pub start : ℕ → List Bytes → List Bytes
start zero base = base
start (suc k) base = []

entered_relative :
    (h : Host) (user_path guest_path : Bytes)
    → (byte_at user_path 0 == slash) ≡ false
    → (byte_at guest_path 0 == slash) ≡ true
    → length guest_path < path_max
    → entered h 0 user_path guest_path ≡ ok guest_path
entered_relative h user_path guest_path e f lt =
    let m : ltb h.max_symlinks 0 ≡ false = ground arith in
    let g : leb path_max (length guest_path) ≡ false = ground arith in rw (m, g, e, f) refl

entered_absolute :
    (h : Host) (user_path guest_path : Bytes)
    → (byte_at user_path 0 == slash) ≡ true
    → length guest_path < path_max
    → entered h 0 user_path guest_path ≡ ok (slash ∷ [])
entered_absolute h user_path guest_path e lt =
    let m : ltb h.max_symlinks 0 ≡ false = ground arith in
    let g : leb path_max (length guest_path) ≡ false = ground arith in rw (m, g, e) refl

render_start : (ns : List Bytes) → (byte_at (render ns) 0 == slash) ≡ true
render_start [] = refl
render_start (n ∷ ns) = refl

entered-start :
    (h : Host) (k : ℕ) (n : Bytes) (j : ℕ) (parts : Spelling) (base : List Bytes)
    → IsName n
    → length (render base) < path_max
    → entered h 0 (replicate k slash ++ spell ((n, j) ∷ parts)) (render base)
      ≡ ok (render (start k base))
entered-start h zero n j parts base i lt =
    let st = spell_start n j parts i in
    let x = st.0 in
    let ne : x ≢ slash = st.3 in
    let f : (x == slash) ≡ false = ground arith in
    entered_relative h (spell ((n, j) ∷ parts)) (render base)
      (ap (λ p. byte_at p 0 == slash) st.2 ∙ f) (render_start base) lt
entered-start h (suc k) n j parts base i lt =
    entered_absolute h (replicate (suc k) slash ++ spell ((n, j) ∷ parts)) (render base) refl lt

start-AreNames : (k : ℕ) (base : List Bytes) → AreNames base → AreNames (start k base)
start-AreNames zero base h = h
start-AreNames (suc k) base h = tt

start-length : (k : ℕ) (base : List Bytes) → length (render (start k base)) ≤ length (render base)
start-length zero base = omega arith
start-length (suc k) [] = omega arith
start-length (suc k) (n ∷ base) = omega arith

-- Where the components of the path exist, none is a link, and all but the last are directories,
-- canonicalize gives the path that its names spell: "." is
-- dropped, ".." goes up and stops at the root, an absolute path begins at the root and a relative one
-- at the canonical path that is given, runs of slashes count as one, and a last "/", "." or ".." leaves
-- its mark. The path fits, with the base and a few bytes, and has names shorter than NAME_MAX; the fuel
-- is a round for each name.
pub canonicalize-resolve :
    (fuel : ℕ) (h : Host) (s : Bindings) (deref_final : Bool) (base : List Bytes) (k : ℕ)
    (n : Bytes) (j : ℕ) (parts : Spelling)
    → AreNames base
    → IsSpelling ((n, j) ∷ parts)
    → HasNoLinks h s 0 (start k base) ((n, j) ∷ parts)
    → length (render base) + length (replicate k slash ++ spell ((n, j) ∷ parts)) + 4 < path_max
    → length parts < fuel
    → canonicalize fuel h s
        (replicate k slash ++ spell ((n, j) ∷ parts))
        deref_final
        (render base)
        0
      ≡ some (
          some (
            ok (
              with_finality
                (finality_of_spelling ((n, j) ∷ parts))
                (resolve (start k base) ((n, j) ∷ parts)))))
unfolding canonicalize
canonicalize-resolve fuel h s deref_final base k n j parts a i plain lt enough =
    let from = start k base in
    let path = replicate k slash ++ spell ((n, j) ∷ parts) in
    let loop : Bytes → Run = λ p. canonicalize_loop fuel h s 0 0 deref_final path p in
    let short : length (render from) + length (spell ((n, j) ∷ parts)) + 4 < path_max =
      omega
        (arith, start-length k base, length-append (replicate k slash) (spell ((n, j) ∷ parts))) in
    ap (called loop)
      (entered-start h k n j parts base (IsName-of_spelling n j parts i) (omega arith))
    ∙ loop-resolve h s 0 0 deref_final fuel k n j parts from (start-AreNames k base a) i
        (omega arith) plain enough
    ∙ ap (λ q. some (some q))
        (finish-with_finality (finality_of_spelling ((n, j) ∷ parts))
          (resolve from ((n, j) ∷ parts))
          (resolve-AreNames n j parts from (start-AreNames k base a) i)
          (omega (arith, resolve-length n j parts from i)))
