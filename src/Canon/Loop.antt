-- ===== src/Canon/Loop.antt =====
-- canonicalize on a path without links: the loop over the names.
use xyzterm.Common.{
  ℕ, zero, suc, ◌+◌, ◌<◌, ◌≡◌, ap, ◌∙◌, List, [], ◌∷◌, ◌++◌, some, Bool, true, arith, length,
  replicate,
}
use xyzterm.Path.{Bytes, path_max, slash, Finality}
use xyzterm.Path.Names.{AreNames, render}
use xyzterm.Binding.{Bindings}
use xyzterm.Host.{Host}
use xyzterm.Canon.{Turn, turn, finish, after_turn, canonicalize_loop}
use xyzterm.Canon.Lexical.{
  resolve_name, Spelling, spell, resolve, last_finality, finality_of_spelling, IsSpelling,
  NameIsNoLink, HasNoLinks, slashes_finality, resolve_name-length, resolve_name-AreNames,
  turn-resolve_name,
}
use xyzterm.Canon.Spelling.{
  turned-last_finality, turned-not_final, last_finality-final, continued_final, next_of_spelling,
  last_of_spelling, spell-length,
}

module _ (h : Host) (s : Bindings) (recursion_level symlinks_followed : ℕ)
    (deref_final : Bool) where
  loop_last :
      (fuel k : ℕ) (n : Bytes) (j : ℕ) (ns : List Bytes)
      → AreNames ns
      → IsSpelling ((n, j) ∷ [])
      → length (render ns) + length n + 2 < path_max
      → NameIsNoLink h s recursion_level (slashes_finality j) ns n
      → canonicalize_loop
          (suc fuel)
          h
          s
          recursion_level
          symlinks_followed
          deref_final
          (replicate k slash ++ spell ((n, j) ∷ []))
          (render ns)
        ≡ some (some (finish recursion_level (last_finality n j) (render (resolve_name ns n))))
  unfolding canonicalize_loop
  loop_last fuel k n j ns a i lt plain =
      let t : turn h s recursion_level deref_final (render ns) (slashes_finality j) n
          ≡ Turn.goes_on (last_finality n j) (render (resolve_name ns n)) =
        turn-resolve_name h s recursion_level deref_final ns (slashes_finality j) n a i.0 lt plain
        ∙ ap (λ f. Turn.goes_on f (render (resolve_name ns n))) (turned-last_finality n j) in
      rw (last_of_spelling k n j i, canonicalize_loop)
        (ap
            (after_turn h s recursion_level (recursion_level + suc symlinks_followed)
              (λ p. canonicalize_loop fuel h s recursion_level symlinks_followed deref_final [] p)
              (λ p.
                canonicalize_loop fuel h s recursion_level (suc symlinks_followed) deref_final [] p)
              (λ level' target p. canonicalize_loop fuel h s level' 0 true target p) (render ns))
            t
          ∙ continued_final recursion_level (last_finality n j)
              (λ p. canonicalize_loop fuel h s recursion_level symlinks_followed deref_final [] p)
              (render (resolve_name ns n)) (last_finality-final n j))

  loop_next :
      (fuel k : ℕ) (n : Bytes) (j : ℕ) (part : Bytes × ℕ) (parts : Spelling) (ns : List Bytes)
      → AreNames ns
      → IsSpelling ((n, j) ∷ part ∷ parts)
      → length (render ns) + length n + 2 < path_max
      → NameIsNoLink h s recursion_level Finality.not_final ns n
      → canonicalize_loop
          (suc fuel)
          h
          s
          recursion_level
          symlinks_followed
          deref_final
          (replicate k slash ++ spell ((n, j) ∷ part ∷ parts))
          (render ns)
        ≡ canonicalize_loop fuel h s recursion_level symlinks_followed deref_final
            (spell (part ∷ parts))
            (render (resolve_name ns n))
  unfolding canonicalize_loop
  loop_next fuel k n j part parts ns a i lt plain =
      let rest = spell (part ∷ parts) in
      let t : turn h s recursion_level deref_final (render ns) Finality.not_final n
          ≡ Turn.goes_on Finality.not_final (render (resolve_name ns n)) =
        turn-resolve_name h s recursion_level deref_final ns Finality.not_final n a i.0 lt plain
        ∙ ap (λ f. Turn.goes_on f (render (resolve_name ns n))) (turned-not_final n) in
      rw (next_of_spelling k n j part parts i, canonicalize_loop)
        (ap
          (after_turn h s recursion_level (recursion_level + suc symlinks_followed)
            (λ p. canonicalize_loop fuel h s recursion_level symlinks_followed deref_final rest p)
            (λ p.
              canonicalize_loop fuel h s recursion_level (suc symlinks_followed) deref_final rest p)
            (λ level' target p. canonicalize_loop fuel h s level' 0 true target p) (render ns))
          t)

  pub loop-resolve :
      (fuel k : ℕ) (n : Bytes) (j : ℕ) (parts : Spelling) (ns : List Bytes)
      → AreNames ns
      → IsSpelling ((n, j) ∷ parts)
      → length (render ns) + length (spell ((n, j) ∷ parts)) + 3 < path_max
      → HasNoLinks h s recursion_level ns ((n, j) ∷ parts)
      → length parts < fuel
      → canonicalize_loop fuel h s recursion_level symlinks_followed deref_final
          (replicate k slash ++ spell ((n, j) ∷ parts))
          (render ns)
        ≡ some (
            some (
              finish recursion_level
                (finality_of_spelling ((n, j) ∷ parts))
                (render (resolve ns ((n, j) ∷ parts)))))
  loop-resolve zero k n j parts ns a i lt plain enough = absurd (omega arith)
  loop-resolve (suc fuel) k n j [] ns a i lt plain enough =
      loop_last fuel k n j ns a i (omega (arith, spell-length n j [])) plain
  loop-resolve (suc fuel) k n j ((m, l) ∷ parts) ns a i lt plain enough =
      let grown = spell-length n j ((m, l) ∷ parts) in
      loop_next fuel k n j (m, l) parts ns a i (omega (arith, grown)) plain.0
      ∙ loop-resolve fuel 0 m l parts (resolve_name ns n) (resolve_name-AreNames ns n a i.0) i.3
          (omega (arith, grown, i.2, resolve_name-length ns n)) plain.1 (omega arith)
