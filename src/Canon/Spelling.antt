-- ===== src/Canon/Spelling.antt =====
-- The components of a path that is spelled as names and slashes, and the exit of canonicalize.
use xyzterm.Common.{
  ℕ, zero, suc, ◌+◌, ◌<◌, ◌≡◌, ◌≢◌, refl, ap, sym, ◌∙◌, List, [], ◌∷◌, ◌++◌, some, true, false, inl,
  inr, arith, if_both, Bool-cases, subst, leb, ltb, length, length-append, length-replicate,
  replicate, ok,
}
use xyzterm.Path.{Bytes, path_max, name_max, slash, Finality, next_component, finality_of}
use xyzterm.Path.Names.{IsName, AreNames, render}
use xyzterm.Path.Next.{Follows, next_component_lem}
use xyzterm.Path.Join.{join_paths-slash}
use xyzterm.Path.Compare.{same_name}
use xyzterm.Host.{is_final}
use xyzterm.Canon.{Run, dot, dot_dot, finish, continued}
use xyzterm.Canon.Lexical.{
  Spelling, spell, last_finality, with_finality, IsSpelling, slashes_finality, turned, dot-IsName,
  join_fits,
}

pub finish-with_finality :
    (finality : Finality) (ns : List Bytes)
    → AreNames ns
    → length (render ns) + 3 < path_max
    → finish 0 finality (render ns) ≡ ok (with_finality finality ns)
finish-with_finality Finality.not_final ns h lt = refl
finish-with_finality Finality.final_normal ns h lt = refl
finish-with_finality Finality.final_slash ns h lt = join_paths-slash ns h (omega arith)
finish-with_finality Finality.final_dot ns h lt = join_fits ns dot h dot-IsName (omega arith)

pub turned-last_finality : (n : Bytes) (j : ℕ) → turned n (slashes_finality j) ≡ last_finality n j
turned-last_finality n j = elim (Bool-cases (ltb 0 j)) [ inl e ↦ rw (e) refl | inr e ↦ rw (e) refl ]

pub turned-not_final : (n : Bytes) → turned n Finality.not_final ≡ Finality.not_final
turned-not_final n =
    if_both (λ r. r ≡ Finality.not_final) (same_name n dot) (λ e. refl)
      λ e. if_both (λ r. r ≡ Finality.not_final) (same_name n dot_dot) (λ f. refl) (λ f. refl)

pub last_finality-final : (n : Bytes) (j : ℕ) → is_final (last_finality n j) ≡ true
last_finality-final n j =
    let P : Finality → Type 0 = λ r. is_final r ≡ true in
    if_both P (same_name n dot) (λ e. refl)
      λ e.
        if_both P (same_name n dot_dot) (λ f. refl) λ f. if_both P (ltb 0 j) (λ g. refl) (λ g. refl)

pub continued_final :
    (recursion_level : ℕ) (finality : Finality) (again : Bytes → Run) (guest_path : Bytes)
    → is_final finality ≡ true
    → continued recursion_level finality again guest_path
      ≡ some (some (finish recursion_level finality guest_path))
continued_final recursion_level finality again guest_path h = rw (h, continued) refl

-- A spelling begins with a byte that is no slash.
pub spell_start :
    (n : Bytes) (j : ℕ) (parts : Spelling)
    → IsName n
    → (x : ℕ) × (r : Bytes) × (spell ((n, j) ∷ parts) ≡ x ∷ r) × (x ≢ slash)
spell_start [] j parts h = absurd (omega arith)
spell_start (x ∷ n) j parts h = (x, n ++ (replicate j slash ++ spell parts), refl, h.1.0)

pub IsName-of_spelling :
    (n : Bytes) (j : ℕ) (parts : Spelling) → IsSpelling ((n, j) ∷ parts) → IsName n
IsName-of_spelling n j [] h = h.0
IsName-of_spelling n j (part ∷ parts) h = h.0

pub next_of_spelling :
    (k : ℕ) (n : Bytes) (j : ℕ) (part : Bytes × ℕ) (parts : Spelling)
    → IsSpelling ((n, j) ∷ part ∷ parts)
    → next_component (replicate k slash ++ spell ((n, j) ∷ part ∷ parts))
      ≡ ok (Finality.not_final, n, spell (part ∷ parts))
next_of_spelling k n zero part parts h = absurd (omega arith)
next_of_spelling k n (suc j) (m, i) parts h =
    let st = spell_start m i parts (IsName-of_spelling m i parts h.3) in
    let x = st.0 in
    let r = st.1 in
    let behind : Follows (suc j) (spell ((m, i) ∷ parts)) =
      subst (Follows (suc j)) (sym st.2) st.3 in
    let short : leb name_max (length n) ≡ false = ground arith in
    let some_slash : ltb 0 (suc j) ≡ true = ground arith in
    next_component_lem k n (suc j) (spell ((m, i) ∷ parts)) h.0 behind
    ∙ rw (short, some_slash) (ap (λ t. ok (finality_of true t, n, spell ((m, i) ∷ parts))) st.2)

pub last_of_spelling :
    (k : ℕ) (n : Bytes) (j : ℕ)
    → IsSpelling ((n, j) ∷ [])
    → next_component (replicate k slash ++ spell ((n, j) ∷ [])) ≡ ok (slashes_finality j, n, [])
last_of_spelling k n j h =
    let short : leb name_max (length n) ≡ false = ground arith in
    next_component_lem k n j [] h.0 tt ∙ rw (short) refl

pub spell-length :
    (n : Bytes) (j : ℕ) (parts : Spelling)
    → length (spell ((n, j) ∷ parts)) ≡ length n + j + length (spell parts)
spell-length n j parts = omega (
  arith,
  length-append n (replicate j slash ++ spell parts),
  length-append (replicate j slash) (spell parts),
  length-replicate {A = ℕ} j slash,
)
