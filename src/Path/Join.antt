-- ===== src/Path/Join.antt =====
-- join_paths of path/path.c on canonical paths.
use xyzterm.Common.{
  ℕ, suc, ◌+◌, ◌<◌, ◌≤◌, ◌≡◌, refl, ap, sym, ◌∙◌, ◌≢◌, List, [], ◌∷◌, ◌++◌, some, true, false,
  arith, inl, inr, length, length-append, append-nil, ltb, leb, ◌==◌, tests, ◌>>=◌, Bool-cases,
  Result, ok, err, enametoolong,
}
use xyzterm.Path.{Bytes, path_max, slash, byte_at, last_byte, fit, join_step, join_paths}
use xyzterm.Path.Names.{
  IsName, AreNames, behind_slashes, render, behind_slashes-append, last_of_names,
}

name_start : (n : Bytes) → IsName n → (byte_at n 0 == slash) ≡ false
name_start [] h = refl
name_start (x ∷ xs) h = let ne : x ≢ slash = h.1.0 in ground arith

fit_cong : {a b : ℕ} {p q : Bytes} → a ≡ b → p ≡ q → fit a p ≡ fit b q
fit_cong e h = rw (e, h) refl

join_step-nil : (p : Bytes) → join_step [] p ≡ fit (length p) p
unfolding join_step
join_step-nil p = let e : 0 + length p ≡ length p = omega arith in fit_cong e refl

join_step-render :
    (cs : List Bytes) (n : Bytes)
    → AreNames cs
    → IsName n
    → join_step (render cs) n ≡ fit (length (render (cs ++ (n ∷ [])))) (render (cs ++ (n ∷ [])))
unfolding join_step
join_step-render [] n h hn =
    let l : 1 + length n ≡ suc (length (n ++ [])) = omega (arith, ap length (append-nil n)) in
    let p : slash ∷ n ≡ slash ∷ (n ++ []) = ap (λ t. slash ∷ t) (sym (append-nil n)) in
    rw (name_start n hn) (fit_cong l p)
join_step-render (c ∷ cs) n h hn =
    let ne : last_byte (render (c ∷ cs)) ≢ slash = last_of_names c cs h in
    let nf : (last_byte (render (c ∷ cs)) == slash) ≡ false = ground arith in
    let pos : ltb 0 (length (render (c ∷ cs))) ≡ true = ground arith in
    let e : render ((c ∷ cs) ++ (n ∷ [])) ≡ render (c ∷ cs) ++ (slash ∷ n) =
      behind_slashes-append (c ∷ cs) (n ∷ [])
      ∙ ap (λ t. render (c ∷ cs) ++ (slash ∷ t)) (append-nil n) in
    let l : length (render (c ∷ cs)) + length n + 1 ≡ length (render ((c ∷ cs) ++ (n ∷ []))) =
      omega (arith, ap length e, length-append (render (c ∷ cs)) (slash ∷ n)) in
    rw (nf, pos, name_start n hn) (fit_cong l (sym e))

fit-ok : (l : ℕ) (p : Bytes) → fit l p >>= (λ r. ok r) ≡ fit l p
fit-ok l p = elim (Bool-cases (leb path_max (l + 1))) [ inl e ↦ rw (e) refl | inr e ↦ rw (e) refl ]

fit_fails : (l : ℕ) (p : Bytes) → path_max ≤ l + 1 → fit l p ≡ err enametoolong
fit_fails l p h = let e : leb path_max (l + 1) ≡ true = ground arith in rw (e) refl

render_grows :
    (cs : List Bytes) (n : Bytes) → IsName n → length (render cs) < length (render (cs ++ (n ∷ [])))
render_grows [] n h = omega (arith, length-append n [])
render_grows (c ∷ cs) n h = omega (
  arith,
  ap length (behind_slashes-append (c ∷ cs) (n ∷ [])),
  length-append (render (c ∷ cs)) (behind_slashes (n ∷ [])),
  length-append n [],
)

-- Joining a name to a canonical path gives the canonical path with the name at its end, which the
-- function returns where it is shorter than PATH_MAX bytes with its NUL, and -ENAMETOOLONG where it
-- is not.
pub join_paths-render :
    (cs : List Bytes) (n : Bytes)
    → AreNames cs
    → IsName n
    → join_paths (some (render cs) ∷ some n ∷ [])
      ≡ fit (length (render (cs ++ (n ∷ [])))) (render (cs ++ (n ∷ [])))
unfolding join_paths
join_paths-render cs n h hn =
    let a = render cs in
    let then_n : Result Bytes → Result Bytes =
      λ r. r >>= (λ r'. join_step r' n >>= (λ r''. ok r'')) in
    let start : join_step [] a ≡ fit (length a) a = join_step-nil a in
    elim (Bool-cases (leb path_max (length a + 1))) [
      | inl e ↦
          let first : fit (length a) a ≡ err enametoolong = rw (e) refl in
          ap then_n (start ∙ first)
          ∙ sym (
              fit_fails (length (render (cs ++ (n ∷ [])))) (render (cs ++ (n ∷ [])))
                (omega (tests, e, render_grows cs n hn)))
      | inr e ↦
          let first : fit (length a) a ≡ ok a = rw (e) refl in
          ap then_n (start ∙ first)
          ∙ ap (λ r. r >>= (λ r'. ok r')) (join_step-render cs n h hn)
          ∙ fit-ok (length (render (cs ++ (n ∷ [])))) (render (cs ++ (n ∷ [])))
    ]

-- A canonical path with a slash behind it, which the root has.
abbrev pub render_slash : List Bytes → Bytes
render_slash [] = render []
render_slash (n ∷ ns) = render (n ∷ ns) ++ (slash ∷ [])

fits : (l : ℕ) (p : Bytes) → l + 1 < path_max → fit l p ≡ ok p
fits l p h = let e : leb path_max (l + 1) ≡ false = ground arith in rw (e) refl

join_step-slash :
    (ns : List Bytes)
    → AreNames ns
    → length (render ns) + 2 < path_max
    → join_step (render ns) [] ≡ ok (render_slash ns)
unfolding join_step
join_step-slash [] h lt = refl
join_step-slash (n ∷ ns) h lt =
    let ne : last_byte (render (n ∷ ns)) ≢ slash = last_of_names n ns h in
    let nf : (last_byte (render (n ∷ ns)) == slash) ≡ false = ground arith in
    let pos : ltb 0 (length (render (n ∷ ns))) ≡ true = ground arith in
    rw (nf, pos)
      (fits (length (render (n ∷ ns)) + 0 + 1) (render (n ∷ ns) ++ (slash ∷ [])) (omega arith))

-- Joining the empty path puts a slash behind a canonical path.
pub join_paths-slash :
    (ns : List Bytes)
    → AreNames ns
    → length (render ns) + 2 < path_max
    → join_paths (some (render ns) ∷ some [] ∷ []) ≡ ok (render_slash ns)
unfolding join_paths
join_paths-slash ns h lt =
    let then_slash : Result Bytes → Result Bytes =
      λ r. r >>= (λ r'. join_step r' [] >>= (λ r''. ok r'')) in
    ap then_slash (join_step-nil (render ns) ∙ fits (length (render ns)) (render ns) (omega arith))
    ∙ ap (λ r. r >>= (λ r'. ok r')) (join_step-slash ns h lt)
