-- ===== src/Path/Pop.antt =====
-- pop_component of path/canon.c on canonical paths.
use xyzterm.Common.{
  ℕ, zero, suc, ◌+◌, ◌-◌, ◌<◌, ◌≤◌, ◌≡◌, refl, ap, sym, ◌∙◌, ◌≢◌, List, [], ◌∷◌, ◌++◌, Bool, true,
  false, arith, length, length-append, append-nil, ltb, ◌==◌, not, take, ◌<◌,
}
use xyzterm.Path.{Bytes, slash, byte_at, last_byte, back_while, pop_component, chop_finality}
use xyzterm.Path.Names.{
  Clean, IsName, AreNames, behind_slashes, render, behind_slashes-append, last_byte-append,
}

byte_at-append : (xs ys : Bytes) (k : ℕ) → byte_at (xs ++ ys) (length xs + k) ≡ byte_at ys k
byte_at-append [] ys k = ap (byte_at ys) (omega arith)
byte_at-append (x ∷ xs) ys k =
    let e : suc (length xs) + k ≡ suc (length xs + k) = omega arith in
    rw (e) (byte_at-append xs ys k)

byte_at-Clean : (n : Bytes) (k : ℕ) → Clean n → k < length n → byte_at n k ≢ slash
byte_at-Clean [] k h lt = absurd (omega arith)
byte_at-Clean (x ∷ xs) zero h lt = h.0
byte_at-Clean (x ∷ xs) (suc k) h lt = byte_at-Clean xs k h.2 (omega arith)

take-append : (xs ys : Bytes) → take (length xs) (xs ++ ys) ≡ xs
take-append [] ys = refl
take-append (x ∷ xs) ys = ap (λ t. x ∷ t) (take-append xs ys)

back_while_stop :
    (test : ℕ → Bool) (p : Bytes) (k : ℕ) → test (byte_at p k) ≡ false → back_while test p k ≡ k
unfolding back_while
back_while_stop test p zero h = refl
back_while_stop test p (suc zero) h = refl
back_while_stop test p (suc (suc k)) h = rw (h) refl

back_while_step :
    (test : ℕ → Bool) (p : Bytes) (k : ℕ)
    → test (byte_at p (suc (suc k))) ≡ true
    → back_while test p (suc (suc k)) ≡ back_while test p (suc k)
unfolding back_while
back_while_step test p k h = rw (h) refl

back_while_one : (test : ℕ → Bool) (p : Bytes) → back_while test p 1 ≡ 1
unfolding back_while
back_while_one test p = refl

abbrev stop_of : ℕ → ℕ
stop_of zero = 1
stop_of (suc m) = suc m

-- From inside the last name the second loop goes back to the slash before it.
back_to_slash :
    (xs n : Bytes) (k : ℕ)
    → Clean n
    → k ≤ length n
    → 0 < length xs + k
    → back_while (λ b. not (b == slash)) (xs ++ (slash ∷ n)) (length xs + k) ≡ stop_of (length xs)
back_to_slash [] n zero c le pos = absurd (omega arith)
back_to_slash (x ∷ xs) n zero c le pos =
    let e : length (x ∷ xs) + 0 ≡ length (x ∷ xs) = omega arith in
    let at : byte_at ((x ∷ xs) ++ (slash ∷ n)) (length (x ∷ xs)) ≡ slash =
      sym (ap (byte_at ((x ∷ xs) ++ (slash ∷ n))) e) ∙ byte_at-append (x ∷ xs) (slash ∷ n) 0 in
    rw (e) (
      back_while_stop (λ b. not (b == slash)) ((x ∷ xs) ++ (slash ∷ n)) (length (x ∷ xs))
        (rw (at) refl))
back_to_slash [] n (suc zero) c le pos = back_while_one (λ b. not (b == slash)) (slash ∷ n)
back_to_slash [] n (suc (suc k)) c le pos =
    let e : 0 + suc (suc k) ≡ suc (suc k) = omega arith in
    let ne : byte_at n (suc k) ≢ slash = byte_at-Clean n (suc k) c (omega arith) in
    let t : not (byte_at (slash ∷ n) (suc (suc k)) == slash) ≡ true = ground arith in
    let e' : 0 + suc k ≡ suc k = omega arith in
    ap (back_while (λ b. not (b == slash)) (slash ∷ n)) e
    ∙ back_while_step (λ b. not (b == slash)) (slash ∷ n) k t
    ∙ sym (ap (back_while (λ b. not (b == slash)) (slash ∷ n)) e')
    ∙ back_to_slash [] n (suc k) c (omega arith) (omega arith)
back_to_slash (x ∷ xs) n (suc k) c le pos =
    let e : length (x ∷ xs) + suc k ≡ suc (suc (length xs + k)) = omega arith in
    let at : byte_at ((x ∷ xs) ++ (slash ∷ n)) (suc (suc (length xs + k))) ≡ byte_at n k =
      sym (ap (byte_at ((x ∷ xs) ++ (slash ∷ n))) e)
      ∙ byte_at-append (x ∷ xs) (slash ∷ n) (suc k) in
    let ne : byte_at n k ≢ slash = byte_at-Clean n k c (omega arith) in
    let t : not (byte_at ((x ∷ xs) ++ (slash ∷ n)) (suc (suc (length xs + k))) == slash) ≡ true =
      ground arith in
    let e' : length (x ∷ xs) + k ≡ suc (length xs + k) = omega arith in
    ap (back_while (λ b. not (b == slash)) ((x ∷ xs) ++ (slash ∷ n))) e
    ∙ back_while_step (λ b. not (b == slash)) ((x ∷ xs) ++ (slash ∷ n)) (length xs + k) t
    ∙ sym (ap (back_while (λ b. not (b == slash)) ((x ∷ xs) ++ (slash ∷ n))) e')
    ∙ back_to_slash (x ∷ xs) n k c (omega arith) (omega arith)

pop_at :
    (xs n : Bytes)
    → IsName n
    → pop_component (xs ++ (slash ∷ n)) ≡ take (stop_of (length xs)) (xs ++ (slash ∷ n))
unfolding pop_component
pop_at xs [] h = absurd (omega arith)
pop_at xs (y ∷ n) h =
    let p = xs ++ (slash ∷ y ∷ n) in
    let o : length p - 1 ≡ length xs + length (y ∷ n) =
      omega (arith, length-append xs (slash ∷ y ∷ n)) in
    let z : (length xs + length (y ∷ n) == 0) ≡ false = ground arith in
    let e : length xs + suc (length n) ≡ length xs + suc (length n) = refl in
    let at : byte_at p (length xs + suc (length n)) ≡ byte_at (y ∷ n) (length n) =
      byte_at-append xs (slash ∷ y ∷ n) (suc (length n)) in
    let ne : byte_at (y ∷ n) (length n) ≢ slash =
      byte_at-Clean (y ∷ n) (length n) h.1 (omega arith) in
    let t : (byte_at p (length xs + suc (length n)) == slash) ≡ false = ground arith in
    let stop = back_while_stop (λ b. b == slash) p (length xs + suc (length n)) t in
    let back = back_to_slash xs (y ∷ n) (length (y ∷ n)) h.1 (omega arith) (omega arith) in
    rw (o, z)
      (ap (λ k. take (back_while (λ b. not (b == slash)) p k) p) stop ∙ ap (λ k. take k p) back)

render-snoc :
    (cs : List Bytes) (n : Bytes) → render (cs ++ (n ∷ [])) ≡ behind_slashes cs ++ (slash ∷ n)
render-snoc [] n = ap (λ t. slash ∷ t) (append-nil n)
render-snoc (c ∷ cs) n =
    behind_slashes-append (c ∷ cs) (n ∷ [])
    ∙ ap (λ t. behind_slashes (c ∷ cs) ++ (slash ∷ t)) (append-nil n)

take_at_stop :
    (cs : List Bytes) (n : Bytes)
    → take (stop_of (length (behind_slashes cs))) (behind_slashes cs ++ (slash ∷ n)) ≡ render cs
take_at_stop [] n = refl
take_at_stop (c ∷ cs) n = take-append (behind_slashes (c ∷ cs)) (slash ∷ n)

-- On a canonical path pop_component takes the last name away, and leaves the root alone.
pub pop_component-render :
    (cs : List Bytes) (n : Bytes)
    → AreNames cs
    → IsName n
    → (pop_component (render (cs ++ (n ∷ []))) ≡ render cs)
      × (pop_component (render []) ≡ render [])
unfolding pop_component
pop_component-render cs n h hn =
    (rw (render-snoc cs n) (pop_at (behind_slashes cs) n hn ∙ take_at_stop cs n), refl)

last_of_slash_name : (xs n : Bytes) (y : ℕ) → last_byte (xs ++ (slash ∷ n ++ (y ∷ []))) ≡ y
last_of_slash_name xs n y =
    last_byte-append xs (n ++ (y ∷ [])) slash ∙ last_byte-append (slash ∷ n) [] y

chop_dot :
    (xs : Bytes)
    → chop_finality (xs ++ (slash ∷ b'.' ∷ []))
      ≡ take (stop_of (length xs)) (xs ++ (slash ∷ b'.' ∷ []))
unfolding chop_finality
chop_dot [] = refl
chop_dot (x ∷ xs) =
    let l : length ((x ∷ xs) ++ (slash ∷ b'.' ∷ [])) ≡ suc (suc (suc (length xs))) =
      omega (arith, length-append (x ∷ xs) (slash ∷ b'.' ∷ [])) in
    let m : suc (suc (suc (length xs))) - 2 ≡ suc (length xs) = omega arith in
    let z : (suc (suc (suc (length xs))) == 2) ≡ false = ground arith in
    rw (last_byte-append (x ∷ xs) (b'.' ∷ []) slash, l, z, m) refl

chop_slash : (xs : Bytes) → 0 < length xs → chop_finality (xs ++ (slash ∷ [])) ≡ xs
unfolding chop_finality
chop_slash xs pos =
    let l : length (xs ++ (slash ∷ [])) ≡ suc (length xs) =
      omega (arith, length-append xs (slash ∷ [])) in
    let m : suc (length xs) - 1 ≡ length xs = omega arith in
    let t : ltb 1 (suc (length xs)) ≡ true = ground arith in
    rw (last_byte-append xs [] slash, l, t, m) (take-append xs (slash ∷ []))

-- A canonical path is what chop_finality leaves of it with "/." behind it, and, if it is not the root,
-- of it with "/" behind it.
pub chop_finality-render :
    (n : Bytes) (cs : List Bytes)
    → (chop_finality (render ((n ∷ cs) ++ ((b'.' ∷ []) ∷ []))) ≡ render (n ∷ cs))
      × (chop_finality (render ((b'.' ∷ []) ∷ [])) ≡ render [])
      × (chop_finality (render (n ∷ cs) ++ (slash ∷ [])) ≡ render (n ∷ cs))
chop_finality-render n cs = (
  ap chop_finality (render-snoc (n ∷ cs) (b'.' ∷ []))
      ∙ chop_dot (behind_slashes (n ∷ cs))
      ∙ take_at_stop (n ∷ cs) (b'.' ∷ []),
  chop_dot [],
  chop_slash (render (n ∷ cs)) (omega arith),
)
