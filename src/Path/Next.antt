-- ===== src/Path/Next.antt =====
-- next_component of path/canon.c on any path, taken apart into slashes and a name.
use xyzterm.Common.{
  ℕ, zero, suc, ◌≡◌, refl, ap, ◌∙◌, ◌≢◌, [], ◌∷◌, ◌++◌, false, arith, length, leb, ltb, ◌==◌,
  if◌then◌else◌, replicate, ok, err, enametoolong,
}
use xyzterm.Path.{
  Bytes, name_max, slash, byte_at, skip_slashes, before_slash, from_slash, finality_of,
  next_component,
}
use xyzterm.Path.Names.{Clean, IsName}

-- What follows a name: the end, or slashes and then something that begins with no slash.
abbrev pub Follows : ℕ → Bytes → Type 0
Follows j [] = Unit {0}
Follows zero (x ∷ rest) = ⊥
Follows (suc j) (x ∷ rest) = x ≢ slash

skip_replicate : (k : ℕ) (p : Bytes) → skip_slashes (replicate k slash ++ p) ≡ skip_slashes p
skip_replicate zero p = refl
skip_replicate (suc k) p = skip_replicate k p

skip_name : (n p : Bytes) → IsName n → skip_slashes (n ++ p) ≡ n ++ p
skip_name [] p h = absurd (omega arith)
skip_name (x ∷ n) p h =
    let ne : x ≢ slash = h.1.0 in let f : (x == slash) ≡ false = ground arith in rw (f) refl

skip_rest : (j : ℕ) (rest : Bytes) → Follows j rest → skip_slashes rest ≡ rest
skip_rest j [] h = refl
skip_rest zero (x ∷ rest) h = elim h [ ]
skip_rest (suc j) (x ∷ rest) h =
    let ne : x ≢ slash = h in let f : (x == slash) ≡ false = ground arith in rw (f) refl

before_name :
    (n : Bytes) (j : ℕ) (rest : Bytes)
    → Clean n
    → Follows j rest
    → before_slash (n ++ (replicate j slash ++ rest)) ≡ n
before_name [] zero [] c h = refl
before_name [] zero (x ∷ rest) c h = elim h [ ]
before_name [] (suc j) rest c h = refl
before_name (x ∷ n) j rest c h =
    let ne : x ≢ slash = c.0 in
    let f : (x == slash) ≡ false = ground arith in
    rw (f) (ap (λ t. x ∷ t) (before_name n j rest c.2 h))

from_name :
    (n : Bytes) (j : ℕ) (rest : Bytes)
    → Clean n
    → Follows j rest
    → from_slash (n ++ (replicate j slash ++ rest)) ≡ replicate j slash ++ rest
from_name [] zero [] c h = refl
from_name [] zero (x ∷ rest) c h = elim h [ ]
from_name [] (suc j) rest c h = refl
from_name (x ∷ n) j rest c h =
    let ne : x ≢ slash = c.0 in
    let f : (x == slash) ≡ false = ground arith in rw (f) (from_name n j rest c.2 h)

want_dir_of :
    (j : ℕ) (rest : Bytes)
    → Follows j rest
    → (byte_at (replicate j slash ++ rest) 0 == slash) ≡ ltb 0 j
want_dir_of zero [] h = refl
want_dir_of zero (x ∷ rest) h = elim h [ ]
want_dir_of (suc j) rest h = ground arith

-- next_component passes over the slashes before a name, gives the name, and passes over those behind
-- it; the name is the last one where nothing is left, and names a directory there if slashes were
-- behind it. A name of NAME_MAX bytes or more is -ENAMETOOLONG.
pub next_component_lem :
    (k : ℕ) (n : Bytes) (j : ℕ) (rest : Bytes)
    → IsName n
    → Follows j rest
    → next_component (replicate k slash ++ (n ++ (replicate j slash ++ rest))) ≡ (
        if leb name_max (length n)
        then err enametoolong
        else ok (finality_of (ltb 0 j) rest, n, rest))
unfolding next_component
next_component_lem k n j rest hn hr =
    rw
      (
        skip_replicate k (n ++ (replicate j slash ++ rest))
            ∙ skip_name n (replicate j slash ++ rest) hn,
        before_name n j rest hn.1 hr,
        from_name n j rest hn.1 hr,
        want_dir_of j rest hr,
        skip_replicate j rest ∙ skip_rest j rest hr,
      )
      refl
