-- ===== src/Path/Tests.antt =====
-- The properties of paths at concrete paths.
use xyzterm.Common.{ℕ, zero, suc, length-replicate, ◌≡◌, [], ◌∷◌, replicate, length, arith}
use xyzterm.Path.{Bytes, Comparison, compare_paths}
use xyzterm.Path.Names.{Clean, IsName, AreNames, render}
use xyzterm.Path.Compare.{compare_paths-render}

abbrev usr : Bytes
usr = b'u' ∷ b's' ∷ b'r' ∷ []

abbrev lib : Bytes
lib = b'l' ∷ b'i' ∷ b'b' ∷ []

usr-IsName : IsName usr
usr-IsName = (
  omega arith,
  (
    λ e. absurd (omega (arith, e)),
    λ e. absurd (omega (arith, e)),
    (
      λ e. absurd (omega (arith, e)),
      λ e. absurd (omega (arith, e)),
      (λ e. absurd (omega (arith, e)), λ e. absurd (omega (arith, e)), tt),
    ),
  ),
)

lib-IsName : IsName lib
lib-IsName = (
  omega arith,
  (
    λ e. absurd (omega (arith, e)),
    λ e. absurd (omega (arith, e)),
    (
      λ e. absurd (omega (arith, e)),
      λ e. absurd (omega (arith, e)),
      (λ e. absurd (omega (arith, e)), λ e. absurd (omega (arith, e)), tt),
    ),
  ),
)

-- A name of 4100 bytes.
abbrev long : Bytes
long = replicate 4100 b'a'

replicate-Clean : (k : ℕ) → Clean (replicate k b'a')
replicate-Clean zero = tt
replicate-Clean (suc k) =
    (λ e. absurd (omega (arith, e)), λ e. absurd (omega (arith, e)), replicate-Clean k)

long_length : length long ≡ 4100
long_length = length-replicate {A = ℕ} 4100 b'a'

long-IsName : IsName long
long-IsName = (omega (arith, long_length), replicate-Clean 4100)

usr-AreNames : AreNames (usr ∷ [])
usr-AreNames = (usr-IsName, tt)

lib-AreNames : AreNames (lib ∷ [])
lib-AreNames = (lib-IsName, tt)

both-AreNames : AreNames (usr ∷ lib ∷ [])
both-AreNames = (usr-IsName, lib-AreNames)

compare_paths-render_example :
    compare_paths (render (usr ∷ [])) (render (usr ∷ lib ∷ [])) ≡ Comparison.path1_is_prefix
compare_paths-render_example =
    compare_paths-render (usr ∷ []) (usr ∷ lib ∷ []) usr-AreNames both-AreNames
