-- ===== src/Common/Decimal.antt =====
-- C's "%d", strtol in base 10 and atoi, on lists of bytes.
use Prim.Native.Nat.{ℕ, zero, suc, ◌+◌, ◌-◌, ◌*◌, ◌/◌, ◌%◌, ◌^◌, ◌<◌}
use mathlib.Core.Path.{◌≡◌, refl, ap, ◌∙◌}
use mathlib.Core.Logic.{inl, inr}
use mathlib.Core.Bool.{Bool, true, false, ◌&&◌, ◌||◌}
use mathlib.Core.Option.{Option, none, some}
use mathlib.Core.List.{List, [], ◌∷◌, ◌++◌}
use native.Mathlib.Omega.{arith}
use xyzterm.Common.Tests.{ltb, leb, ◌==◌, if◌then◌else◌, Bool-cases}
use xyzterm.Common.Int.{ℤ, pos, negsuc}

-- The digits of a number below 10 ^ k, before those of `out`.
abbrev pub emit : ℕ → ℕ → List ℕ → List ℕ
emit zero n out = out
emit (suc k) n out =
    let longer = emit k (n / 10) ((b'0' + n % 10) ∷ out) in
    if ltb n 10 then (b'0' + n) ∷ out else longer

-- "%d": an `int` has at most ten digits.
unfoldable pub print_int : ℤ → List ℕ
print_int (pos n) = emit 10 n []
print_int (negsuc n) = b'-' ∷ emit 10 (suc n) []

abbrev pub is_digit : ℕ → Bool
is_digit c = leb b'0' c && leb c b'9'

-- The number at the start, behind the digits that made n.
abbrev pub scan : List ℕ → ℕ → ℕ
scan [] n = n
scan (c ∷ s) n = if is_digit c then scan s (n * 10 + (c - b'0')) else n

abbrev pub scan_digits : List ℕ → Option ℕ
scan_digits [] = none
scan_digits (c ∷ s) = if is_digit c then some (scan (c ∷ s) 0) else none

abbrev pub is_space : ℕ → Bool
is_space c = c == b' ' || leb 9 c && leb c 13

abbrev pub skip_spaces : List ℕ → List ℕ
skip_spaces [] = []
skip_spaces (c ∷ s) = if is_space c then skip_spaces s else c ∷ s

abbrev pub to_pos : Option ℕ → Option ℤ
to_pos none = none
to_pos (some n) = some (pos n)

abbrev pub to_neg : Option ℕ → Option ℤ
to_neg none = none
to_neg (some zero) = some (pos zero)
to_neg (some (suc n)) = some (negsuc n)

abbrev pub scan_signed : List ℕ → Option ℤ
scan_signed [] = none
scan_signed (c ∷ s) =
    if c == b'-'
    then to_neg (scan_digits s)
    else if c == b'+'
    then to_pos (scan_digits s)
    else to_pos (scan_digits (c ∷ s))

-- `none` where there is no number, and the end pointer stays at the start.
abbrev pub strtol : List ℕ → Option ℤ
strtol s = scan_signed (skip_spaces s)

abbrev pub or_zero : Option ℤ → ℤ
or_zero none = pos 0
or_zero (some z) = z

-- Defined by C for the numbers of an `int`.
abbrev pub atoi : List ℕ → ℤ
atoi s = or_zero (strtol s)

pub scan-emit : (k n : ℕ) (out : List ℕ) → n < 10 ^ k → scan (emit k n out) 0 ≡ scan out n
scan-emit zero n out h = ap (scan out) (omega arith)
scan-emit (suc k) n out h = elim (Bool-cases (ltb n 10)) [
  | inl e ↦
      let d : is_digit (b'0' + n) ≡ true = ground arith in
      let v : 0 * 10 + (b'0' + n - b'0') ≡ n = omega arith in rw (e, d) (ap (scan out) v)
  | inr e ↦
      let d : is_digit (b'0' + n % 10) ≡ true = ground arith in
      let v : n / 10 * 10 + (b'0' + n % 10 - b'0') ≡ n = omega arith in
      let lt : n / 10 < 10 ^ k = omega arith in
      rw (e) (scan-emit k (n / 10) ((b'0' + n % 10) ∷ out) lt ∙ rw (d) (ap (scan out) v))
]

-- The printed number begins with a digit.
abbrev pub StartsWithDigit : List ℕ → Type 0
StartsWithDigit [] = ⊥
StartsWithDigit (c ∷ s) = is_digit c ≡ true

emit-StartsWithDigit :
    (k n : ℕ) (out : List ℕ)
    → n < 10 ^ k
    → (k ≡ 0 → StartsWithDigit out)
    → StartsWithDigit (emit k n out)
emit-StartsWithDigit zero n out h d = d refl
emit-StartsWithDigit (suc k) n out h d = elim (Bool-cases (ltb n 10)) [
  | inl e ↦ let f : is_digit (b'0' + n) ≡ true = ground arith in rw (e) f
  | inr e ↦
      let f : is_digit (b'0' + n % 10) ≡ true = ground arith in
      rw (e) (emit-StartsWithDigit k (n / 10) ((b'0' + n % 10) ∷ out) (omega arith) (λ z. f))
]

emit-append : (k n : ℕ) (out rest : List ℕ) → emit k n out ++ rest ≡ emit k n (out ++ rest)
emit-append zero n out rest = refl
emit-append (suc k) n out rest =
    let ih = emit-append k (n / 10) ((b'0' + n % 10) ∷ out) rest in
    elim (Bool-cases (ltb n 10)) [ inl e ↦ rw (e) refl | inr e ↦ rw (e) ih ]

strtol_digits : (s : List ℕ) → StartsWithDigit s → strtol s ≡ some (pos (scan s 0))
strtol_digits [] d = elim d [ ]
strtol_digits (c ∷ s) d =
    let d' : is_digit c ≡ true = d in
    let f : is_space c ≡ false = ground arith in
    let g : (c == b'-') ≡ false = ground arith in
    let h : (c == b'+') ≡ false = ground arith in rw (f, g, h, d') refl

-- What is printed is read back, whatever follows that is not a digit.
pub strtol-print_int :
    (n : ℕ) (rest : List ℕ)
    → n < 10 ^ 10
    → scan rest n ≡ n
    → strtol (print_int (pos n) ++ rest) ≡ some (pos n)
unfolding print_int
strtol-print_int n rest h r =
    ap strtol (emit-append 10 n [] rest)
    ∙ strtol_digits (emit 10 n rest)
        (emit-StartsWithDigit 10 n rest h (λ e. absurd (omega (arith, e))))
    ∙ ap (λ v. some (pos v)) (scan-emit 10 n rest h ∙ r)
