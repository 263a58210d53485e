-- ===== src/FakeId0/Initial.antt =====
-- The ids that the command line gives to fake_id0.
use xyzterm.Common.{
  ℕ, zero, suc, ltb→lt, ◌+◌, ◌/◌, ◌%◌, ◌^◌, ◌<◌, ◌≡◌, ◌≢◌, refl, ap, ◌∙◌, sym, some, [], ◌∷◌, ◌++◌,
  true, false, ◌==◌, ltb, if_both, arith, emit, print_int, strtol, strtol-print_int, append-nil,
}
use xyzterm.Common.Int.{pos}
use xyzterm.Path.{Bytes}
use xyzterm.FakeId0.Exit.{id_of, as_id, behind_colon, gid_of, all_ids, initialization}

HasNoColon : Bytes → Type 0
HasNoColon [] = Unit {0}
HasNoColon (x ∷ s) = (x ≢ b':') × HasNoColon s

emit-HasNoColon : (k n : ℕ) (out : Bytes) → HasNoColon out → HasNoColon (emit k n out)
unfolding HasNoColon
emit-HasNoColon zero n out h = h
emit-HasNoColon (suc k) n out h =
    if_both HasNoColon (ltb n 10) (λ e. (λ f. absurd (omega (arith, ltb→lt n 10 e, f)), h))
      λ e. emit-HasNoColon k (n / 10) ((b'0' + n % 10) ∷ out) (λ f. absurd (omega (arith, f)), h)

behind_colon-append :
    (s rest : Bytes) → HasNoColon s → behind_colon (s ++ (b':' ∷ rest)) ≡ some rest
unfolding HasNoColon
behind_colon-append [] rest h = refl
behind_colon-append (x ∷ s) rest h =
    let ne : x ≢ b':' = h.0 in
    let f : (x == b':') ≡ false = ground arith in rw (f) (behind_colon-append s rest h.1)

print-HasNoColon : (n : ℕ) → HasNoColon (print_int (pos n))
unfolding print_int HasNoColon
print-HasNoColon n = emit-HasNoColon 10 n [] tt

as_id_small : (fallback n : ℕ) → n < 2 ^ 32 → as_id fallback (some (pos n)) ≡ n
as_id_small fallback n h =
    let b : ltb n (2 ^ 63) ≡ true = ground arith in let m : id_of n ≡ n = omega arith in rw (b) m

-- From "uid:gid", two numbers of 32 bits in decimal, a tracee starts with the one as its four user ids,
-- the other as its four group ids, and the capability exactly where the user id is 0.
pub initialization-print_int :
    (real_uid real_gid u g : ℕ)
    → u < 2 ^ 32
    → g < 2 ^ 32
    → initialization real_uid real_gid (print_int (pos u) ++ (b':' ∷ print_int (pos g))) ≡ record {
      user = all_ids u;
      group = all_ids g;
      umask = 18;
      caps_active = u == 0;
      keep_caps = false;
    }
unfolding initialization
initialization-print_int real_uid real_gid u g hu hg =
    let su : strtol (print_int (pos u) ++ (b':' ∷ print_int (pos g))) ≡ some (pos u) =
      strtol-print_int u (b':' ∷ print_int (pos g)) (omega arith) refl in
    let sg : strtol (print_int (pos g)) ≡ some (pos g) =
      ap strtol (sym (append-nil (print_int (pos g)))) ∙ strtol-print_int g [] (omega arith) refl in
    let b = behind_colon-append (print_int (pos u)) (print_int (pos g)) (print-HasNoColon u) in
    let i : as_id real_uid (strtol (print_int (pos u) ++ (b':' ∷ print_int (pos g)))) ≡ u =
      ap (as_id real_uid) su ∙ as_id_small real_uid u hu in
    let j : gid_of real_gid (behind_colon (print_int (pos u) ++ (b':' ∷ print_int (pos g)))) ≡ g =
      ap (gid_of real_gid) b ∙ ap (as_id real_gid) sg ∙ as_id_small real_gid g hg in
    rw (i, j) refl
