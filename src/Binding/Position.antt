-- ===== src/Binding/Position.antt =====
-- Where insort_binding of path/binding.c inserts: behind the last binding at or below the new one.
use xyzterm.Common.{
  ℕ, suc, ◌+◌, ◌≡◌, refl, ap, sym, ◌∙◌, ◌≢◌, ◌⊎◌, inl, inr, List, [], ◌∷◌, Option, some, arith,
  get_elem?, drop,
}
use xyzterm.Path.{Bytes, Comparison, compare_paths, is_within}
use xyzterm.Binding.{Binding, Side, ref_of, Place, search_place}
use xyzterm.Binding.Order.{NoneBelow, Behind}

Comparison-cases :
    (c : Comparison)
    → (c ≡ Comparison.paths_are_equal)
      ⊎ ((c ≡ Comparison.path1_is_prefix)
          ⊎ ((c ≡ Comparison.path2_is_prefix) ⊎ (c ≡ Comparison.paths_are_not_comparable)))
Comparison-cases Comparison.paths_are_equal = inl refl
Comparison-cases Comparison.path1_is_prefix = inr (inl refl)
Comparison-cases Comparison.path2_is_prefix = inr (inr (inl refl))
Comparison-cases Comparison.paths_are_not_comparable = inr (inr (inr refl))

-- The last binding of the list at or below `p` stands at position `j`.
pub record LastBehind (side : Side) (p : Bytes) (l : List Binding) (j : ℕ) : Type 0 where
  pub elem : Binding
  pub at : get_elem? l j ≡ some elem
  pub behind : Behind p (ref_of side elem)
  pub none_further : NoneBelow side p (drop (suc j) l)

-- What the search from position `i` on finds; the first binding stays `next`.
unfoldable pub Found : Side → Bytes → ℕ → Option ℕ → ℕ → List Binding → Place → Type 0
Found side p i previous n l (Place.replaces k) =
    (j : ℕ) × (k ≡ i + j)
    × (c : Binding) × (get_elem? l j ≡ some c)
    × (compare_paths p (ref_of side c) ≡ Comparison.paths_are_equal)
Found side p i previous n l (Place.between previous' next') =
    (((previous' ≡ previous) × NoneBelow side p l)
      ⊎ ((j : ℕ) × (previous' ≡ some (i + j)) × LastBehind side p l j))
    × (next' ≡ some n)

found_keep :
    (side : Side) (p : Bytes) (i : ℕ) (previous : Option ℕ) (n : ℕ) (b : Binding) (l : List Binding)
    (r : Place)
    → compare_paths p (ref_of side b) ≢ Comparison.path1_is_prefix
    → Found side p (suc i) previous n l r
    → Found side p i previous n (b ∷ l) r
unfolding Found
found_keep side p i previous n b l (Place.replaces k) h o =
    (suc o.0, omega (arith, o.1), o.2, o.3, o.4)
found_keep side p i previous n b l (Place.between previous' next') h o = (
  elim o.0 [
    | inl q ↦ inl (q.0, (h, q.1))
    | inr q ↦
        let e : suc i + q.0 ≡ i + suc q.0 = omega arith in
        inr (
          suc q.0,
          q.1 ∙ ap some e,
          record {
            elem = q.2.elem;
            at = q.2.at;
            behind = q.2.behind;
            none_further = q.2.none_further;
          },
        )
  ],
  o.1,
)

found_set :
    (side : Side) (p : Bytes) (i : ℕ) (previous : Option ℕ) (n : ℕ) (b : Binding) (l : List Binding)
    (r : Place)
    → Behind p (ref_of side b)
    → Found side p (suc i) (some i) n l r
    → Found side p i previous n (b ∷ l) r
unfolding Found
found_set side p i previous n b l (Place.replaces k) h o =
    (suc o.0, omega (arith, o.1), o.2, o.3, o.4)
found_set side p i previous n b l (Place.between previous' next') h o = (
  elim o.0 [
    | inl q ↦
        let e : i ≡ i + 0 = omega arith in
        inr (0, q.0 ∙ ap some e, record { elem = b; at = refl; behind = h; none_further = q.1 })
    | inr q ↦
        let e : suc i + q.0 ≡ i + suc q.0 = omega arith in
        inr (
          suc q.0,
          q.1 ∙ ap some e,
          record {
            elem = q.2.elem;
            at = q.2.at;
            behind = q.2.behind;
            none_further = q.2.none_further;
          },
        )
  ],
  o.1,
)

not_below_if :
    {c d : Comparison} → c ≡ d → d ≢ Comparison.path1_is_prefix → c ≢ Comparison.path1_is_prefix
not_below_if e h q = h (sym e ∙ q)

-- The search goes on from the next position, with this binding as the one behind which to insert.
found_equal :
    (side : Side) (p : Bytes) (i : ℕ) (previous : Option ℕ) (n : ℕ) (b : Binding) (l : List Binding)
    → compare_paths p (ref_of side b) ≡ Comparison.paths_are_equal
    → Found side p (suc i) (some i) n l (search_place side p (suc i) (some i) (some n) l)
    → Found side p i previous n (b ∷ l) (search_place side p i previous (some n) (b ∷ l))
unfolding Found
found_equal Side.guest_side p i previous n b l e o =
    rw (e, search_place) (0, omega arith, b, refl, e)
found_equal Side.pending_side p i previous n b l e o =
    rw (e, search_place) (0, omega arith, b, refl, e)
found_equal Side.host_side p i previous n b l e o =
    rw (e, search_place)
      (found_set Side.host_side p i previous n b l
        (search_place Side.host_side p (suc i) (some i) (some n) l) (ap is_within e) o)

pub search_place-Found :
    (side : Side) (p : Bytes) (i : ℕ) (previous : Option ℕ) (n : ℕ) (l : List Binding)
    → Found side p i previous n l (search_place side p i previous (some n) l)
unfolding Found
search_place-Found side p i previous n [] = (inl (refl, tt), refl)
search_place-Found side p i previous n (b ∷ l) =
    let next = search_place-Found side p (suc i) (some i) n l in
    let keep = search_place-Found side p (suc i) previous n l in
    let r = search_place side p (suc i) (some i) (some n) l in
    let r' = search_place side p (suc i) previous (some n) l in
    elim (Comparison-cases (compare_paths p (ref_of side b))) [
      | inl e ↦ found_equal side p i previous n b l e next
      | inr (inl e) ↦
          rw (e, search_place) (found_set side p i previous n b l r (ap is_within e) next)
      | inr (inr (inl e)) ↦
          rw (e, search_place)
            (found_keep side p i previous n b l r' (not_below_if e (λ q. absurd (cc))) keep)
      | inr (inr (inr e)) ↦
          rw (e, search_place)
            (found_keep side p i previous n b l r' (not_below_if e (λ q. absurd (cc))) keep)
    ]
