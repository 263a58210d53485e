-- ===== src/Binding/Insort.antt =====
-- insort_binding of path/binding.c keeps the lists of bindings sorted.
use xyzterm.Common.{
  ℕ, zero, suc, ◌≡◌, refl, ap, sym, ◌∙◌, subst, inl, inr, List, [], ◌∷◌, Option, none, some, arith,
  get_elem?, drop, ◌⊎◌,
}
use xyzterm.Path.{is_within}
use xyzterm.Path.Nesting.{IsCanonical, canonical_eq}
use xyzterm.Binding.{
  Binding, Bindings, Side, walked, bindings_of, with_bindings, ref_of, Place, search_place,
  insert_after, insert_between, remove_address, removed, first_position,
  remove_binding_from_all_lists, insert_at, insort_binding,
}
use xyzterm.Binding.Order.{
  NoneBelow, AreCanonical, AreSorted, insert_after-AreSorted, AreCanonical-elem,
  remove_address-AreSorted,
}
use xyzterm.Binding.Position.{Found, search_place-Found}

bindings_of-with_bindings :
    (side : Side) (l : List Binding) (s : Bindings) → bindings_of (with_bindings side l s) side ≡ l
bindings_of-with_bindings Side.guest_side l s = refl
bindings_of-with_bindings Side.host_side l s = refl
bindings_of-with_bindings Side.pending_side l s = refl

walked-removed :
    (a : ℕ) (o : Option (List Binding)) → walked (removed a o) ≡ remove_address a (walked o)
walked-removed a none = refl
walked-removed a (some l) = refl

bindings_of-remove_binding :
    (side : Side) (b : Binding) (s : Bindings)
    → bindings_of (remove_binding_from_all_lists b s) side
      ≡ remove_address b.address (bindings_of s side)
unfolding remove_binding_from_all_lists
bindings_of-remove_binding Side.guest_side b s = walked-removed b.address s.guest_list
bindings_of-remove_binding Side.host_side b s = walked-removed b.address s.host_list
bindings_of-remove_binding Side.pending_side b s = walked-removed b.address s.pending

sorted_further :
    (side : Side) (l : List Binding) (k : ℕ) (c : Binding)
    → AreSorted side l
    → get_elem? l k ≡ some c
    → NoneBelow side (ref_of side c) (drop (suc k) l)
sorted_further side [] k c h e = absurd (cc)
sorted_further side (b ∷ l) zero c h e =
    let eq : b ≡ c = cc in subst (λ t. NoneBelow side (ref_of side t) l) eq h.0
sorted_further side (b ∷ l) (suc k) c h e = sorted_further side l k c h.1 e

insert_at-AreSorted :
    (side : Side) (b : Binding) (s : Bindings) (r : Place)
    → IsCanonical (ref_of side b)
    → AreCanonical side (bindings_of s side)
    → AreSorted side (bindings_of s side)
    → Found side (ref_of side b) 0 none 0 (bindings_of s side) r
    → AreSorted side (bindings_of (insert_at side b s r) side)
unfolding Found
insert_at-AreSorted side b s (Place.replaces k) cb cl sl o =
    let l = bindings_of s side in
    let gk : get_elem? l k ≡ some o.2 = ap (get_elem? l) (omega (arith, o.1)) ∙ o.3 in
    let same : ref_of side b ≡ ref_of side o.2 =
      canonical_eq cb (AreCanonical-elem side l k o.2 cl gk) o.4 in
    let further = sorted_further side l k o.2 sl gk in
    let sorted =
      insert_after-AreSorted side b l k o.2 cb cl sl gk (ap is_within o.4)
        (subst (λ p. NoneBelow side p (drop (suc k) l)) (sym same) further) in
    let s' = with_bindings side (insert_after k b l) s in
    rw (gk, insert_at)
      (subst (AreSorted side)
        (sym (
          bindings_of-remove_binding side o.2 s'
          ∙ ap (remove_address o.2.address)
              (bindings_of-with_bindings side (insert_after k b l) s)))
        (remove_address-AreSorted side o.2.address (insert_after k b l) sorted))
insert_at-AreSorted side b s (Place.between previous next) cb cl sl o =
    let l = bindings_of s side in
    subst (AreSorted side)
      (sym (bindings_of-with_bindings side (insert_between previous next b l) s))
      (elim o.0 [
        | inl q ↦
            subst (AreSorted side)
              (sym
                (ap (λ t. insert_between t next b l) q.0 ∙ ap (λ t. insert_between none t b l) o.1))
              (q.1, sl)
        | inr q ↦
            let at : previous ≡ some q.0 = q.1 ∙ ap some (omega arith) in
            subst (AreSorted side) (sym (ap (λ t. insert_between t next b l) at)) (
              insert_after-AreSorted side b l q.0 q.2.elem cb cl sl q.2.at q.2.behind
                q.2.none_further)
      ])

insert_first-AreSorted :
    (side : Side) (b : Binding) (s : Bindings)
    → AreSorted side (b ∷ [])
    → bindings_of s side ≡ []
    → AreSorted side (bindings_of (insert_at side b s (Place.between none none)) side)
insert_first-AreSorted side b s h e =
    subst (AreSorted side)
      (sym (bindings_of-with_bindings side (b ∷ bindings_of s side) s ∙ ap (λ t. b ∷ t) e)) h

List-cases : (l : List Binding) → (l ≡ []) ⊎ ((c : Binding) × (l' : List Binding) × (l ≡ c ∷ l'))
List-cases [] = inl refl
List-cases (c ∷ l') = inr (c, l', refl)

-- A list in which nothing stands above something deeper behind it stays so when a canonical binding is
-- inserted, whether it replaces another one or not.
pub insort_binding-AreSorted :
    (side : Side) (b : Binding) (s : Bindings)
    → IsCanonical (ref_of side b)
    → AreCanonical side (bindings_of s side)
    → AreSorted side (bindings_of s side)
    → AreSorted side (bindings_of (insort_binding side b s) side)
unfolding insort_binding
insort_binding-AreSorted side b s cb cl sl =
    let p = ref_of side b in
    elim (List-cases (bindings_of s side)) [
      | inl e ↦ rw (e) (insert_first-AreSorted side b s (tt, tt) e)
      | inr t ↦
          let o = search_place-Found side p 0 none 0 (bindings_of s side) in
          let sorted =
            insert_at-AreSorted side b s (search_place side p 0 none (some 0) (bindings_of s side))
              cb cl sl o in
          subst
            (λ f. AreSorted side (
              bindings_of (insert_at side b s (search_place side p 0 none f (bindings_of s side)))
                side))
            (sym (ap first_position t.2)) sorted
    ]
