-- ===== src/SysVIpc/Shm/Valid.antt =====
-- Mappings belong to segments in use, and a segment that is to be removed has a mapping: by shmget(2),
-- shmat(2), shmdt(2), shmctl(2), the birth and the end of processes.
use xyzterm.Common.{
  or_true, ℕ, ◌<◌, ◌≡◌, ◌≢◌, refl, sym, ap, ◌∙◌, subst, List, [], ◌∷◌, none, some, Bool, true,
  false, ◌||◌, ◌==◌, arith, length, get_elem?, set, length-set, get_elem?-set_self,
  get_elem?-set_ne, get_elem?-lt, some-injective, Option-cases, Bool-cases, dec_eq, inl, inr,
}
use xyzterm.SysVIpc.Shm.{Shm, Mapping, Memory, shm_at, zero_shm, is_mapped, take_out}

-- The segment at the index is in use.
abbrev pub IsBacked : List Shm → ℕ → Type 0
IsBacked shms i = (s : Shm) × (get_elem? shms i ≡ some s) × (s.slot.valid ≡ true)

abbrev pub AreBacked : List Shm → List Mapping → Type 0
AreBacked shms [] = Unit {0}
AreBacked shms (x ∷ maps) = IsBacked shms x.shm_index × AreBacked shms maps

-- If the removal of the segment is pending, it is in use and mapped.
abbrev pub PendsWell : List Mapping → ℕ → Shm → Type 0
PendsWell maps i s = s.rmid_pending ≡ true → (s.slot.valid ≡ true) × (is_mapped i maps ≡ true)

abbrev pub AllPendWell : List Shm → List Mapping → Type 0
AllPendWell shms maps = (i : ℕ) (s : Shm) → get_elem? shms i ≡ some s → PendsWell maps i s

abbrev pub IsValid : Memory → Type 0
IsValid m = AreBacked m.shms m.maps × AllPendWell m.shms m.maps

pub shm_at-get : (shms : List Shm) (i : ℕ) (s : Shm) → get_elem? shms i ≡ some s → shm_at shms i ≡ s
shm_at-get shms i s e = rw (e, shm_at) refl

shm_at_out : (shms : List Shm) (i : ℕ) → get_elem? shms i ≡ none → shm_at shms i ≡ zero_shm
shm_at_out shms i e = rw (e, shm_at) refl

pub shm_at-IsBacked :
    (shms : List Shm) (i : ℕ) → IsBacked shms i → (shm_at shms i).slot.valid ≡ true
shm_at-IsBacked shms i (s, e, v) = ap (λ x. x.slot.valid) (shm_at-get shms i s e) ∙ v

pub shm_at-PendsWell :
    (shms : List Shm) (maps : List Mapping) (i : ℕ)
    → AllPendWell shms maps
    → PendsWell maps i (shm_at shms i)
shm_at-PendsWell shms maps i h = elim (Option-cases (get_elem? shms i)) [
  | inl e ↦ subst (PendsWell maps i) (sym (shm_at_out shms i e)) (λ p. absurd (cc))
  | inr (s, e) ↦ subst (PendsWell maps i) (sym (shm_at-get shms i s e)) (h i s e)
]

pub mapped-IsBacked :
    (shms : List Shm) (maps : List Mapping) (i : ℕ)
    → AreBacked shms maps
    → is_mapped i maps ≡ true
    → IsBacked shms i
mapped-IsBacked shms [] i b h = absurd (cc)
mapped-IsBacked shms (x ∷ maps) i b h = elim (Bool-cases (x.shm_index == i)) [
  | inl e ↦ let same : x.shm_index ≡ i = ground arith in subst (IsBacked shms) same b.0
  | inr e ↦
      let rest : is_mapped i maps ≡ true = ground arith in mapped-IsBacked shms maps i b.1 rest
]

set-IsBacked :
    (shms : List Shm) (i : ℕ) (s : Shm) (j : ℕ)
    → IsBacked shms j
    → (i ≡ j → s.slot.valid ≡ true)
    → IsBacked (set shms i s) j
set-IsBacked shms i s j (a, e, v) h = elim (dec_eq i j) [
  | yes same ↦
      let inside = get_elem?-lt shms j e in
      (s, rw same (get_elem?-set_self shms j s inside), h same)
  | no other ↦ (a, get_elem?-set_ne shms s other ∙ e, v)
]

pub set-AreBacked :
    (shms : List Shm) (i : ℕ) (s : Shm) (maps : List Mapping)
    → AreBacked shms maps
    → (is_mapped i maps ≡ true → s.slot.valid ≡ true)
    → AreBacked (set shms i s) maps
set-AreBacked shms i s [] b h = tt
set-AreBacked shms i s (x ∷ maps) b h = (
  set-IsBacked shms i s x.shm_index b.0
      (λ e. h (let t : (x.shm_index == i) ≡ true = ground arith in rw (t) refl)),
  set-AreBacked shms i s maps b.1 (λ m. h (rw (m) (or_true (x.shm_index == i)))),
)

pub set-AllPendWell :
    (shms : List Shm) (i : ℕ) (s : Shm) (maps maps' : List Mapping)
    → AllPendWell shms maps
    → ((j : ℕ) → i ≢ j → is_mapped j maps ≡ true → is_mapped j maps' ≡ true)
    → PendsWell maps' i s
    → AllPendWell (set shms i s) maps'
set-AllPendWell shms i s maps maps' h keeps at j a e = elim (dec_eq i j) [
  | yes same ↦
      let inside : i < length shms =
        omega (arith, get_elem?-lt (set shms i s) j e, length-set shms i s, same) in
      let here : some a ≡ some s =
        sym e ∙ ap (get_elem? (set shms i s)) (sym same) ∙ get_elem?-set_self shms i s inside in
      subst (PendsWell maps' j) (sym (some-injective here))
        (subst (λ k. PendsWell maps' k s) same at)
  | no other ↦ λ p.
      let old = h j a (sym (get_elem?-set_ne shms s other) ∙ e) p in (old.0, keeps j other old.1)
]

or_swap : (a b c : Bool) → (a || (b || c)) ≡ (b || (a || c))
or_swap true true c = refl
or_swap true false c = refl
or_swap false b c = refl

pub take_out-is_mapped :
    (number : ℕ) (maps : List Mapping) {x : Mapping} {maps' : List Mapping}
    → take_out number maps ≡ some (x, maps')
    → (j : ℕ) → is_mapped j maps ≡ (x.shm_index == j || is_mapped j maps')
take_out-is_mapped number [] e j = absurd (cc)
take_out-is_mapped number (y ∷ maps) {x = x} {maps' = maps'} e j =
    elim (Bool-cases (y.number == number)) [
      | inl same ↦
          let here : some (y, maps) ≡ some (x, maps') = rw same at e in
          ap (λ r. r.0.shm_index == j || is_mapped j r.1) (some-injective here)
      | inr other ↦ elim (Option-cases (take_out number maps)) [
        | inl n ↦ absurd (let bad : none ≡ some (x, maps') = rw (other, n) at e in cc)
        | inr ((z, rest), r) ↦
            let here : some (z, y ∷ rest) ≡ some (x, maps') = rw (other, r) at e in
            let ih = take_out-is_mapped number maps r j in
            (rw (ih) (or_swap (y.shm_index == j) (z.shm_index == j) (is_mapped j rest)))
            ∙ ap (λ p. p.0.shm_index == j || is_mapped j p.1) (some-injective here)
      ]
    ]

pub take_out-AreBacked :
    (shms : List Shm) (number : ℕ) (maps : List Mapping) {x : Mapping} {maps' : List Mapping}
    → take_out number maps ≡ some (x, maps')
    → AreBacked shms maps
    → IsBacked shms x.shm_index × AreBacked shms maps'
take_out-AreBacked shms number [] e b = absurd (cc)
take_out-AreBacked shms number (y ∷ maps) {x = x} {maps' = maps'} e b =
    let P : Mapping × List Mapping → Type 0 =
      λ p. IsBacked shms p.0.shm_index × AreBacked shms p.1 in
    elim (Bool-cases (y.number == number)) [
      | inl same ↦
          let here : some (y, maps) ≡ some (x, maps') = rw same at e in
          subst P (some-injective here) b
      | inr other ↦ elim (Option-cases (take_out number maps)) [
        | inl n ↦ absurd (let bad : none ≡ some (x, maps') = rw (other, n) at e in cc)
        | inr ((z, rest), r) ↦
            let here : some (z, y ∷ rest) ≡ some (x, maps') = rw (other, r) at e in
            let ih = take_out-AreBacked shms number maps r b.1 in
            subst P (some-injective here) (ih.0, (b.0, ih.1))
      ]
    ]
