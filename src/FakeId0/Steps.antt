-- ===== src/FakeId0/Steps.antt =====
-- The ids of a tracee through the calls that it makes, for a tracee without privilege.
use xyzterm.Common.{
  ℕ, ◌≡◌, refl, sym, subst, ◌⊎◌, inl, inr, Bool, true, false, not, ◌||◌, ◌==◌, if◌then◌else◌,
  if_both, Bool-cases, arith,
}
use xyzterm.FakeId0.{
  Ids, equals_any_id, unset_id, setxid_ids, may_swap, saved_if, setrexid_effective, setrexid_real,
  is_own, setresxid_ids,
}

-- One of the real, the effective and the saved id.
abbrev pub OneOf : Ids → ℕ → Type 0
OneOf base id = (id ≡ base.rid) ⊎ ((id ≡ base.eid) ⊎ (id ≡ base.sid))

-- The ids are among those of `base`; that for the file system may be the one of `base`.
abbrev pub Within : Ids → Ids → Type 0
Within base ids =
    OneOf base ids.rid
    × OneOf base ids.eid
    × OneOf base ids.sid
    × (OneOf base ids.fsid ⊎ (ids.fsid ≡ base.fsid))

pub or_split : (a b : Bool) → (a || b) ≡ true → (a ≡ true) ⊎ (b ≡ true)
or_split true b h = inl refl
or_split false b h = inr h

pub eq_of : (a b : ℕ) → (a == b) ≡ true → a ≡ b
eq_of a b h = ground arith

-- The id that passes EQUALS_ANY_ID.
pub equals_any_id-OneOf :
    (base ids : Ids) (id : ℕ) → Within base ids → equals_any_id id ids ≡ true → OneOf base id
equals_any_id-OneOf base ids id w h =
    elim (or_split (id == ids.rid || id == ids.eid) (id == ids.sid) h) [
      | inr e ↦ subst (OneOf base) (sym (eq_of id ids.sid e)) w.2
      | inl e ↦ elim (or_split (id == ids.rid) (id == ids.eid) e) [
        | inl f ↦ subst (OneOf base) (sym (eq_of id ids.rid f)) w.0
        | inr f ↦ subst (OneOf base) (sym (eq_of id ids.eid f)) w.1
      ]
    ]

pub own_set :
    (base ids : Ids) (id : ℕ)
    → Within base ids
    → is_own id ids ≡ true
    → not (unset_id id) ≡ true
    → OneOf base id
own_set base ids id w h n = elim (or_split (unset_id id) (equals_any_id id ids) h) [
  | inl e ↦ absurd (let f : not (unset_id id) ≡ false = rw (e) refl in cc)
  | inr e ↦ equals_any_id-OneOf base ids id w e
]

pub setxid_ids-Within :
    (base ids : Ids) (id : ℕ)
    → Within base ids
    → OneOf base id
    → Within base (setxid_ids false id ids)
setxid_ids-Within base ids id w o = (w.0, o, w.2, inl o)

saved_if-Within :
    (base : Ids) (b : Bool) (e : ℕ) (ids : Ids)
    → Within base ids
    → OneOf base e
    → Within base (saved_if b e ids)
saved_if-Within base true e ids w o = (w.0, w.1, o, w.3)
saved_if-Within base false e ids w o = w

pub may_swap_own :
    (r e : ℕ) (ids : Ids) → may_swap r e ids ≡ true → (is_own r ids ≡ true) × (is_own e ids ≡ true)
may_swap_own r e ids h = ground arith

with_effective :
    (base : Ids) (e : ℕ) (ids : Ids)
    → Within base ids
    → OneOf base e
    → Within base (record ids { eid = e; fsid = e })
with_effective base e ids w o = (w.0, o, w.2, inl o)

pub setrexid_effective-Within :
    (base : Ids) (e : ℕ) (ids : Ids)
    → Within base ids
    → is_own e ids ≡ true
    → Within base (setrexid_effective e ids)
setrexid_effective-Within base e ids w h =
    if_both (Within base) (not (unset_id e))
      (λ n.
        let o = own_set base ids e w h n in
        with_effective base e (saved_if (not (e == ids.rid)) e ids)
          (saved_if-Within base (not (e == ids.rid)) e ids w o) o)
      (λ n. w)

pub setrexid_real-Within :
    (base : Ids) (r e : ℕ) (ids ids' : Ids)
    → Within base ids
    → Within base ids'
    → is_own r ids ≡ true
    → is_own e ids ≡ true
    → Within base (setrexid_real r e ids')
setrexid_real-Within base r e ids ids' w w' hr he =
    if_both (Within base) (not (unset_id r))
      (λ n.
        let o = own_set base ids r w hr n in
        let saved : Within base (saved_if (not (unset_id e)) e ids') =
          elim (Bool-cases (not (unset_id e))) [
            | inl k ↦ rw (k) (w'.0, w'.1, own_set base ids e w he k, w'.3)
            | inr k ↦ rw (k) w'
          ] in
        (o, saved.1, saved.2, saved.3))
      (λ n. w')

chosen-OneOf :
    (base ids : Ids) (id old : ℕ)
    → Within base ids
    → is_own id ids ≡ true
    → OneOf base old
    → OneOf base (if not (unset_id id) then id else old)
chosen-OneOf base ids id old w h o =
    if_both (OneOf base) (not (unset_id id)) (λ n. own_set base ids id w h n) (λ n. o)

pub setresxid_ids-Within :
    (base : Ids) (r e s : ℕ) (ids : Ids)
    → Within base ids
    → is_own r ids ≡ true
    → is_own e ids ≡ true
    → is_own s ids ≡ true
    → Within base (setresxid_ids r e s ids)
setresxid_ids-Within base r e s ids w hr he hs = (
  chosen-OneOf base ids r ids.rid w hr w.0,
  chosen-OneOf base ids e ids.eid w he w.1,
  chosen-OneOf base ids s ids.sid w hs w.2,
  if_both (λ x. OneOf base x ⊎ (x ≡ base.fsid)) (not (unset_id e))
      (λ n. inl (own_set base ids e w he n)) (λ n. w.3),
)
