-- ===== src/SysVIpc/Shm/Reach.antt =====
-- The operations of sysvipc_shm.c keep the namespace valid, in any order.
use xyzterm.Common.{
  ℕ, zero, suc, ◌≡◌, ◌⊎◌, refl, sym, subst, List, [], ◌∷◌, ◌++◌, Option, none, some, true, not,
  if_both, get_elem?, set, get_elem?-append_left, some-injective, inl, inr,
}
use xyzterm.Common.Int.{ℤ, is_negative}
use xyzterm.SysVIpc.Ids.{object_id, find_slot, has_flag, ipc_creat}
use xyzterm.SysVIpc.Shm.{
  Shm, Mapping, Memory, shm_slot, shm_at, zero_shm, taken, with_room, create_shm, shmget, is_mapped,
}
use xyzterm.SysVIpc.Shm.Valid.{
  AreBacked, PendsWell, IsValid, shm_at-PendsWell, shm_at-IsBacked, mapped-IsBacked, set-AreBacked,
  set-AllPendWell,
}

-- A slot is written, and the mappings stay.
pub slot-IsValid :
    (m : Memory) (i : ℕ) (s : Shm)
    → IsValid m
    → (is_mapped i m.maps ≡ true → s.slot.valid ≡ true)
    → PendsWell m.maps i s
    → IsValid (record m { shms = set m.shms i s })
slot-IsValid m i s v mapped pends = (
  set-AreBacked m.shms i s m.maps v.0 mapped,
  set-AllPendWell m.shms i s m.maps m.maps v.1 (λ j other h. h) pends,
)

-- A segment that a mapping belongs to is in use.
pub mapped_valid :
    (m : Memory) (i : ℕ)
    → IsValid m
    → is_mapped i m.maps ≡ true
    → (shm_at m.shms i).slot.valid ≡ true
mapped_valid m i v h = shm_at-IsBacked m.shms i (mapped-IsBacked m.shms m.maps i v.0 h)

create_shm-IsValid :
    (key size flg pgid : ℕ) (alloc : ℤ → ℕ → ℤ) (m : Memory) (shms : List Shm) (i : ℕ)
    → IsValid (record m { shms = shms })
    → IsValid (create_shm key size flg pgid alloc m (shms, i)).1
create_shm-IsValid key size flg pgid alloc m shms i v =
    let s = shm_at shms i in
    let fd = alloc (object_id i s.slot.generation) size in
    let m' : Memory = record m { shms = shms } in
    if_both {A = ℤ × Memory} (λ r. IsValid r.1) (is_negative fd)
      (λ e.
        slot-IsValid m' i (record s { fd = fd }) v (mapped_valid m' i v)
          (shm_at-PendsWell shms m.maps i v.1))
      (λ e.
        slot-IsValid m' i (taken key size flg pgid fd s) v (λ h. refl)
          (λ p. (refl, (shm_at-PendsWell shms m.maps i v.1 p).1)))

append_last :
    (shms : List Shm) (z : Shm) (j : ℕ) (s : Shm)
    → get_elem? (shms ++ (z ∷ [])) j ≡ some s
    → (get_elem? shms j ≡ some s) ⊎ (s ≡ z)
append_last [] z zero s e = inr (sym (some-injective e))
append_last [] z (suc j) s e = absurd (cc)
append_last (x ∷ shms) z zero s e = inl e
append_last (x ∷ shms) z (suc j) s e = append_last shms z j s e

append-AreBacked :
    (shms : List Shm) (z : Shm) (maps : List Mapping)
    → AreBacked shms maps
    → AreBacked (shms ++ (z ∷ [])) maps
append-AreBacked shms z [] b = tt
append-AreBacked shms z (x ∷ maps) b = (
  (b.0.0, get_elem?-append_left shms (z ∷ []) x.shm_index b.0.1, b.0.2),
  append-AreBacked shms z maps b.1,
)

zero-PendsWell : (maps : List Mapping) (j : ℕ) (s : Shm) → s ≡ zero_shm → PendsWell maps j s
zero-PendsWell maps j s e = subst (PendsWell maps j) (sym e) (λ p. absurd (cc))

with_room-IsValid :
    (m : Memory) (u : Option ℕ) → IsValid m → IsValid (record m { shms = (with_room m.shms u).0 })
with_room-IsValid m (some i) v = v
with_room-IsValid m none v = (
  append-AreBacked m.shms zero_shm m.maps v.0,
  λ j s e. elim (append_last m.shms zero_shm j s e) [
    | inl old ↦ v.1 j s old
    | inr new ↦ zero-PendsWell m.maps j s new
  ],
)

pub shmget-IsValid :
    (key size flg pgid : ℕ) (alloc : ℤ → ℕ → ℤ) (m : Memory)
    → IsValid m
    → IsValid (shmget key size flg pgid alloc m).1
unfolding shmget
shmget-IsValid key size flg pgid alloc m v =
    let s = find_slot shm_slot key m.shms 0 none in
    let room = with_room m.shms s.unused_slot in
    if_both {A = ℤ × Memory} (λ r. IsValid r.1) s.found (λ e. v)
      λ e.
        if_both {A = ℤ × Memory} (λ r. IsValid r.1) (not (has_flag flg ipc_creat)) (λ f. v)
          λ f.
            create_shm-IsValid key size flg pgid alloc m room.0 room.1
              (with_room-IsValid m s.unused_slot v)
