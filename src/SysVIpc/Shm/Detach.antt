-- ===== src/SysVIpc/Shm/Detach.antt =====
-- The effects of shmat(2), shmdt(2), shmctl(2), of the birth and the end of a process on a valid
-- namespace of sysvipc_shm.c.
use xyzterm.Common.{
  or_true, ℕ, suc, ◌≡◌, ◌≢◌, refl, sym, ◌∙◌, subst, List, [], ◌∷◌, ◌++◌, Option, none, some, Bool,
  true, false, not, ◌&&◌, ◌||◌, ◌==◌, if◌then◌else◌, if_both, arith, set, ◌%◌, ◌^◌, Option-cases,
  Bool-cases, inl, inr, Errno,
}
use xyzterm.Common.Int.{ℤ}
use xyzterm.SysVIpc.{ChainState}
use xyzterm.SysVIpc.Ids.{lookup_ipc_object, lookup-get_elem?}
use xyzterm.SysVIpc.Shm.{
  Shm, Mapping, Memory, shm_slot, shm_at, do_rmid, is_mapped, released, take_out, freed,
  free_mapping, find_mapping, detached, shmdt, update_stats, count_mapped, rmid_shm, shmctl_run,
  shmctl, copies, inherit_process, free_all, numbers_of, remove_mappings_from_process,
}
use xyzterm.SysVIpc.Shm.Attach.{
  attached, with_mapping, shmat, Answers, Link, chain_link, settled_by, placed_at, is_pending,
  shmat_chain,
}
use xyzterm.SysVIpc.Shm.Valid.{
  IsBacked, AreBacked, PendsWell, IsValid, shm_at-PendsWell, shm_at-IsBacked, set-AreBacked,
  set-AllPendWell, take_out-is_mapped, take_out-AreBacked,
}
use xyzterm.SysVIpc.Shm.Reach.{slot-IsValid, mapped_valid}

-- A segment that is released is not pending any more, or still mapped.
released-PendsWell :
    (maps : List Mapping) (i : ℕ) (s : Shm)
    → s.slot.valid ≡ true
    → PendsWell maps i (released (is_mapped i maps) s)
released-PendsWell maps i s v = elim (Bool-cases (is_mapped i maps)) [
  | inl e ↦
      if_both {A = Shm} (PendsWell maps i) (s.rmid_pending && not (is_mapped i maps))
        (λ p. λ q. absurd (cc)) (λ p. λ q. (v, e))
  | inr e ↦
      if_both {A = Shm} (PendsWell maps i) (s.rmid_pending && not (is_mapped i maps))
        (λ p. λ q. absurd (cc)) (λ p. λ q. absurd (let bad : true ≡ false = rw (q, e) at p in cc))
]

released_valid :
    (mapped : Bool) (s : Shm)
    → s.slot.valid ≡ true
    → mapped ≡ true
    → (released mapped s).slot.valid ≡ true
released_valid mapped s v e =
    if_both {A = Shm} (λ r. r.slot.valid ≡ true) (s.rmid_pending && not mapped)
      (λ p. absurd (no_and s.rmid_pending (rw e at p))) (λ p. v)
  where
    no_and : (b : Bool) → (b && not true) ≡ true → ⊥
    no_and true p = absurd (cc)
    no_and false p = absurd (cc)

pub free_mapping-IsValid : (number : ℕ) (m : Memory) → IsValid m → IsValid (free_mapping number m)
unfolding free_mapping
free_mapping-IsValid number m v = elim (Option-cases (take_out number m.maps)) [
  | inl e ↦ subst (λ t. IsValid (freed t m)) (sym e) v
  | inr ((x, maps'), e) ↦
      let i = x.shm_index in
      let b = take_out-AreBacked m.shms number m.maps e v.0 in
      let s = shm_at m.shms i in
      let used = shm_at-IsBacked m.shms i b.0 in
      let keeps : (j : ℕ) → i ≢ j → is_mapped j m.maps ≡ true → is_mapped j maps' ≡ true =
        λ j other h. stays x maps' j other (sym (take_out-is_mapped number m.maps e j) ∙ h) in
      subst (λ t. IsValid (freed t m)) (sym e)
        (
          set-AreBacked m.shms i (released (is_mapped i maps') s) maps' b.1
              (released_valid (is_mapped i maps') s used),
          set-AllPendWell m.shms i (released (is_mapped i maps') s) m.maps maps' v.1 keeps
              (released-PendsWell maps' i s used),
        )
]
  where
    stays :
        (x : Mapping) (maps : List Mapping) (j : ℕ)
        → x.shm_index ≢ j
        → (x.shm_index == j || is_mapped j maps) ≡ true
        → is_mapped j maps ≡ true
    stays x maps j other h = elim (Bool-cases (x.shm_index == j)) [
      | inl e ↦ absurd (other (ground arith))
      | inr e ↦ rw (e) at h
    ]

-- A new mapping of a segment in use.
with_mapping-IsValid :
    (pgid i : ℕ) (m : Memory) → IsBacked m.shms i → IsValid m → IsValid (with_mapping pgid i m)
with_mapping-IsValid pgid i m b v =
    ((b, v.0), λ j s e p. let old = v.1 j s e p in (old.0, rw (old.1) (or_true (i == j))))

pub shmat-IsValid :
    (word pgid : ℕ) (states : List ChainState) (m : Memory)
    → IsValid m
    → IsValid (shmat word pgid states m).1
unfolding shmat
shmat-IsValid word pgid states m v = elim (Option-cases (lookup_ipc_object shm_slot m.shms word)) [
  | inl e ↦ subst (λ t. IsValid (attached pgid states m t).1) (sym e) v
  | inr ((i, s), e) ↦
      let found = lookup-get_elem? shm_slot m.shms word e in
      subst (λ t. IsValid (attached pgid states m t).1) (sym e)
        (with_mapping-IsValid pgid i m (s, found.0, found.1) v)
]

placed_at-is_mapped :
    (number addr size : ℕ) (maps : List Mapping) (j : ℕ)
    → is_mapped j (placed_at number addr size maps) ≡ is_mapped j maps
placed_at-is_mapped number addr size [] j = refl
placed_at-is_mapped number addr size (x ∷ maps) j =
    rw (placed_at-is_mapped number addr size maps j) (
      if_both {A = Mapping}
        (λ y. (y.shm_index == j || is_mapped j maps) ≡ (x.shm_index == j || is_mapped j maps))
        (x.number == number) (λ e. refl) (λ e. refl))

placed_at-AreBacked :
    (number addr size : ℕ) (shms : List Shm) (maps : List Mapping)
    → AreBacked shms maps
    → AreBacked shms (placed_at number addr size maps)
placed_at-AreBacked number addr size shms [] b = tt
placed_at-AreBacked number addr size shms (x ∷ maps) b = (
  if_both {A = Mapping} (λ y. IsBacked shms y.shm_index) (x.number == number) (λ e. b.0) (λ e. b.0),
  placed_at-AreBacked number addr size shms maps b.1,
)

settled_by-IsValid :
    (l : Link) (x : Option Mapping) (m : Memory) → IsValid m → IsValid (settled_by l x m)
settled_by-IsValid l none m v = v
settled_by-IsValid (Link.goes_on c) (some x) m v = v
settled_by-IsValid (Link.maps_at addr size) (some x) m v = (
  placed_at-AreBacked x.number addr size m.shms m.maps v.0,
  λ j s e p.
      let old = v.1 j s e p in (old.0, placed_at-is_mapped x.number addr size m.maps j ∙ old.1),
)
settled_by-IsValid (Link.fails closes) (some x) m v = free_mapping-IsValid x.number m v

pub shmat_chain-IsValid :
    (c : ChainState) (a : Answers) (pgid i : ℕ) (m : Memory)
    → IsValid m
    → IsValid (shmat_chain c a pgid i m).1
unfolding shmat_chain
shmat_chain-IsValid c a pgid i m v =
    settled_by-IsValid (chain_link c a) (find_mapping (is_pending i) pgid m.maps) m v

pub shmdt-IsValid : (addr pgid : ℕ) (m : Memory) → IsValid m → IsValid (shmdt addr pgid m).1
unfolding shmdt
shmdt-IsValid addr pgid m v = go (find_mapping (λ x. x.addr == addr) pgid m.maps)
  where
    go : (x : Option Mapping) → IsValid (detached x m).1
    go none = v
    go (some x) = free_mapping-IsValid x.number m v

rmid_shm-IsValid : (i : ℕ) (m : Memory) → IsValid m → IsValid (rmid_shm i m)
rmid_shm-IsValid i m v =
    let s = shm_at m.shms i in
    elim (Bool-cases (is_mapped i m.maps)) [
      | inl e ↦ subst (At s) (sym e) (
          slot-IsValid m i (record s { rmid_pending = true }) v (mapped_valid m i v)
            (λ p. (mapped_valid m i v e, e)))
      | inr e ↦
          subst (At s) (sym e)
            (slot-IsValid m i (do_rmid s) v (λ h. absurd (cc)) (λ p. absurd (cc)))
    ]
  where
    At : Shm → Bool → Type 0
    At s b = IsValid (record m {
      shms = set m.shms i (if b then record s { rmid_pending = true } else do_rmid s);
    })

update_stats-IsValid : (i : ℕ) (m : Memory) → IsValid m → IsValid (update_stats i m)
update_stats-IsValid i m v =
    slot-IsValid m i (record (shm_at m.shms i) { shm_nattch = count_mapped i m.maps }) v
      (mapped_valid m i v) (shm_at-PendsWell m.shms m.maps i v.1)

pub shmctl-IsValid :
    (word cmd : ℕ) (write : Shm → Option Errno) (m : Memory)
    → IsValid m
    → IsValid (shmctl word cmd write m).1
unfolding shmctl
shmctl-IsValid word cmd write m v = go (lookup_ipc_object shm_slot m.shms word)
  where
    go : (r : Option (ℕ × Shm)) → IsValid (shmctl_run cmd write m r).1
    go none = v
    go (some (i, s)) =
        let c = cmd % 2 ^ 32 in
        if_both {A = ℤ × Memory} (λ r. IsValid r.1) (c == 0 || c == 256)
          (λ e. rmid_shm-IsValid i m v)
          λ e.
            if_both {A = ℤ × Memory} (λ r. IsValid r.1) (c == 2) (λ f. update_stats-IsValid i m v)
              (λ f. v)

copies-AreBacked :
    (parent child next : ℕ) (shms : List Shm) (maps rest : List Mapping)
    → AreBacked shms maps
    → AreBacked shms rest
    → AreBacked shms (copies parent child next maps ++ rest)
copies-AreBacked parent child next shms [] rest b c = c
copies-AreBacked parent child next shms (x ∷ maps) rest b c =
    let ih = copies-AreBacked parent child (suc next) shms maps rest b.1 c in
    if_both {A = List Mapping} (λ r. AreBacked shms (r ++ rest)) (x.pgid == parent) (λ e. (b.0, ih))
      (λ e. ih)

is_mapped-append :
    (xs ys : List Mapping) (j : ℕ) → is_mapped j ys ≡ true → is_mapped j (xs ++ ys) ≡ true
is_mapped-append [] ys j h = h
is_mapped-append (x ∷ xs) ys j h = rw (is_mapped-append xs ys j h) (or_true (x.shm_index == j))

pub inherit_process-IsValid :
    (parent child : ℕ) (m : Memory) → IsValid m → IsValid (inherit_process parent child m)
unfolding inherit_process
inherit_process-IsValid parent child m v = (
  copies-AreBacked parent child m.next m.shms m.maps m.maps v.0 v.0,
  λ j s e p.
      let old = v.1 j s e p in
      (old.0, is_mapped-append (copies parent child m.next m.maps) m.maps j old.1),
)

free_all-IsValid : (numbers : List ℕ) (m : Memory) → IsValid m → IsValid (free_all numbers m)
free_all-IsValid [] m v = v
free_all-IsValid (n ∷ numbers) m v =
    free_all-IsValid numbers (free_mapping n m) (free_mapping-IsValid n m v)

pub remove_mappings_from_process-IsValid :
    (pgid : ℕ) (m : Memory) → IsValid m → IsValid (remove_mappings_from_process pgid m)
unfolding remove_mappings_from_process
remove_mappings_from_process-IsValid pgid m v = free_all-IsValid (numbers_of pgid m.maps) m v
