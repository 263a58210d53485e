-- ===== src/SysVIpc/Shm/Removal.antt =====
-- What shmctl(2) with IPC_RMID does to a segment that is mapped, through the calls that follow.
use xyzterm.Common.{
  ℕ, ◌⊎◌, ◌%◌, ◌^◌, ◌<◌, ◌≡◌, refl, sym, ap, ◌∙◌, subst, List, [], ◌∷◌, Option, none, some, Bool,
  true, not, ◌&&◌, ◌||◌, ◌==◌, if◌then◌else◌, if_both, arith, length, get_elem?, set, length-set,
  get_elem?-set_self, get_elem?-set_ne, get_elem?-lt, get_elem?-some, some-injective, Option-cases,
  dec_eq, inl, inr, Errno,
}
use xyzterm.Common.Int.{ℤ}
use xyzterm.SysVIpc.Ids.{lookup_ipc_object, lookup-get_elem?, lookup_found, lookup_kept}
use xyzterm.SysVIpc.Shm.{
  Shm, Mapping, Memory, shm_slot, shm_at, do_rmid, is_mapped, released, take_out, freed,
  free_mapping, find_mapping, detached, shmdt, count_mapped, rmid_shm, shmctl_run, shmctl,
  inherit_process, free_all, numbers_of, remove_mappings_from_process,
}
use xyzterm.SysVIpc.Shm.Attach.{
  attached, shmat, Link, chain_link, settled_by, is_pending, shmat_chain,
}
use xyzterm.SysVIpc.Shm.Valid.{IsValid, shm_at-get}
use xyzterm.SysVIpc.Shm.Detach.{shmctl-IsValid}
use xyzterm.SysVIpc.Shm.Steps.{Use, use_of, use_of-IsValid}

-- What the identifier names, if anything, is a segment whose removal is pending.
abbrev IsDoomed : ℕ → List Shm → Type 0
IsDoomed word shms =
    (j : ℕ) (s : Shm) → lookup_ipc_object shm_slot shms word ≡ some (j, s) → s.rmid_pending ≡ true

-- Unless the segment is removed, it keeps its slot and stays pending.
abbrev Fades : Shm → Shm → Type 0
Fades s s' =
    s'.slot.valid ≡ true → (s.slot ≡ s'.slot) × (s.rmid_pending ≡ true → s'.rmid_pending ≡ true)

set-IsDoomed :
    (word : ℕ) (shms : List Shm) (i : ℕ) (s' : Shm)
    → IsDoomed word shms
    → Fades (shm_at shms i) s'
    → IsDoomed word (set shms i s')
set-IsDoomed word shms i s' d fades j b e =
    let f = lookup-get_elem? shm_slot (set shms i s') word e in
    let long = sym (length-set shms i s') in
    let inside : j < length shms =
      omega (arith, get_elem?-lt (set shms i s') j f.0, length-set shms i s') in
    let old = get_elem?-some shms j inside in
    let at = old.1 in
    elim (dec_eq i j) [
      | yes same ↦
          let here : b ≡ s' = some-injective (
            sym f.0
            ∙ ap (get_elem? (set shms i s')) (sym same)
            ∙ get_elem?-set_self shms i s' (subst (λ k. k < length shms) (sym same) inside)) in
          let a_at : shm_at shms i ≡ old.0 =
            shm_at-get shms i old.0 (ap (get_elem? shms) same ∙ at) in
          let valid : s'.slot.valid ≡ true = sym (ap (λ x. x.slot.valid) here) ∙ f.1 in
          let kept =
            subst (λ x. (x.slot ≡ s'.slot) × (x.rmid_pending ≡ true → s'.rmid_pending ≡ true)) a_at
              (fades valid) in
          ap (λ x. x.rmid_pending) here
          ∙ kept.1 (
              d j old.0 (
                lookup_kept shm_slot shms (set shms i s') word e long at
                  (kept.0 ∙ sym (ap (λ x. x.slot) here))))
      | no other ↦
          let before = sym (get_elem?-set_ne shms s' other) ∙ f.0 in
          d j b (lookup_kept shm_slot shms (set shms i s') word e long before refl)
    ]

released-Fades : (mapped : Bool) (s : Shm) → Fades s (released mapped s)
released-Fades mapped s =
    if_both {A = Shm} (Fades s) (s.rmid_pending && not mapped) (λ e v. absurd (cc))
      (λ e v. (refl, λ p. p))

free_mapping-IsDoomed :
    (word number : ℕ) (m : Memory)
    → IsDoomed word m.shms
    → IsDoomed word (free_mapping number m).shms
unfolding free_mapping
free_mapping-IsDoomed word number m d = go (take_out number m.maps)
  where
    go : (t : Option (Mapping × List Mapping)) → IsDoomed word (freed t m).shms
    go none = d
    go (some (x, maps)) =
        let i = x.shm_index in
        set-IsDoomed word m.shms i (released (is_mapped i maps) (shm_at m.shms i)) d
          (released-Fades (is_mapped i maps) (shm_at m.shms i))

free_all-IsDoomed :
    (word : ℕ) (numbers : List ℕ) (m : Memory)
    → IsDoomed word m.shms
    → IsDoomed word (free_all numbers m).shms
free_all-IsDoomed word [] m d = d
free_all-IsDoomed word (n ∷ numbers) m d =
    free_all-IsDoomed word numbers (free_mapping n m) (free_mapping-IsDoomed word n m d)

shmctl-IsDoomed :
    (word w cmd : ℕ) (write : Shm → Option Errno) (m : Memory)
    → IsDoomed word m.shms
    → IsDoomed word (shmctl w cmd write m).1.shms
unfolding shmctl
shmctl-IsDoomed word w cmd write m d = go (lookup_ipc_object shm_slot m.shms w)
  where
    go : (r : Option (ℕ × Shm)) → IsDoomed word (shmctl_run cmd write m r).1.shms
    go none = d
    go (some (i, s)) =
        let c = cmd % 2 ^ 32 in
        let a = shm_at m.shms i in
        if_both {A = ℤ × Memory} (λ r. IsDoomed word r.1.shms) (c == 0 || c == 256)
          (λ e.
            set-IsDoomed word m.shms i
              (if is_mapped i m.maps then record a { rmid_pending = true } else do_rmid a) d
              (if_both {A = Shm} (Fades a) (is_mapped i m.maps) (λ f v. (refl, λ p. refl))
                (λ f v. absurd (cc))))
          λ e.
            if_both {A = ℤ × Memory} (λ r. IsDoomed word r.1.shms) (c == 2)
              (λ f.
                set-IsDoomed word m.shms i (record a { shm_nattch = count_mapped i m.maps }) d
                  (λ v. (refl, λ p. p)))
              (λ f. d)

use_of-IsDoomed :
    (word : ℕ) (u : Use) (m : Memory) → IsDoomed word m.shms → IsDoomed word (use_of u m).shms
unfolding shmat shmat_chain shmdt inherit_process remove_mappings_from_process
use_of-IsDoomed word (Use.attaches w pgid states) m d = go (lookup_ipc_object shm_slot m.shms w)
  where
    go : (r : Option (ℕ × Shm)) → IsDoomed word (attached pgid states m r).1.shms
    go none = d
    go (some (i, s)) = d
use_of-IsDoomed word (Use.continues c a pgid i) m d =
    go (chain_link c a) (find_mapping (is_pending i) pgid m.maps)
  where
    go : (l : Link) (x : Option Mapping) → IsDoomed word (settled_by l x m).shms
    go l none = d
    go (Link.goes_on next) (some x) = d
    go (Link.maps_at addr size) (some x) = d
    go (Link.fails closes) (some x) = free_mapping-IsDoomed word x.number m d
use_of-IsDoomed word (Use.detaches addr pgid) m d =
    go (find_mapping (λ x. x.addr == addr) pgid m.maps)
  where
    go : (x : Option Mapping) → IsDoomed word (detached x m).1.shms
    go none = d
    go (some x) = free_mapping-IsDoomed word x.number m d
use_of-IsDoomed word (Use.controls w cmd write) m d = shmctl-IsDoomed word w cmd write m d
use_of-IsDoomed word (Use.inherits parent child) m d = d
use_of-IsDoomed word (Use.exits pgid) m d = free_all-IsDoomed word (numbers_of pgid m.maps) m d

abbrev pub use_all : List Use → Memory → Memory
use_all [] m = m
use_all (u ∷ uses) m = use_all uses (use_of u m)

use_all-IsDoomed :
    (word : ℕ) (uses : List Use) (m : Memory)
    → IsDoomed word m.shms
    → IsDoomed word (use_all uses m).shms
use_all-IsDoomed word [] m d = d
use_all-IsDoomed word (u ∷ uses) m d =
    use_all-IsDoomed word uses (use_of u m) (use_of-IsDoomed word u m d)

use_all-IsValid : (uses : List Use) (m : Memory) → IsValid m → IsValid (use_all uses m)
use_all-IsValid [] m v = v
use_all-IsValid (u ∷ uses) m v = use_all-IsValid uses (use_of u m) (use_of-IsValid u m v)

-- IPC_RMID dooms the segment that it is given.
rmid_shm-IsDoomed :
    (word i : ℕ) (s : Shm) (m : Memory)
    → lookup_ipc_object shm_slot m.shms word ≡ some (i, s)
    → IsDoomed word (rmid_shm i m).shms
rmid_shm-IsDoomed word i s m e j b f =
    let a = shm_at m.shms i in
    let new = if is_mapped i m.maps then record a { rmid_pending = true } else do_rmid a in
    let before = lookup_found shm_slot m.shms word e in
    let after = lookup_found shm_slot (set m.shms i new) word f in
    let same : i ≡ j = sym before.2 ∙ after.2 in
    let here : b ≡ new = some-injective (
      sym after.0
      ∙ ap (get_elem? (set m.shms i new)) (sym same)
      ∙ get_elem?-set_self m.shms i new (get_elem?-lt m.shms i before.0)) in
    subst (λ x. x.rmid_pending ≡ true) (sym here)
      (if_both {A = Shm} (λ x. x.slot.valid ≡ true → x.rmid_pending ≡ true) (is_mapped i m.maps)
        (λ p v. refl) (λ p v. absurd (cc)) (sym (ap (λ x. x.slot.valid) here) ∙ after.1))

-- In a valid namespace, IPC_RMID on an identifier that names the segment i, and then any sequence of
-- calls other than shmget(2), of births and of ends of processes: the identifier names nothing, or it
-- still names the segment i, whose removal is pending and which a process still maps.
pub shmctl-removal :
    (word i : ℕ) (s : Shm) (write : Shm → Option Errno) (uses : List Use) (m : Memory)
    → IsValid m
    → lookup_ipc_object shm_slot m.shms word ≡ some (i, s)
    → let after = use_all uses (shmctl word 0 write m).1 in
      let named = lookup_ipc_object shm_slot after.shms word in
      (named ≡ none)
      ⊎ ((t : Shm) × (named ≡ some (i, t))
          × (t.rmid_pending ≡ true)
          × (is_mapped i after.maps ≡ true))
unfolding shmctl
shmctl-removal word i s write uses m v e =
    let start : (shmctl word 0 write m).1 ≡ rmid_shm i m = rw (e) refl in
    let after = use_all uses (shmctl word 0 write m).1 in
    let doomed =
      use_all-IsDoomed word uses (shmctl word 0 write m).1
        (subst (λ n. IsDoomed word n.shms) (sym start) (rmid_shm-IsDoomed word i s m e)) in
    let valid = use_all-IsValid uses (shmctl word 0 write m).1 (shmctl-IsValid word 0 write m v) in
    elim (Option-cases (lookup_ipc_object shm_slot after.shms word)) [
      | inl n ↦ inl n
      | inr ((j, t), f) ↦
          let found = lookup_found shm_slot after.shms word f in
          let same : j ≡ i = sym found.2 ∙ (lookup_found shm_slot m.shms word e).2 in
          let pending = doomed j t f in
          inr (
            t,
            f ∙ ap (λ k. some (k, t)) same,
            pending,
            subst (λ k. is_mapped k after.maps ≡ true) same (valid.1 j t found.0 pending).1,
          )
    ]
