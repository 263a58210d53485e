-- ===== src/SysVIpc/Sem/Stale.antt =====
-- Identifiers of removed semaphore sets.
use xyzterm.Common.{
  ℕ, ◌+◌, ◌%◌, ◌^◌, ◌≡◌, refl, sym, ◌∙◌, List, [], ◌∷◌, arith, length, get_elem?, set,
  get_elem?-set_self, get_elem?-set_ne, get_elem?-append_left, get_elem?-lt, none, some,
  Option-cases, Bool-cases, dec_eq, leb, inl, inr,
}
use xyzterm.Common.Int.{pos, to_int}
use xyzterm.SysVIpc.{Semaphore, Ipc}
use xyzterm.SysVIpc.Ids.{
  Search, find_slot, lookup_ipc_object, lookup-get_elem?, lookup_stale, has_flag, ipc_creat,
}
use xyzterm.SysVIpc.Sem.{
  fresh_sem, sem_slot, create_sem, get_or_create, semget, generation_at, max_sems, nsems_in_range,
}
use xyzterm.SysVIpc.Sem.Ctl.{semctl, semctl_run, rmid, removed_sem, ipc_rmid, WriteData}
use xyzterm.SysVIpc.Sem.Valid.{IsValid, get-SemIsValid}

-- Slot i has generation g.
abbrev pub AtGeneration : List Semaphore → ℕ → ℕ → Type 0
AtGeneration ss i g = (s : Semaphore) × (get_elem? ss i ≡ some s) × (s.slot.generation ≡ g)

set_generation :
    (ss : List Semaphore) (key n i j g : ℕ)
    → AtGeneration ss i g
    → AtGeneration (set ss j (fresh_sem key n (generation_at ss j))) i g
set_generation ss key n i j g (s, at, e) = elim (dec_eq i j) [
  | yes same ↦
      let old : generation_at ss j ≡ g = rw (← same, at, generation_at) e in
      (
        fresh_sem key n (generation_at ss j),
        rw same (
            get_elem?-set_self ss j (fresh_sem key n (generation_at ss j))
              (get_elem?-lt ss j (rw same at at))),
        old,
      )
  | no other ↦
      (s, get_elem?-set_ne ss (fresh_sem key n (generation_at ss j)) (λ q. other (sym q)) ∙ at, e)
]

create_generation :
    (ss : List Semaphore) (key n i g : ℕ) (s : Search)
    → AtGeneration ss i g
    → AtGeneration (create_sem ss key n s).1 i g
unfolding create_sem
create_generation ss key n i g s (a, at, e) = elim (Option-cases s.unused_slot) [
  | inr (j, u) ↦ rw (u, create_sem) (set_generation ss key n i j g (a, at, e))
  | inl u ↦ elim (Bool-cases (leb max_sems (length ss))) [
    | inl full ↦ rw (u, create_sem, full) (a, at, e)
    | inr room ↦
        rw (u, create_sem, room) (a, get_elem?-append_left ss (fresh_sem key n 0 ∷ []) i at, e)
  ]
]

-- semget(2) leaves the generation of every slot as it is.
pub semget_generation :
    (key nsems semflg : ℕ) (ipc : Ipc) (i g : ℕ)
    → AtGeneration ipc.semaphores i g
    → AtGeneration (semget key nsems semflg ipc).1.semaphores i g
unfolding semget get_or_create
semget_generation key nsems semflg ipc i g a =
    let s = find_slot sem_slot key ipc.semaphores 0 none in
    elim (Bool-cases (nsems_in_range (to_int nsems))) [
      | inl good ↦ elim (Bool-cases s.found) [
        | inl hit ↦ rw (good, hit) a
        | inr miss ↦ elim (Bool-cases (has_flag semflg ipc_creat)) [
          | inl creat ↦
              rw (good, miss, creat) (create_generation ipc.semaphores key (nsems % 2 ^ 32) i g s a)
          | inr plain ↦ rw (good, miss, plain) a
        ]
      ]
      | inr bad ↦ rw bad a
    ]

-- Further semget(2) calls, of any tracees, in order: the key, the size and the flags of each.
unfoldable pub semgets : List (ℕ × ℕ × ℕ) → Ipc → Ipc
semgets [] ipc = ipc
semgets ((key, nsems, semflg) ∷ calls) ipc = semgets calls (semget key nsems semflg ipc).1

semgets_generation :
    (calls : List (ℕ × ℕ × ℕ)) (ipc : Ipc) (i g : ℕ)
    → AtGeneration ipc.semaphores i g
    → AtGeneration (semgets calls ipc).semaphores i g
unfolding semgets
semgets_generation [] ipc i g a = a
semgets_generation ((key, nsems, semflg) ∷ calls) ipc i g a =
    semgets_generation calls (semget key nsems semflg ipc).1 i g
      (semget_generation key nsems semflg ipc i g a)

removed_at :
    (write : WriteData) (word semnum cmdarg : ℕ) (ipc ipc' : Ipc) (index : ℕ) (s : Semaphore)
    → lookup_ipc_object sem_slot ipc.semaphores word ≡ some (index, s)
    → semctl write word semnum ipc_rmid cmdarg ipc ≡ some (pos 0, ipc')
    → ipc'.semaphores ≡ set ipc.semaphores index (removed_sem s)
unfolding semctl semctl_run rmid
removed_at write word semnum cmdarg ipc ipc' index s found e = ground arith

-- After IPC_RMID an identifier is dead: whatever semget(2) calls follow, also such as take its slot
-- into use again, it is not looked up.
pub removed_id_stale :
    (write : WriteData) (word semnum cmdarg : ℕ) (ipc ipc' : Ipc) (calls : List (ℕ × ℕ × ℕ))
    → IsValid ipc
    → semctl write word semnum ipc_rmid cmdarg ipc ≡ some (pos 0, ipc')
    → lookup_ipc_object sem_slot (semgets calls ipc').semaphores word ≡ none
removed_id_stale write word semnum cmdarg ipc ipc' calls v e =
    elim (Option-cases (lookup_ipc_object sem_slot ipc.semaphores word)) [
      | inl missing ↦ absurd (unfold semctl in ground arith)
      | inr ((index, s), found) ↦
          let at = (lookup-get_elem? sem_slot ipc.semaphores word found).0 in
          let old = get-SemIsValid ipc.semaphores index at v.each in
          let gone = removed_at write word semnum cmdarg ipc ipc' index s found e in
          let (s', at', g') =
            semgets_generation calls ipc' index ((s.slot.generation + 1) % 2 ^ 16) (
              removed_sem s,
              rw gone (
                  get_elem?-set_self ipc.semaphores index (removed_sem s)
                    (get_elem?-lt ipc.semaphores index at)),
              refl,
            ) in
          lookup_stale sem_slot ipc.semaphores (semgets calls ipc').semaphores word found at'
            (omega (arith, g', old.counted))
    ]
