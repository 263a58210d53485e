-- ===== src/SysVIpc/Sem/Valid.antt =====
-- The invariant of the semaphores of a namespace, which every system call keeps: the array stays
-- within SYSVIPC_MAX_SEMS, each set within SYSVIPC_MAX_NSEMS and as large as it says, each value
-- within SYSVIPC_MAX_SEMVAL.
use xyzterm.Common.{
  ℕ, zero, suc, ◌%◌, ◌^◌, ◌≤◌, ◌<◌, ◌≡◌, refl, sym, ◌++◌, inl, inr, List, [], ◌∷◌, Bool, true,
  false, arith, length, get_elem?, set, length-set, length-append, length-replicate, replicate,
  Option, none, some, Option-cases, subst, Bool-cases, ⊎-cases,
}
use xyzterm.Common.Int.{ℤ, to_int}
use xyzterm.SysVIpc.{Semaphore, Sembuf, Config, Ipc}
use xyzterm.SysVIpc.Ids.{Search, find_slot, lookup_ipc_object, lookup-get_elem?}
use xyzterm.SysVIpc.Sem.{
  Outcome, blocked, failed, finished, sem_check, max_sems, max_nsems, max_semval, fresh_sem,
  sem_slot, create_sem, get_or_create, semget, semop, recheck, recheck_one, semop_run, ReadSops,
  generation_at, values_after, visit, waits_here,
}
use xyzterm.SysVIpc.Sem.Ctl.{semctl, semctl_run, setval, rmid, WriteData, removed_sem, sem_index}
use xyzterm.SysVIpc.Sem.Ops.{AllBelow, set-AllBelow, sem_check_keeps, Outcome-cases}

-- A set in use has as many values as it says.
abbrev pub SizedIf : Bool → Semaphore → Type 0
SizedIf true s = length s.sems ≡ s.nsems
SizedIf false s = Unit {0}

pub record SemIsValid (s : Semaphore) : Type 0 where
  pub sized : SizedIf s.slot.valid s
  pub bounded : AllBelow max_semval s.sems
  pub few : s.nsems ≤ max_nsems
  pub counted : s.slot.generation < 2 ^ 16

abbrev pub AllValid : List Semaphore → Type 0
AllValid [] = Unit {0}
AllValid (s ∷ ss) = SemIsValid s × AllValid ss

pub record IsValid (ipc : Ipc) : Type 0 where
  pub count : length ipc.semaphores ≤ max_sems
  pub each : AllValid ipc.semaphores

replicate-AllBelow : (n k : ℕ) → AllBelow n (replicate k 0)
replicate-AllBelow n zero = tt
replicate-AllBelow n (suc k) = (omega arith, replicate-AllBelow n k)

fresh-SemIsValid : (key n g : ℕ) → n ≤ max_nsems → g < 2 ^ 16 → SemIsValid (fresh_sem key n g)
fresh-SemIsValid key n g h k = record {
  sized = length-replicate n 0;
  bounded = replicate-AllBelow max_semval n;
  few = h;
  counted = k;
}

set-AllValid :
    (ss : List Semaphore) (i : ℕ) (s : Semaphore)
    → SemIsValid s
    → AllValid ss
    → AllValid (set ss i s)
set-AllValid [] i s h b = tt
set-AllValid (x ∷ xs) zero s h b = (h, b.1)
set-AllValid (x ∷ xs) (suc i) s h b = (b.0, set-AllValid xs i s h b.1)

append-AllValid :
    (ss : List Semaphore) (s : Semaphore) → SemIsValid s → AllValid ss → AllValid (ss ++ (s ∷ []))
append-AllValid [] s h b = (h, tt)
append-AllValid (x ∷ xs) s h b = (b.0, append-AllValid xs s h b.1)

pub get-SemIsValid :
    (ss : List Semaphore) (i : ℕ) {s : Semaphore}
    → get_elem? ss i ≡ some s
    → AllValid ss
    → SemIsValid s
get-SemIsValid [] i e b = absurd (cc)
get-SemIsValid (x ∷ xs) zero {s} e b = subst SemIsValid (ground arith) b.0
get-SemIsValid (x ∷ xs) (suc i) e b = get-SemIsValid xs i e b.1

generation_at-lt : (ss : List Semaphore) (i : ℕ) → AllValid ss → generation_at ss i < 2 ^ 16
generation_at-lt [] i b = omega arith
generation_at-lt (x ∷ xs) zero b = b.0.counted
generation_at-lt (x ∷ xs) (suc i) b = generation_at-lt xs i b.1

-- The array of semaphores alone.
abbrev Good : List Semaphore → Type 0
Good ss = (length ss ≤ max_sems) × AllValid ss

create-Good :
    (ss : List Semaphore) (key n : ℕ) (s : Search)
    → n ≤ max_nsems
    → Good ss
    → Good (create_sem ss key n s).1
unfolding create_sem
create-Good ss key n s h g = elim (Option-cases s.unused_slot) [
  | inl e ↦
      rw (e, create_sem)
        (ground (
          arith,
          length-append ss (fresh_sem key n 0 ∷ []),
          append-AllValid ss (fresh_sem key n 0) (fresh-SemIsValid key n 0 h (omega arith)) g.1,
        ))
  | inr (i, e) ↦
      rw (e, create_sem)
        (
          omega (arith, length-set ss i (fresh_sem key n (generation_at ss i))),
          set-AllValid ss i (fresh_sem key n (generation_at ss i))
              (fresh-SemIsValid key n (generation_at ss i) h (generation_at-lt ss i g.1)) g.1,
        )
]

-- If there are no more sets than allowed, and every set has as many values as it says, none of them
-- above the limit, semget(2) keeps it so, whatever its arguments are.
pub semget-IsValid :
    (key nsems semflg : ℕ) (ipc : Ipc) → IsValid ipc → IsValid (semget key nsems semflg ipc).1
unfolding semget get_or_create
semget-IsValid key nsems semflg ipc v = ground (
  arith,
  create-Good ipc.semaphores key (nsems % 2 ^ 32) (find_slot sem_slot key ipc.semaphores 0 none),
)

-- The values as a semop(2) leaves them: as many as before, and none too large.
abbrev Kept : List ℕ → List ℕ → Type 0
Kept sems sems' = (length sems' ≡ length sems) × AllBelow max_semval sems'

recheck_one_values :
    (c : Config) (sems : List ℕ) (o : Outcome) {c' : Config} {sems' : List ℕ}
    → recheck_one c sems o ≡ some (c', sems')
    → sems' ≡ values_after o sems
unfolding recheck_one
recheck_one_values c sems blocked e = ground arith
recheck_one_values c sems (failed x) e = ground arith
recheck_one_values c sems (finished s) e = ground arith

after_check :
    (sops : List Sembuf) (sems : List ℕ)
    → AllBelow max_semval sems
    → Kept sems (values_after (sem_check sops sems) sems)
after_check sops sems b = elim (Outcome-cases (sem_check sops sems)) [
  | inl e ↦ rw e (refl, b)
  | inr (inl (x, e)) ↦ rw e (refl, b)
  | inr (inr (s, e)) ↦ rw e (sem_check_keeps sops sems e b)
]

visit_keeps :
    (pid index : ℕ) (c : Config) (sems : List ℕ) {c' : Config} {sems' : List ℕ}
    → visit pid index c sems ≡ some (c', sems')
    → AllBelow max_semval sems
    → Kept sems sems'
unfolding visit
visit_keeps pid index c sems {c'} {sems'} e b = elim (Bool-cases (waits_here pid index c)) [
  | inl w ↦
      subst (Kept sems)
        (sym (
          recheck_one_values c sems (sem_check c.semop_sops sems) {c' = c'} {sems' = sems'}
            (rw w at e)))
        (after_check c.semop_sops sems b)
  | inr w ↦ let e' = rw w at e in ground arith
]

recheck_keeps :
    (pid index : ℕ) (cs : List Config) (sems : List ℕ) {cs' : List Config} {sems' : List ℕ}
    → recheck pid index cs sems ≡ some (cs', sems')
    → AllBelow max_semval sems
    → Kept sems sems'
unfolding recheck
recheck_keeps pid index [] sems e b = ground arith
recheck_keeps pid index (c ∷ cs) sems {cs'} {sems'} e b =
    elim (Option-cases (visit pid index c sems)) [
      | inl v ↦ absurd (cc)
      | inr ((c₁, mid), v) ↦ elim (Option-cases (recheck pid index cs mid)) [
        | inl r ↦ absurd (cc)
        | inr ((cs₁, last), r) ↦
            let k = visit_keeps pid index c sems v b in
            let k' = recheck_keeps pid index cs mid r k.1 in ground arith
      ]
    ]

-- Writing back the values of a semaphore set in use.
stored :
    (ss : List Semaphore) (index : ℕ) (s : Semaphore) (sems : List ℕ)
    → get_elem? ss index ≡ some s
    → Kept s.sems sems
    → Good ss
    → Good (set ss index (record s { sems = sems }))
stored ss index s sems at k g =
    let v = get-SemIsValid ss index at g.1 in
    (
      omega (arith, length-set ss index (record s { sems = sems }), g.0),
      set-AllValid ss index (record s { sems = sems })
          (record {
            sized = ground (arith, v.sized);
            bounded = k.1;
            few = v.few;
            counted = v.counted;
          })
          g.1,
    )

semop_run-IsValid :
    (pid : ℕ) (ipc : Ipc) (index : ℕ) (s : Semaphore) (sops : List Sembuf) {status : ℤ} {ipc' : Ipc}
    → get_elem? ipc.semaphores index ≡ some s
    → semop_run pid ipc index s sops (sem_check sops s.sems) ≡ some (status, ipc')
    → IsValid ipc
    → IsValid ipc'
unfolding semop_run
semop_run-IsValid pid ipc index s sops {status} {ipc'} at e v =
    let o = sem_check sops s.sems in
    elim (Option-cases (recheck pid index ipc.tracees (values_after o s.sems))) [
      | inl r ↦ absurd (cc)
      | inr ((cs, sems), r) ↦
          let here =
            after_check sops s.sems (get-SemIsValid ipc.semaphores index at v.each).bounded in
          let k = recheck_keeps pid index ipc.tracees (values_after o s.sems) r here.1 in
          let g =
            stored ipc.semaphores index s sems at (omega (arith, here.0, k.0), k.1)
              (v.count, v.each) in
          ground arith
    ]

-- If there are no more sets than allowed, and every set has as many values as it says, none of them
-- above the limit, semop(2) keeps it so, with all the tracees that it lets go on.
pub semop-IsValid :
    (read : ReadSops) (pid id ptr nsops : ℕ) (ipc : Ipc) {status : ℤ} {ipc' : Ipc}
    → semop read pid id ptr nsops ipc ≡ some (status, ipc')
    → IsValid ipc
    → IsValid ipc'
unfolding semop
semop-IsValid read pid id ptr nsops ipc {status} {ipc'} e v =
    elim (Option-cases (lookup_ipc_object sem_slot ipc.semaphores id)) [
      | inl m ↦ ground arith
      | inr ((index, s), m) ↦ elim (⊎-cases (read ptr nsops)) [
        | inr (x, r) ↦ ground arith
        | inl (sops, r) ↦
            let at = (lookup-get_elem? sem_slot ipc.semaphores id m).0 in
            ground (
              arith,
              λ (q : semop_run pid ipc index s sops (sem_check sops s.sems) ≡ some (status, ipc')).
                  semop_run-IsValid pid ipc index s sops at q v,
            )
      ]
    ]

removed-SemIsValid : {s : Semaphore} → SemIsValid s → SemIsValid (removed_sem s)
removed-SemIsValid v = record { sized = tt; bounded = tt; few = v.few; counted = omega arith }

setval-IsValid :
    (ipc : Ipc) (index : ℕ) (s : Semaphore) (semnum : Option ℕ) (value : ℕ)
    → get_elem? ipc.semaphores index ≡ some s
    → value ≤ max_semval
    → IsValid ipc
    → IsValid (setval ipc index s semnum value).1
unfolding setval
setval-IsValid ipc index s none value at h v = v
setval-IsValid ipc index s (some n) value at h v =
    let b = (get-SemIsValid ipc.semaphores index at v.each).bounded in
    let g =
      stored ipc.semaphores index s (set s.sems n value) at
        (length-set s.sems n value, set-AllBelow max_semval s.sems n value h b) (v.count, v.each) in
    record { count = g.0; each = g.1 }

rmid-IsValid :
    (ipc : Ipc) (index : ℕ) (s : Semaphore) {status : ℤ} {ipc' : Ipc}
    → get_elem? ipc.semaphores index ≡ some s
    → rmid ipc index s ≡ some (status, ipc')
    → IsValid ipc
    → IsValid ipc'
unfolding rmid
rmid-IsValid ipc index s at e v = ground (
  arith,
  length-set ipc.semaphores index (removed_sem s),
  set-AllValid ipc.semaphores index (removed_sem s)
      (removed-SemIsValid (get-SemIsValid ipc.semaphores index at v.each)) v.each,
)

-- If there are no more sets than allowed, and every set has as many values as it says, none of them
-- above the limit, semctl(2) keeps it so, whatever the command is.
pub semctl-IsValid :
    (write : WriteData) (id semnum cmd cmdarg : ℕ) (ipc : Ipc) {status : ℤ} {ipc' : Ipc}
    → semctl write id semnum cmd cmdarg ipc ≡ some (status, ipc')
    → IsValid ipc
    → IsValid ipc'
unfolding semctl semctl_run
semctl-IsValid write id semnum cmd cmdarg ipc {status} {ipc'} e v =
    elim (Option-cases (lookup_ipc_object sem_slot ipc.semaphores id)) [
      | inl m ↦ ground arith
      | inr ((index, s), m) ↦
          let at = (lookup-get_elem? sem_slot ipc.semaphores id m).0 in
          ground (
            arith,
            λ (q : rmid ipc index s ≡ some (status, ipc')). rmid-IsValid ipc index s at q v,
            setval-IsValid ipc index s (sem_index (to_int semnum) s.nsems) cmdarg at,
          )
    ]
