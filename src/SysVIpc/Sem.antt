-- ===== src/SysVIpc/Sem.antt =====
-- extension/sysvipc/sysvipc_sem.c: semget(2), semop(2), semctl(2). A call returns its status with
-- the namespace afterwards; `none` is a failed assertion.
pub mod Ops
pub mod Get
pub mod Valid
pub mod Ctl
pub mod Stale
pub mod Total
mod Tests
use xyzterm.Common.{
  ℕ, zero, suc, ◌+◌, ◌-◌, ◌*◌, ◌%◌, ◌^◌, ◌≤◌, ◌<◌, ◌≡◌, List, [], ◌∷◌, ◌++◌, Option, none, some,
  Bool, true, false, not, ◌&&◌, ◌||◌, ltb, leb, ◌==◌, if◌then◌else◌, length, get_elem?, get_or, set,
  replicate, fail, ◌⊎◌, inl, inr, Errno, enoent, enospc, eexist, einval, eagain, erange, e2big,
  efbig, eidrm, efault,
}
use xyzterm.Common.Int.{ℤ, pos, negsuc, to_int}
use xyzterm.SysVIpc.{Slot, Semaphore, Sembuf, WaitReason, Config, Ipc}
use xyzterm.SysVIpc.Ids.{
  has_flag, ipc_creat, ipc_excl, ipc_nowait, object_id, lookup_ipc_object, Search, find_slot,
}
use xyzterm.SysVIpc.Wait.{wake_tracee, is_wait_semop, wake_all, update_config}

abbrev pub max_sems : ℕ
max_sems = 512

abbrev pub max_nsems : ℕ
max_nsems = 512

abbrev pub max_nsops : ℕ
max_nsops = 512

abbrev pub max_semval : ℕ
max_semval = 0x7000

abbrev pub sem_slot : Semaphore → Slot
sem_slot s = s.slot

-- A slot taken into use. Its generation stays.
abbrev pub fresh_sem : ℕ → ℕ → ℕ → Semaphore
fresh_sem semaphore_id nsems generation = record {
  slot = record { key = semaphore_id % 2 ^ 32; generation = generation; valid = true };
  sems = replicate nsems 0;
  nsems = nsems;
}

abbrev pub generation_at : List Semaphore → ℕ → ℕ
generation_at semaphores i = elim (get_elem? semaphores i) [ none ↦ 0 | some s ↦ s.slot.generation ]

-- The semaphore is not found, and is to be made.
create_sem : List Semaphore → ℕ → ℕ → Search → ℤ × List Semaphore
create_sem semaphores semaphore_id nsems s = elim s.unused_slot [
  | some i ↦ (
    object_id i (generation_at semaphores i),
    set semaphores i (fresh_sem semaphore_id nsems (generation_at semaphores i)),
  )
  | none ↦
      if leb max_sems (length semaphores)
      then (fail enospc, semaphores)
      else (object_id (length semaphores) 0, semaphores ++ (fresh_sem semaphore_id nsems 0 ∷ []))
]

-- The semaphore is found at an index.
open_sem : List Semaphore → ℕ → ℕ → ℕ → ℤ
open_sem semaphores nsems semflg i =
    if has_flag semflg ipc_creat && has_flag semflg ipc_excl
    then fail eexist
    else elim (get_elem? semaphores i) [
      | none ↦ fail einval
      | some s ↦ if ltb s.nsems nsems then fail einval else object_id i s.slot.generation
    ]

get_or_create : List Semaphore → ℕ → ℕ → ℕ → Search → ℤ × List Semaphore
get_or_create semaphores semaphore_id nsems semflg s =
    if s.found
    then (open_sem semaphores nsems semflg s.index, semaphores)
    else if not (has_flag semflg ipc_creat)
    then (fail enoent, semaphores)
    else create_sem semaphores semaphore_id nsems s

-- nsems as an `int` lies between 1 and SYSVIPC_MAX_NSEMS.
abbrev pub nsems_in_range : ℤ → Bool
nsems_in_range (pos n) = ltb 0 n && leb n max_nsems
nsems_in_range (negsuc n) = false

pub semget : ℕ → ℕ → ℕ → Ipc → ℤ × Ipc
unfolding get_or_create create_sem open_sem
semget semaphore_id nsems_word semflg ipc =
    if not (nsems_in_range (to_int nsems_word))
    then (fail einval, ipc)
    else let (status, semaphores) =
        get_or_create ipc.semaphores semaphore_id (nsems_word % 2 ^ 32) semflg
          (find_slot sem_slot semaphore_id ipc.semaphores 0 none) in
      (status, record ipc { semaphores = semaphores })

-- What sysvipc_sem_check finds: the operations would block (its result 1), they fail, or they give
-- these new values (0, with the copy back).
pub data Outcome : Type 0 where
  blocked : Outcome
  failed : Errno → Outcome
  finished : List ℕ → Outcome

-- The operation cannot be done yet.
abbrev not_yet : Sembuf → Outcome
not_yet o = if has_flag o.sem_flg ipc_nowait then failed eagain else blocked

-- A value is replaced if it is not too large.
abbrev store_value : Sembuf → List ℕ → ℕ → Outcome
store_value o sems new_value =
    if ltb max_semval new_value then failed erange else finished (set sems o.sem_num new_value)

-- One round of the loop of sysvipc_sem_check.
pub sem_step : Sembuf → List ℕ → ℤ → Outcome
sem_step o sems (pos zero) = if not (get_or sems o.sem_num 0 == 0) then not_yet o else finished sems
sem_step o sems (pos (suc n)) = store_value o sems (get_or sems o.sem_num 0 + suc n)
sem_step o sems (negsuc n) =
    let value = get_or sems o.sem_num 0 in
    if ltb value (suc n) then not_yet o else store_value o sems (value - suc n)

pub sem_check : List Sembuf → List ℕ → Outcome
unfolding sem_step
sem_check [] sems = finished sems
sem_check (o ∷ sops) sems = elim (sem_step o sems o.sem_op) [
  | blocked ↦ blocked
  | failed e ↦ failed e
  | finished sems' ↦ sem_check sops sems'
]

-- The tracees that wait for this semaphore are checked again, in the order of the list, each
-- against the values that the ones before it left.
abbrev waits_here : ℕ → ℕ → Config → Bool
waits_here pid index c =
    not (c.pid == pid) && is_wait_semop c.wait_reason && c.waiting_object_index == index

recheck_one : Config → List ℕ → Outcome → Option (Config × List ℕ)
recheck_one c sems blocked = some (c, sems)
recheck_one c sems (failed e) = elim (wake_tracee (record c { semop_sops = [] }) (fail e)) [
  | none ↦ none
  | some c' ↦ some (c', sems)
]
recheck_one c sems (finished sems') = elim (wake_tracee (record c { semop_sops = [] }) (pos 0)) [
  | none ↦ none
  | some c' ↦ some (c', sems')
]

visit : ℕ → ℕ → Config → List ℕ → Option (Config × List ℕ)
unfolding recheck_one
visit pid index c sems =
    if waits_here pid index c
    then recheck_one c sems (sem_check c.semop_sops sems)
    else some (c, sems)

pub recheck : ℕ → ℕ → List Config → List ℕ → Option (List Config × List ℕ)
unfolding visit
recheck pid index [] sems = some ([], sems)
recheck pid index (c ∷ cs) sems = elim (visit pid index c sems) [
  | none ↦ none
  | some (c', sems') ↦ elim (recheck pid index cs sems') [
    | none ↦ none
    | some (cs', sems'') ↦ some (c' ∷ cs', sems'')
  ]
]

-- The caller's own configuration and result, from its outcome.
abbrev semop_config : ℕ → List Sembuf → Outcome → Config → Config
semop_config index sops blocked c = record c {
  wait_reason = WaitReason.wait_semop;
  waiting_object_index = index;
  semop_sops = sops;
}
semop_config index sops o c = record c {
  wait_reason = WaitReason.not_waiting;
  waiting_object_index = index;
  semop_sops = [];
}

abbrev semop_status : Outcome → ℤ
semop_status blocked = pos 0
semop_status (failed e) = fail e
semop_status (finished sems) = pos 0

abbrev values_after : Outcome → List ℕ → List ℕ
values_after (finished sems') sems = sems'
values_after o sems = sems

-- From the assignment of config->wait_reason on.
semop_run : ℕ → Ipc → ℕ → Semaphore → List Sembuf → Outcome → Option (ℤ × Ipc)
semop_run pid ipc index s sops o = elim (recheck pid index ipc.tracees (values_after o s.sems)) [
  | none ↦ none
  | some (tracees, sems) ↦ some (
    semop_status o,
    record ipc {
      semaphores = set ipc.semaphores index (record s { sems = sems });
      tracees = update_config pid (semop_config index sops o) tracees;
    },
  )
]

pub all_in_range : ℕ → List Sembuf → Bool
all_in_range nsems [] = true
all_in_range nsems (o ∷ sops) = ltb o.sem_num nsems && all_in_range nsems sops

abbrev semop_checked : ℕ → Ipc → ℕ → Semaphore → List Sembuf → Option (ℤ × Ipc)
unfolding all_in_range semop_run
semop_checked pid ipc index s sops =
    if not (all_in_range s.nsems sops)
    then some (fail efbig, ipc)
    else semop_run pid ipc index s sops (sem_check sops s.sems)

-- `read_sops` is read_data on the tracee's memory for an array of that many operations: the array,
-- or the error that reading it gives.
abbrev pub ReadSops : Type 0
ReadSops = ℕ → ℕ → List Sembuf ⊎ Errno

pub semop : ReadSops → ℕ → ℕ → ℕ → ℕ → Ipc → Option (ℤ × Ipc)
unfolding semop_checked
semop read_sops pid id_word sops_ptr nsops ipc =
    elim (lookup_ipc_object sem_slot ipc.semaphores id_word) [
      | none ↦ some (fail einval, ipc)
      | some (index, s) ↦
          if ltb max_nsops nsops
          then some (fail e2big, ipc)
          else if nsops == 0
          then some (fail einval, ipc)
          else elim (read_sops sops_ptr nsops) [
            | inr e ↦ some (fail e, ipc)
            | inl sops ↦ semop_checked pid ipc index s sops
          ]
    ]

-- sysvipc_semop_timedout, on the tracee's configuration.
abbrev pub semop_timedout : Config → Config
semop_timedout c = record c { semop_sops = []; wait_reason = WaitReason.not_waiting }
