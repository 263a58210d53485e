-- ===== src/SysVIpc/Sem/Ctl.antt =====
-- sysvipc_semctl of extension/sysvipc/sysvipc_sem.c.
use xyzterm.Common.{
  ℕ, ◌+◌, ◌-◌, ◌*◌, ◌%◌, ◌^◌, List, [], ◌∷◌, Option, none, some, Bool, false, ◌&&◌, ◌||◌, ltb, ◌==◌,
  if◌then◌else◌, length, get_or, set, fail, Errno, einval, erange, eidrm, bit_and,
}
use xyzterm.Common.Int.{ℤ, pos, negsuc, to_int}
use xyzterm.SysVIpc.{Semaphore, Config, Ipc}
use xyzterm.SysVIpc.Ids.{lookup_ipc_object}
use xyzterm.SysVIpc.Wait.{is_wait_semop, wake_all}
use xyzterm.SysVIpc.Sem.{sem_slot, max_sems, max_nsems, max_nsops, max_semval}

-- The fields of `struct SysVIpcSeminfo` that are set; the others are 0.
pub record Seminfo : Type 0 where
  pub semmni : ℕ
  pub semmns : ℕ
  pub semmsl : ℕ
  pub semopm : ℕ
  pub semusz : ℕ
  pub semvmx : ℕ
  pub semaem : ℕ

-- What a command writes to the tracee's memory.
pub data Written : Type 0 where
  sem_values : List ℕ → Written
  seminfo : Seminfo → Written

-- write_data to the tracee at an address: `some` is the error that it gives.
abbrev pub WriteData : Type 0
WriteData = ℕ → Written → Option Errno

abbrev pub ipc_rmid : ℕ
ipc_rmid = 0

abbrev pub sem_getval : ℕ
sem_getval = 12

abbrev pub sem_getall : ℕ
sem_getall = 13

abbrev pub sem_setval : ℕ
sem_setval = 16

abbrev pub ipc_info : ℕ
ipc_info = 3

abbrev pub sem_info : ℕ
sem_info = 19

-- `cmd & ~SYSVIPC_IPC_64`.
abbrev pub without_ipc_64 : ℕ → ℕ
without_ipc_64 cmd = cmd - bit_and cmd 0x100

abbrev write_status : Option Errno → ℤ
write_status none = pos 0
write_status (some e) = fail e

-- `semnum < 0 || semnum >= semaphore->nsems`, and the index otherwise.
abbrev pub sem_index : ℤ → ℕ → Option ℕ
sem_index (pos n) nsems = if ltb n nsems then some n else none
sem_index (negsuc n) nsems = none

getval : Semaphore → Option ℕ → ℤ
getval s none = fail einval
getval s (some n) = pos (get_or s.sems n 0)

unfoldable pub setval : Ipc → ℕ → Semaphore → Option ℕ → ℕ → ℤ × Ipc
setval ipc index s none cmdarg = (fail einval, ipc)
setval ipc index s (some n) cmdarg = (
  pos 0,
  record ipc { semaphores = set ipc.semaphores index (record s { sems = set s.sems n cmdarg }) },
)

-- The semaphore set after its removal: its generation moves on and its values are freed.
abbrev pub removed_sem : Semaphore → Semaphore
removed_sem s = record s {
  slot = record s.slot { valid = false; generation = (s.slot.generation + 1) % 2 ^ 16 };
  sems = [];
}

abbrev pub waits_for_sem : ℕ → Config → Bool
waits_for_sem index c = is_wait_semop c.wait_reason && c.waiting_object_index == index

unfoldable pub rmid : Ipc → ℕ → Semaphore → Option (ℤ × Ipc)
rmid ipc index s = elim (wake_all (waits_for_sem index) (fail eidrm) ipc.tracees) [
  | none ↦ none
  | some tracees ↦ some (
    pos 0,
    record ipc { semaphores = set ipc.semaphores index (removed_sem s); tracees = tracees },
  )
]

sum_nsems : List Semaphore → ℕ
sum_nsems [] = 0
sum_nsems (s ∷ ss) = s.nsems + sum_nsems ss

info_of : List Semaphore → ℕ → Seminfo
unfolding sum_nsems
info_of semaphores cmd = record {
  semmni = max_sems;
  semmns = max_sems * max_nsems;
  semmsl = max_nsems;
  semopm = max_nsops;
  semusz = if cmd == sem_info then length semaphores else 0;
  semvmx = max_semval;
  semaem = if cmd == sem_info then sum_nsems semaphores else 0;
}

-- The command, once the semaphore is looked up.
unfoldable pub semctl_run : WriteData → ℕ → ℕ → ℕ → ℕ → Semaphore → Ipc → Option (ℤ × Ipc)
unfolding getval setval rmid info_of
semctl_run write semnum_word cmd cmdarg index s ipc =
    let semnum = sem_index (to_int semnum_word) s.nsems in
    let command = without_ipc_64 cmd in
    if command == sem_getval
    then some (getval s semnum, ipc)
    else if command == sem_setval
    then some
        (if ltb max_semval cmdarg then (fail erange, ipc) else setval ipc index s semnum cmdarg)
    else if command == sem_getall
    then some (write_status (write cmdarg (sem_values s.sems)), ipc)
    else if command == ipc_rmid
    then rmid ipc index s
    else if command == ipc_info || command == sem_info
    then some (write_status (write cmdarg (seminfo (info_of ipc.semaphores cmd))), ipc)
    else some (fail einval, ipc)

-- `cmd` is an `int`, by the low 32 bits of its word.
unfoldable pub semctl : WriteData → ℕ → ℕ → ℕ → ℕ → Ipc → Option (ℤ × Ipc)
unfolding semctl_run
semctl write id_word semnum_word cmd_word cmdarg ipc =
    elim (lookup_ipc_object sem_slot ipc.semaphores id_word) [
      | none ↦ some (fail einval, ipc)
      | some (index, s) ↦ semctl_run write semnum_word (cmd_word % 2 ^ 32) cmdarg index s ipc
    ]
