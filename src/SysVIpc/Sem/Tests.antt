-- ===== src/SysVIpc/Sem/Tests.antt =====
-- The theorems on semaphores at concrete namespaces, and runs of the system calls.
use xyzterm.Common.{
  ℕ, ◌+◌, ◌≡◌, refl, ◌≢◌, inl, List, [], ◌∷◌, none, some, true, false, arith, get_or,
}
use xyzterm.Common.Int.{ℤ, pos, negsuc}
use xyzterm.SysVIpc.{Semaphore, Sembuf, WaitReason, WaitState, ChainState, Config, Ipc}
use xyzterm.SysVIpc.Ids.{lookup_ipc_object, object_id, find_slot}
use xyzterm.SysVIpc.Wait.{wake_tracee, update_config, wake_all}
use xyzterm.SysVIpc.Sem.{
  blocked, finished, sem_check, sem_slot, semget, semop, ReadSops, all_in_range, sem_step, recheck,
}
use xyzterm.SysVIpc.Sem.Ctl.{semctl, WriteData, ipc_rmid}
use xyzterm.SysVIpc.Sem.Ops.{added, taken, sem_check_effect, Stops, sem_check-Stops}
use xyzterm.SysVIpc.Sem.Valid.{IsValid, semop-IsValid, semctl-IsValid}
use xyzterm.SysVIpc.Sem.Get.{Opens, semget-Opens}
use xyzterm.SysVIpc.Sem.Stale.{semgets, removed_id_stale}
use xyzterm.SysVIpc.Sem.Total.{Ends, semop-Ends}

abbrev op : ℕ → ℤ → Sembuf
op n by = record { sem_num = n; sem_op = by; sem_flg = 0 }

abbrev idle : ℕ → Config
idle pid = record {
  pid = pid;
  wait_reason = WaitReason.not_waiting;
  wait_state = WaitState.not_waiting;
  chain_state = ChainState.not_chained;
  status_after_wait = pos 0;
  waiting_object_index = 0;
  msgrcv_msgp = 0;
  msgrcv_msgsz = 0;
  msgrcv_msgtyp = pos 0;
  msgrcv_msgflg = 0;
  semop_sops = [];
  sigstop_ignored = false;
}

-- Tracee 11 waits in ppoll(2) to take one from semaphore 0.
abbrev sleeper : Config
sleeper = record (idle 11) {
  wait_reason = WaitReason.wait_semop;
  wait_state = WaitState.entered_ppoll;
  semop_sops = op 0 (negsuc 0) ∷ [];
}

abbrev pair : Semaphore
pair = record {
  slot = record { key = 77; generation = 3; valid = true };
  sems = 0 ∷ 5 ∷ [];
  nsems = 2;
}

abbrev world : Ipc
world = record { queues = []; semaphores = pair ∷ []; tracees = idle 10 ∷ sleeper ∷ [] }

world-IsValid : IsValid world
world-IsValid = record {
  count = omega arith;
  each = (
    record { sized = refl; bounded = omega arith; few = omega arith; counted = omega arith },
    tt,
  );
}

-- Slot 0, generation 3.
abbrev pair_id : ℕ
pair_id = 12289

abbrev posts : ReadSops
posts ptr n = inl (op 0 (pos 2) ∷ [])

-- The caller adds two, and the sleeper is woken with one of them.
abbrev woken : Config
woken = record (idle 11) { wait_state = WaitState.signaled_ppoll; sigstop_ignored = true }

abbrev posted : Ipc
posted = record {
  queues = [];
  semaphores = record pair { sems = 1 ∷ 5 ∷ [] } ∷ [];
  tracees = idle 10 ∷ woken ∷ [];
}

semop-posts : semop posts 10 pair_id 0x1000 1 world ≡ some (pos 0, posted)
unfolding semop sem_check sem_step lookup_ipc_object all_in_range wake_tracee update_config recheck
semop-posts = refl

sem_check_effect_example :
    get_or (1 ∷ 8 ∷ []) 1 0 + taken 1 (op 1 (pos 3) ∷ op 0 (negsuc 0) ∷ [])
    ≡ get_or (2 ∷ 5 ∷ []) 1 0 + added 1 (op 1 (pos 3) ∷ op 0 (negsuc 0) ∷ [])
sem_check_effect_example =
    sem_check_effect (op 1 (pos 3) ∷ op 0 (negsuc 0) ∷ []) (2 ∷ 5 ∷ []) (1 ∷ 8 ∷ [])
      (unfold all_in_range in refl) (unfold sem_check sem_step in refl) (omega arith) 1

sem_check-Stops_example : Stops (op 1 (negsuc 0) ∷ op 0 (negsuc 0) ∷ []) (0 ∷ 5 ∷ []) blocked
sem_check-Stops_example =
    sem_check-Stops (op 1 (negsuc 0) ∷ op 0 (negsuc 0) ∷ []) (0 ∷ 5 ∷ []) blocked
      (unfold sem_check sem_step in refl) never_finished
  where
    never_finished : (sems' : List ℕ) → blocked ≢ finished sems'
    never_finished s e = cc

semop-IsValid_example : IsValid posted
semop-IsValid_example = semop-IsValid posts 10 pair_id 0x1000 1 world semop-posts world-IsValid

abbrev writes_nothing : WriteData
writes_nothing address w = none

abbrev removed : Ipc
removed = record {
  queues = [];
  semaphores =
      record { slot = record { key = 77; generation = 4; valid = false }; sems = []; nsems = 2 }
      ∷ [];
  tracees =
      idle 10
      ∷ record (idle 11) {
        wait_state = WaitState.signaled_ppoll;
        status_after_wait = negsuc 42;
        semop_sops = op 0 (negsuc 0) ∷ [];
        sigstop_ignored = true;
      }
      ∷ [];
}

semctl_removes : semctl writes_nothing pair_id 0 ipc_rmid 0 world ≡ some (pos 0, removed)
unfolding semctl lookup_ipc_object wake_all wake_tracee
semctl_removes = refl

semctl-IsValid_example : IsValid removed
semctl-IsValid_example =
    semctl-IsValid writes_nothing pair_id 0 ipc_rmid 0 world semctl_removes world-IsValid

semget-Opens_example : Opens (semget 77 1 0 world).1.semaphores 77 1 pair_id
unfolding semget find_slot object_id
semget-Opens_example = semget-Opens 77 1 0 pair_id world world-IsValid (omega arith, tt) refl

-- The slot is taken into use again, for the same key.
removed_id_stale_example :
    lookup_ipc_object sem_slot (semgets ((77, 2, 0x200) ∷ []) removed).semaphores pair_id ≡ none
removed_id_stale_example =
    removed_id_stale writes_nothing pair_id 0 0 world removed ((77, 2, 0x200) ∷ []) world-IsValid
      semctl_removes

semop-Ends_example : Ends 10 (semop posts 10 pair_id 0x1000 1 world)
semop-Ends_example = semop-Ends posts 10 pair_id 0x1000 1 world (refl, (refl, tt))
