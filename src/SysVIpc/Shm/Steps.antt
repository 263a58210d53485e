-- ===== src/SysVIpc/Shm/Steps.antt =====
-- The calls on shared memory, the births and the ends of processes, in any order.
use xyzterm.Common.{ℕ, List, [], ◌∷◌, Option, Errno}
use xyzterm.Common.Int.{ℤ}
use xyzterm.SysVIpc.{ChainState}
use xyzterm.SysVIpc.Shm.{
  Shm, Memory, shmget, shmdt, shmctl, inherit_process, remove_mappings_from_process,
}
use xyzterm.SysVIpc.Shm.Attach.{shmat, Answers, shmat_chain}
use xyzterm.SysVIpc.Shm.Valid.{IsValid}
use xyzterm.SysVIpc.Shm.Reach.{shmget-IsValid}
use xyzterm.SysVIpc.Shm.Detach.{
  shmat-IsValid, shmat_chain-IsValid, shmdt-IsValid, shmctl-IsValid, inherit_process-IsValid,
  remove_mappings_from_process-IsValid,
}

-- All but shmget(2), with the process that makes the call.
pub data Use : Type 0 where
  attaches : ℕ → ℕ → List ChainState → Use
  continues : ChainState → Answers → ℕ → ℕ → Use
  detaches : ℕ → ℕ → Use
  controls : ℕ → ℕ → (Shm → Option Errno) → Use
  inherits : ℕ → ℕ → Use
  exits : ℕ → Use

pub data Operation : Type 0 where
  gets : ℕ → ℕ → ℕ → ℕ → (ℤ → ℕ → ℤ) → Operation
  uses : Use → Operation

abbrev pub use_of : Use → Memory → Memory
use_of (Use.attaches word pgid states) m = (shmat word pgid states m).1
use_of (Use.continues c a pgid i) m = (shmat_chain c a pgid i m).1
use_of (Use.detaches addr pgid) m = (shmdt addr pgid m).1
use_of (Use.controls word cmd write) m = (shmctl word cmd write m).1
use_of (Use.inherits parent child) m = inherit_process parent child m
use_of (Use.exits pgid) m = remove_mappings_from_process pgid m

abbrev pub step_of : Operation → Memory → Memory
step_of (Operation.gets key size flg pgid alloc) m = (shmget key size flg pgid alloc m).1
step_of (Operation.uses u) m = use_of u m

abbrev pub run : List Operation → Memory → Memory
run [] m = m
run (o ∷ operations) m = run operations (step_of o m)

-- A namespace without segments.
abbrev pub no_memory : Memory
no_memory = record { shms = []; maps = []; next = 0 }

pub use_of-IsValid : (u : Use) (m : Memory) → IsValid m → IsValid (use_of u m)
use_of-IsValid (Use.attaches word pgid states) m v = shmat-IsValid word pgid states m v
use_of-IsValid (Use.continues c a pgid i) m v = shmat_chain-IsValid c a pgid i m v
use_of-IsValid (Use.detaches addr pgid) m v = shmdt-IsValid addr pgid m v
use_of-IsValid (Use.controls word cmd write) m v = shmctl-IsValid word cmd write m v
use_of-IsValid (Use.inherits parent child) m v = inherit_process-IsValid parent child m v
use_of-IsValid (Use.exits pgid) m v = remove_mappings_from_process-IsValid pgid m v

step_of-IsValid : (o : Operation) (m : Memory) → IsValid m → IsValid (step_of o m)
step_of-IsValid (Operation.gets key size flg pgid alloc) m v =
    shmget-IsValid key size flg pgid alloc m v
step_of-IsValid (Operation.uses u) m v = use_of-IsValid u m v

run_from : (operations : List Operation) (m : Memory) → IsValid m → IsValid (run operations m)
run_from [] m v = v
run_from (o ∷ operations) m v = run_from operations (step_of o m) (step_of-IsValid o m v)

-- After any sequence of the operations on a namespace that begins without segments, every mapping
-- belongs to a segment that is in use, and every segment whose removal is pending is in use and is
-- mapped: the removal waits for a mapping that exists.
pub run-IsValid : (operations : List Operation) → IsValid (run operations no_memory)
run-IsValid operations = run_from operations no_memory (tt, λ i s e. absurd (cc))
