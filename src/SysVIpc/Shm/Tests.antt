-- ===== src/SysVIpc/Shm/Tests.antt =====
-- The theorems on shared memory at concrete namespaces, and runs of the system calls.
use xyzterm.Common.{
  ℕ, ◌⊎◌, ◌≡◌, refl, List, [], ◌∷◌, none, some, true, false, ◌==◌, if◌then◌else◌, length,
}
use xyzterm.Common.Int.{ℤ, pos, negsuc}
use xyzterm.SysVIpc.{ChainState}
use xyzterm.SysVIpc.Ids.{lookup_ipc_object, object_id, find_slot}
use xyzterm.SysVIpc.Shm.{
  Shm, Memory, shm_slot, is_mapped, shmget, shmdt, shmctl, free_mapping, inherit_process,
  remove_mappings_from_process,
}
use xyzterm.SysVIpc.Shm.Attach.{shmat, Answers, shmat_chain}
use xyzterm.SysVIpc.Shm.Valid.{IsValid}
use xyzterm.SysVIpc.Shm.Steps.{Use, Operation, run, no_memory, run-IsValid}
use xyzterm.SysVIpc.Shm.Removal.{use_all, shmctl-removal}

-- The helper gives descriptor 5 for a page.
abbrev helper : ℤ → ℕ → ℤ
helper id size = if size == 4096 then pos 5 else negsuc 0

-- Process 10 creates a segment of a page with key 7 and attaches it, and the helper is idle.
abbrev begun : List Operation
begun =
    Operation.gets 7 4096 0x380 10 helper
    ∷ Operation.uses (Use.attaches 1 10 (ChainState.not_chained ∷ []))
    ∷ []

abbrev world : Memory
world = run begun no_memory

abbrev mapped_at : ℕ → Answers
mapped_at addr = record {
  result = pos addr;
  guest_addr = 0;
  is_written = true;
  has_pointers = true;
  is_distributed = true;
  is_rights = true;
  read_fd = none;
  addr = addr;
  size = 4096;
}

-- The mapping is made, process 10 forks process 20 and detaches, and process 20 ends.
abbrev ending : List Use
ending =
    Use.continues ChainState.shmat_mmap (mapped_at 8192) 10 0
    ∷ Use.inherits 10 20
    ∷ Use.detaches 8192 10
    ∷ Use.exits 20
    ∷ []

world_segments : length world.shms ≡ 1
unfolding shmget shmat find_slot lookup_ipc_object object_id
world_segments = refl

world_busy : (shmat 1 10 (ChainState.shmat_recvmsg ∷ []) world).0 ≡ some (true, 0)
unfolding shmget shmat find_slot lookup_ipc_object object_id
world_busy = refl

removal_waits : is_mapped 0 (use_all ending (shmctl 1 0 (λ s. none) world).1).maps ≡ false
unfolding shmget shmat shmat_chain shmdt shmctl inherit_process remove_mappings_from_process
    free_mapping find_slot lookup_ipc_object object_id
removal_waits = refl

detach_unknown : (shmdt 4096 10 world).0 ≡ none
unfolding shmget shmat shmdt find_slot lookup_ipc_object object_id
detach_unknown = refl

run-IsValid_example : IsValid world
run-IsValid_example = run-IsValid begun

world_named : (s : Shm) × (lookup_ipc_object shm_slot world.shms 1 ≡ some (0, s))
unfolding shmget shmat find_slot lookup_ipc_object object_id
world_named = (_, refl)

shmctl-removal_example :
    let after = use_all ending (shmctl 1 0 (λ s. none) world).1 in
    let named = lookup_ipc_object shm_slot after.shms 1 in
    (named ≡ none)
    ⊎ ((t : Shm) × (named ≡ some (0, t))
        × (t.rmid_pending ≡ true)
        × (is_mapped 0 after.maps ≡ true))
shmctl-removal_example =
    shmctl-removal 1 0 world_named.0 (λ s. none) ending world (run-IsValid begun) world_named.1
