-- ===== src/SysVIpc/Shm.antt =====
-- extension/sysvipc/sysvipc_shm.c: shmget(2), shmat(2), shmdt(2), shmctl(2) on the segments of a
-- namespace and their mappings. The helper process and the reads and writes of the tracee's memory are
-- arguments.
pub mod Attach
pub mod Valid
pub mod Reach
pub mod Detach
pub mod Steps
pub mod Removal
mod Tests
use xyzterm.Common.{
  ℕ, zero, suc, ◌+◌, ◌*◌, ◌-◌, ◌%◌, ◌^◌, ◌/◌, List, [], ◌∷◌, ◌++◌, Option, none, some, Bool, true,
  false, not, ◌&&◌, ◌||◌, ◌==◌, if◌then◌else◌, length, get_elem?, set, fail, enoent, eexist, einval,
  enospc, Errno,
}
use xyzterm.Common.Int.{ℤ, pos, negsuc, is_negative}
use xyzterm.SysVIpc.{Slot, ChainState}
use xyzterm.SysVIpc.Ids.{
  has_flag, ipc_creat, ipc_excl, object_id, lookup_ipc_object, Search, find_slot,
}

-- `struct SysVIpcSharedMem`, with the fields of its statistics that the code writes. Its list of mappings
-- is the part of the namespace's mappings that have its index.
pub record Shm : Type 0 where
  pub slot : Slot
  pub rmid_pending : Bool
  pub fd : ℤ
  pub shm_segsz : ℕ
  pub mode : ℕ
  pub shm_cpid : ℕ
  pub shm_nattch : ℕ

-- `struct SysVIpcSharedMemMap`: `number` stands for its address, `pgid` for the process that has it in
-- its list.
pub record Mapping : Type 0 where
  pub number : ℕ
  pub pgid : ℕ
  pub shm_index : ℕ
  pub addr : ℕ
  pub size : ℕ

-- The segments of a namespace, the mappings, the newest of a process first, and the number of the next
-- mapping.
pub record Memory : Type 0 where
  pub shms : List Shm
  pub maps : List Mapping
  pub next : ℕ

abbrev pub shm_slot : Shm → Slot
shm_slot s = s.slot

-- What memset leaves in a new element of the array.
abbrev pub zero_shm : Shm
zero_shm = record {
  slot = record { key = 0; generation = 0; valid = false };
  rmid_pending = false;
  fd = pos 0;
  shm_segsz = 0;
  mode = 0;
  shm_cpid = 0;
  shm_nattch = 0;
}

-- A slot taken into use, with what the helper gave.
abbrev pub taken : ℕ → ℕ → ℕ → ℕ → ℤ → Shm → Shm
taken shm_key shm_size shmflg pgid fd s = record s {
  slot = record { key = shm_key % 2 ^ 32; generation = s.slot.generation; valid = true };
  fd = fd;
  shm_segsz = shm_size;
  mode = shmflg % 2 ^ 9;
  shm_cpid = pgid;
}

abbrev pub shm_at : List Shm → ℕ → Shm
shm_at shms i = elim (get_elem? shms i) [ none ↦ zero_shm | some s ↦ s ]

-- The array with room for a new segment, and the index of it.
abbrev pub with_room : List Shm → Option ℕ → List Shm × ℕ
with_room shms (some i) = (shms, i)
with_room shms none = (shms ++ (zero_shm ∷ []), length shms)

-- `alloc` is the answer of the helper to SHMHELPER_ALLOC for an identifier and a size.
abbrev pub create_shm : ℕ → ℕ → ℕ → ℕ → (ℤ → ℕ → ℤ) → Memory → List Shm × ℕ → ℤ × Memory
create_shm shm_key shm_size shmflg pgid alloc m (shms, i) =
    let s = shm_at shms i in
    let id = object_id i s.slot.generation in
    let fd = alloc id shm_size in
    if is_negative fd
    then (fail enospc, record m { shms = set shms i (record s { fd = fd }) })
    else (id, record m { shms = set shms i (taken shm_key shm_size shmflg pgid fd s) })

abbrev pub open_shm : ℕ → ℕ → Memory → ℕ → ℤ
open_shm shm_size shmflg m i =
    let s = shm_at m.shms i in
    if has_flag shmflg ipc_creat && has_flag shmflg ipc_excl
    then fail eexist
    else if not (shm_size == 0) && not (shm_size == s.shm_segsz)
    then fail einval
    else object_id i s.slot.generation

unfoldable pub shmget : ℕ → ℕ → ℕ → ℕ → (ℤ → ℕ → ℤ) → Memory → ℤ × Memory
shmget shm_key shm_size shmflg pgid alloc m =
    let s = find_slot shm_slot shm_key m.shms 0 none in
    if s.found
    then (open_shm shm_size shmflg m s.index, m)
    else if not (has_flag shmflg ipc_creat)
    then (fail enoent, m)
    else create_shm shm_key shm_size shmflg pgid alloc m (with_room m.shms s.unused_slot)

-- sysvipc_do_rmid.
abbrev pub do_rmid : Shm → Shm
do_rmid s = record s {
  slot = record { key = s.slot.key; generation = (s.slot.generation + 1) % 2 ^ 16; valid = false };
  rmid_pending = false;
  fd = negsuc 0;
}

-- Whether a segment's list of mappings has an element.
abbrev pub is_mapped : ℕ → List Mapping → Bool
is_mapped i [] = false
is_mapped i (x ∷ maps) = x.shm_index == i || is_mapped i maps

-- The removal that a segment waits for.
abbrev pub released : Bool → Shm → Shm
released mapped s = if s.rmid_pending && not mapped then do_rmid s else s

abbrev pub behind : Mapping → Option (Mapping × List Mapping) → Option (Mapping × List Mapping)
behind x none = none
behind x (some (y, maps)) = some (y, x ∷ maps)

-- The mapping with a number, and the others.
abbrev pub take_out : ℕ → List Mapping → Option (Mapping × List Mapping)
take_out number [] = none
take_out number (x ∷ maps) =
    let rest = behind x (take_out number maps) in
    if x.number == number then some (x, maps) else rest

abbrev pub freed : Option (Mapping × List Mapping) → Memory → Memory
freed none m = m
freed (some (x, maps)) m =
    let i = x.shm_index in
    record m { maps = maps; shms = set m.shms i (released (is_mapped i maps) (shm_at m.shms i)) }

-- sysvipc_shm_memmap_destructor, on talloc_free of a mapping.
unfoldable pub free_mapping : ℕ → Memory → Memory
free_mapping number m = freed (take_out number m.maps) m

-- The first mapping of a process that passes a test.
abbrev pub find_mapping : (Mapping → Bool) → ℕ → List Mapping → Option Mapping
find_mapping test pgid [] = none
find_mapping test pgid (x ∷ maps) =
    if x.pgid == pgid && test x then some x else find_mapping test pgid maps

-- The size that munmap gets.
abbrev pub detached : Option Mapping → Memory → Option ℕ × Memory
detached none m = (none, m)
detached (some x) m = (some x.size, free_mapping x.number m)

-- `none` is -EINVAL.
unfoldable pub shmdt : ℕ → ℕ → Memory → Option ℕ × Memory
shmdt addr pgid m = detached (find_mapping (λ x. x.addr == addr) pgid m.maps) m

abbrev pub count_mapped : ℕ → List Mapping → ℕ
count_mapped i [] = 0
count_mapped i (x ∷ maps) =
    if x.shm_index == i then suc (count_mapped i maps) else count_mapped i maps

-- sysvipc_shm_update_stats.
abbrev pub update_stats : ℕ → Memory → Memory
update_stats i m = record m {
  shms = set m.shms i (record (shm_at m.shms i) { shm_nattch = count_mapped i m.maps });
}

abbrev pub rmid_shm : ℕ → Memory → Memory
rmid_shm i m =
    let s = shm_at m.shms i in
    record m {
      shms =
          set m.shms i (if is_mapped i m.maps then record s { rmid_pending = true } else do_rmid s);
    }

abbrev pub wrote : Option Errno → ℤ
wrote none = pos 0
wrote (some e) = fail e

-- IPC_RMID is 0, with IPC_64 256; IPC_STAT is 2. `write` is what writing the statistics gives.
abbrev pub shmctl_run : ℕ → (Shm → Option Errno) → Memory → Option (ℕ × Shm) → ℤ × Memory
shmctl_run cmd write m none = (fail einval, m)
shmctl_run cmd write m (some (i, s)) =
    let c = cmd % 2 ^ 32 in
    if c == 0 || c == 256
    then (pos 0, rmid_shm i m)
    else if c == 2
    then (wrote (write (shm_at (update_stats i m).shms i)), update_stats i m)
    else (fail einval, m)

unfoldable pub shmctl : ℕ → ℕ → (Shm → Option Errno) → Memory → ℤ × Memory
shmctl word cmd write m = shmctl_run cmd write m (lookup_ipc_object shm_slot m.shms word)

-- sysvipc_shm_inherit_process: the copies, in the order of the parent's list.
abbrev pub copies : ℕ → ℕ → ℕ → List Mapping → List Mapping
copies parent child next [] = []
copies parent child next (x ∷ maps) =
    let rest = copies parent child (suc next) maps in
    if x.pgid == parent then record x { number = next; pgid = child } ∷ rest else rest

unfoldable pub inherit_process : ℕ → ℕ → Memory → Memory
inherit_process parent child m = record m {
  maps = copies parent child m.next m.maps ++ m.maps;
  next = m.next + length m.maps;
}

-- sysvipc_shm_remove_mappings_from_process.
abbrev pub numbers_of : ℕ → List Mapping → List ℕ
numbers_of pgid [] = []
numbers_of pgid (x ∷ maps) =
    let rest = numbers_of pgid maps in if x.pgid == pgid then x.number ∷ rest else rest

abbrev pub free_all : List ℕ → Memory → Memory
free_all [] m = m
free_all (number ∷ numbers) m = free_all numbers (free_mapping number m)

unfoldable pub remove_mappings_from_process : ℕ → Memory → Memory
remove_mappings_from_process pgid m = free_all (numbers_of pgid m.maps) m
