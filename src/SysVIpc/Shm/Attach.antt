-- ===== src/SysVIpc/Shm/Attach.antt =====
-- sysvipc_shmat and sysvipc_shmat_chain of extension/sysvipc/sysvipc_shm.c: a call that is worked off as
-- a chain of calls of the tracee.
use xyzterm.Common.{
  ℕ, suc, List, [], ◌∷◌, Option, none, some, Bool, true, false, not, ◌&&◌, ◌||◌, ◌==◌, ltb,
  if◌then◌else◌,
}
use xyzterm.Common.Int.{ℤ, pos, negsuc, is_negative}
use xyzterm.SysVIpc.{ChainState}
use xyzterm.SysVIpc.Ids.{lookup_ipc_object}
use xyzterm.SysVIpc.Shm.{Shm, Mapping, Memory, shm_slot, find_mapping, free_mapping}

-- Whether a tracee in this state keeps another one from starting: above SOCKET, up to MMAP.
abbrev pub is_busy : ChainState → Bool
is_busy ChainState.shmat_connect = true
is_busy ChainState.shmat_recvmsg = true
is_busy ChainState.shmat_mmap = true
is_busy c = false

abbrev pub some_busy : List ChainState → Bool
some_busy [] = false
some_busy (c ∷ states) = is_busy c || some_busy states

abbrev pub with_mapping : ℕ → ℕ → Memory → Memory
with_mapping pgid i m = record m {
  maps = record { number = m.next; pgid = pgid; shm_index = i; addr = 0; size = 0 } ∷ m.maps;
  next = suc m.next;
}

-- Whether the call waits for the helper or starts with socket(2), and the index that it waits for.
abbrev pub attached : ℕ → List ChainState → Memory → Option (ℕ × Shm) → Option (Bool × ℕ) × Memory
attached pgid states m none = (none, m)
attached pgid states m (some (i, s)) = (some (some_busy states, i), with_mapping pgid i m)

-- `none` is -EINVAL. `states` are those of all tracees.
unfoldable pub shmat : ℕ → ℕ → List ChainState → Memory → Option (Bool × ℕ) × Memory
shmat word pgid states m = attached pgid states m (lookup_ipc_object shm_slot m.shms word)

-- What the chain reads at the end of one of its calls: the result, the address below the stack, whether
-- each transfer and request succeeds, the kind of the control message and its descriptor, and the
-- second argument.
pub record Answers : Type 0 where
  pub result : ℤ
  pub guest_addr : ℕ
  pub is_written : Bool
  pub has_pointers : Bool
  pub is_distributed : Bool
  pub is_rights : Bool
  pub read_fd : Option ℕ
  pub addr : ℕ
  pub size : ℕ

-- The next state with what is registered, the end, or a failure, which closes the socket or not.
pub data Link : Type 0 where
  goes_on : ChainState → Link
  maps_at : ℕ → ℕ → Link
  fails : Bool → Link

abbrev pub received : Option ℕ → Link
received none = Link.fails true
received (some fd) = if ltb 0xffff fd then Link.fails true else Link.goes_on ChainState.shmat_mmap

-- sysvipc_shmat_chain up to its effects on the mappings. In another state an assertion fails, where the
-- model goes on with a failure.
abbrev pub chain_link : ChainState → Answers → Link
chain_link ChainState.shmat_socket a =
    if is_negative a.result || a.guest_addr == 0 || not a.is_written
    then Link.fails false
    else Link.goes_on ChainState.shmat_connect
chain_link ChainState.shmat_connect a =
    if not (is_zero a.result) || not a.has_pointers || not a.is_distributed
    then Link.fails true
    else Link.goes_on ChainState.shmat_recvmsg
  where
    is_zero : ℤ → Bool
    is_zero (pos n) = n == 0
    is_zero (negsuc n) = false
chain_link ChainState.shmat_recvmsg a =
    if not a.has_pointers || not a.is_rights then Link.fails true else received a.read_fd
chain_link ChainState.shmat_mmap a = Link.maps_at a.addr a.size
chain_link c a = Link.fails false

-- sysvipc_shm_find_pending_mapping.
abbrev pub is_pending : ℕ → Mapping → Bool
is_pending i x = x.size == 0 && x.shm_index == i

abbrev pub placed_at : ℕ → ℕ → ℕ → List Mapping → List Mapping
placed_at number addr size [] = []
placed_at number addr size (x ∷ maps) =
    (if x.number == number then record x { addr = addr; size = size } else x)
    ∷ placed_at number addr size maps

abbrev pub settled_by : Link → Option Mapping → Memory → Memory
settled_by l none m = m
settled_by (Link.goes_on c) (some x) m = m
settled_by (Link.maps_at addr size) (some x) m = record m {
  maps = placed_at x.number addr size m.maps;
}
settled_by (Link.fails closes) (some x) m = free_mapping x.number m

abbrev pub next_state : Link → ChainState
next_state (Link.goes_on c) = c
next_state (Link.maps_at addr size) = ChainState.not_chained
next_state (Link.fails closes) = ChainState.not_chained

-- The assertions on the index, on the segment and on the pending mapping are left out: the model goes on
-- with the mappings unchanged.
unfoldable pub shmat_chain : ChainState → Answers → ℕ → ℕ → Memory → ChainState × Memory
shmat_chain c a pgid i m =
    let l = chain_link c a in
    (next_state l, settled_by l (find_mapping (is_pending i) pgid m.maps) m)
