-- ===== src/Socket.antt =====
-- syscall/socket.c: the paths of named Unix sockets, before and after the calls that have an address.
pub mod Bounds
pub mod Paths
mod Tests
use xyzterm.Common.{
  ℕ, zero, suc, ◌+◌, ◌*◌, ◌-◌, ◌^◌, List, [], ◌∷◌, ◌++◌, Option, none, some, Bool, true, false, not,
  ◌&&◌, ◌||◌, ◌==◌, ltb, leb, if◌then◌else◌, length, take, drop, replicate, Result, ok, err, ◌>>=◌,
  Errno, einval, efault,
}
use xyzterm.Common.Int.{ℤ, pos, negsuc}
use xyzterm.Path.{Bytes, byte_at}
use xyzterm.Shebang.{c_string}
use xyzterm.Detranslate.{Seen}

-- offsetof(struct sockaddr_un, sun_path), and the sizes of sun_path and of the whole.
abbrev pub offsetof_path : ℕ
offsetof_path = 2

abbrev pub sizeof_path : ℕ
sizeof_path = 108

abbrev pub sizeof_sockaddr_un : ℕ
sizeof_sockaddr_un = 110

abbrev pub af_unix : ℕ
af_unix = 1

-- What the two functions ask of the tracee's memory, of the paths and of the bindings: translate_path and
-- detranslate_path are `to_host` and `to_guest`.
pub record System : Type 0 where
  pub read_data : ℕ → ℕ → Result Bytes
  pub write_error : ℕ → Bytes → Option Errno
  pub alloc_mem : ℕ → ℕ
  pub peek_int32 : ℕ → Result ℤ
  pub poke_error : ℕ → ℤ → Option Errno
  pub to_host : Bytes → Result Bytes
  pub to_guest : Bytes → Seen
  pub create_temp_name : Option Bytes
  pub mktemp : Bytes → Bytes
  pub insort_binding3 : Bytes → Bytes → Bool

-- The family is the low byte and the high byte.
abbrev pub sun_family : Bytes → ℕ
sun_family sockaddr = byte_at sockaddr 0 + byte_at sockaddr 1 * 256

abbrev pub sun_path : Bytes → Bytes
sun_path sockaddr = drop offsetof_path sockaddr

-- A structure with as many bytes of it read, over zeros.
abbrev pub over_zeros : Bytes → Bytes
over_zeros bytes = bytes ++ replicate (sizeof_sockaddr_un - length bytes) 0

-- The structure and its path, where it is a named socket of the Unix domain.
abbrev pub named_socket : Bytes → Option (Bytes × Bytes)
named_socket sockaddr =
    if not (sun_family sockaddr == af_unix) || byte_at sockaddr offsetof_path == 0
    then none
    else some (sockaddr, c_string (take sizeof_path (sun_path sockaddr)))

-- An `int` size that is expected: above the offset and at most `max_size`.
abbrev pub expected_size : ℕ → ℤ → Option ℕ
expected_size max_size (negsuc n) = none
expected_size max_size (pos size) =
    if leb size offsetof_path || ltb max_size size then none else some size

abbrev pub read_sized : System → ℕ → Option ℕ → Result (Option (Bytes × Bytes))
read_sized y address none = ok none
read_sized y address (some size) =
    y.read_data address size >>= (λ bytes. ok (named_socket (over_zeros bytes)))

unfoldable pub read_sockaddr_un : System → ℕ → ℕ → ℤ → Result (Option (Bytes × Bytes))
read_sockaddr_un y max_size address size = read_sized y address (expected_size max_size size)

-- strncpy(3) of a string without NUL.
abbrev pub strncpy : ℕ → Bytes → Bytes
strncpy zero path = []
strncpy (suc n) [] = 0 ∷ strncpy n []
strncpy (suc n) (x ∷ path) = x ∷ strncpy n path

abbrev pub with_path : Bytes → Bytes → Bytes
with_path sockaddr path = take offsetof_path sockaddr ++ strncpy sizeof_path path

-- The structure that is pushed, and the host and the guest path of a new binding.
pub record Pushed : Type 0 where
  pub address : ℕ
  pub sockaddr : Bytes
  pub binding : Option (Bytes × Bytes)

-- A path of the host with the binding to it, if one was made.
abbrev pub Shorter : Type 0
Shorter = Result (Bytes × Option (Bytes × Bytes))

abbrev pub bound_to : System → Bytes → Seen → Shorter
bound_to y shorter (err e) = err einval
bound_to y shorter (ok r) =
    if y.insort_binding3 shorter r.1 then ok (shorter, some (shorter, r.1)) else err einval

abbrev pub with_name : System → Bytes → Option Bytes → Shorter
with_name y host_path none = err einval
with_name y host_path (some name) =
    if ltb sizeof_path (length name) || ltb sizeof_path (length (y.mktemp name))
    then err einval
    else bound_to y (y.mktemp name) (y.to_guest host_path)

abbrev pub shortened : System → Bytes → Shorter
shortened y host_path =
    if ltb sizeof_path (length host_path)
    then with_name y host_path y.create_temp_name
    else ok (host_path, none)

abbrev pub written : Option Errno → Result Pushed → Result (Option Pushed)
written none r = r >>= (λ p. ok (some p))
written (some e) r = err e

abbrev pub push : System → Bytes → Bytes × Option (Bytes × Bytes) → Result (Option Pushed)
push y sockaddr (host_path, binding) =
    let address = y.alloc_mem sizeof_sockaddr_un in
    let sockaddr' = with_path sockaddr host_path in
    if address == 0
    then err efault
    else written (y.write_error address sockaddr')
        (ok (record { address = address; sockaddr = sockaddr'; binding = binding }))

abbrev pub enter_named : System → Option (Bytes × Bytes) → Result (Option Pushed)
enter_named y none = ok none
enter_named y (some (sockaddr, user_path)) =
    y.to_host user_path >>= (λ host_path. shortened y host_path) >>= (λ r. push y sockaddr r)

-- `ok none` is the status 0, `ok` with a structure the status 1.
unfoldable pub translate_socketcall_enter : System → ℕ → ℤ → Result (Option Pushed)
translate_socketcall_enter y address size =
    if address == 0
    then ok none
    else read_sockaddr_un y sizeof_sockaddr_un address size >>= (λ r. enter_named y r)

-- The bytes that are written back, and the size that is reported.
pub record Reported : Type 0 where
  pub bytes : Bytes
  pub addrlen : ℕ

abbrev pub truncated : ℕ → Bytes → Bytes → Reported
truncated max_size sockaddr path =
    let size = offsetof_path + length path + 1 in
    if ltb max_size size
    then record { bytes = take max_size (with_path sockaddr path); addrlen = max_size + 1 }
    else record { bytes = take size (with_path sockaddr path); addrlen = size }

abbrev pub no_error : Option Errno → Result (Option Reported) → Result (Option Reported)
no_error none r = r
no_error (some e) r = err e

-- Both are written.
abbrev pub report : System → ℕ → ℕ → Reported → Result (Option Reported)
report y sock_addr size_addr r =
    no_error (y.write_error sock_addr r.bytes)
      (no_error (y.poke_error size_addr (pos r.addrlen)) (ok (some r)))

abbrev pub exit_named : System → ℕ → ℕ → ℕ → Option (Bytes × Bytes) → Result (Option Reported)
exit_named y sock_addr size_addr max_size none = ok none
exit_named y sock_addr size_addr max_size (some (sockaddr, path)) =
    y.to_guest path >>= (λ r. report y sock_addr size_addr (truncated max_size sockaddr r.1))

abbrev pub min_size : ℕ → ℕ
min_size max_size = if ltb max_size sizeof_sockaddr_un then max_size else sizeof_sockaddr_un

unfoldable pub translate_socketcall_exit : System → ℕ → ℕ → ℕ → Result (Option Reported)
translate_socketcall_exit y sock_addr size_addr max_size =
    if sock_addr == 0
    then ok none
    else y.peek_int32 size_addr
      >>= (λ size. read_sockaddr_un y (min_size max_size) sock_addr size)
      >>= (λ r. exit_named y sock_addr size_addr (min_size max_size) r)
