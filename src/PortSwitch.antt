-- ===== src/PortSwitch.antt =====
-- extension/port_switch/port_switch.c: the ports below 1024 that a tracee binds or connects to are moved.
pub mod Targets
pub mod Moves
mod Tests
use xyzterm.Common.{
  ℕ, ◌+◌, ◌*◌, ◌/◌, ◌%◌, ◌^◌, List, [], ◌∷◌, ◌++◌, Bool, true, false, not, ◌&&◌, ◌==◌, ltb,
  if◌then◌else◌, set, take, get_or, print_int,
}
use xyzterm.Common.Int.{pos}
use xyzterm.Path.{Bytes, byte_at}
use xyzterm.Path.Compare.{same_name}

abbrev pub af_inet : ℕ
af_inet = 2

abbrev pub af_inet6 : ℕ
af_inet6 = 10

-- The fields of a `struct sockaddr_storage`: the family with its low byte first, the port with its high byte
-- first.
abbrev pub ss_family : Bytes → ℕ
ss_family s = byte_at s 0 + byte_at s 1 * 256

abbrev pub sin_port : Bytes → ℕ
sin_port s = byte_at s 2 * 256 + byte_at s 3

abbrev pub with_port : ℕ → Bytes → Bytes
with_port port s = set (set s 2 (port / 256 % 256)) 3 (port % 256)

abbrev pub is_threshold : ℕ → Bool
is_threshold port = ltb 0 port && ltb port 1024

-- The port plus PORT_ADDITION.
abbrev pub switched : Bytes → Bytes
switched s = with_port (sin_port s + 2000) s

-- A write of bytes, or of the first argument of socketcall(2), the size of both being that of a pointer.
pub data Write : Type 0 where
  of_bytes : ℕ → Bytes → Write
  of_argument : ℕ → ℕ → Write

-- The system calls, with the registers that their cases read: of the original call and of the current one.
pub data Call : Type 0 where
  bind connect : ℕ → ℕ → Call
  sendto : ℕ → ℕ → Call
  socketcall : ℕ → ℕ → ℕ → Call
  other_call : Call

-- `sizeof_pointer` bytes go to the address, for an IPv4 address.
abbrev pub write_inet : ℕ → Bool → Bool → Bytes → ℕ → List ℕ → List Write
write_inet sizeof_pointer true true s address a =
    Write.of_bytes (get_or a 4 0) (take sizeof_pointer s)
    ∷ Write.of_argument address (get_or a 0 0)
    ∷ []
write_inet sizeof_pointer false true s address a =
    Write.of_bytes address (take sizeof_pointer s) ∷ []
write_inet sizeof_pointer true false s address a =
    Write.of_bytes (get_or a 1 0) (take sizeof_pointer s)
    ∷ Write.of_argument address (get_or a 0 0)
    ∷ []
write_inet sizeof_pointer false false s address a =
    Write.of_bytes address (take sizeof_pointer s) ∷ []

-- The second test for IPv6 is the first again, so that sendto(2) has no case.
abbrev pub write_inet6 : ℕ → Bool → Bool → Bytes → ℕ → List ℕ → List Write
write_inet6 sizeof_pointer true true s address a =
    Write.of_bytes (get_or a 4 0) (take sizeof_pointer s)
    ∷ Write.of_argument address (get_or a 0 0)
    ∷ []
write_inet6 sizeof_pointer false true s address a = []
write_inet6 sizeof_pointer true false s address a =
    Write.of_bytes (get_or a 1 0) (take sizeof_pointer s)
    ∷ Write.of_argument address (get_or a 0 0)
    ∷ []
write_inet6 sizeof_pointer false false s address a =
    Write.of_bytes address (take sizeof_pointer s) ∷ []

-- mod_port, with the current register that it may write to; is_bind only prints.
unfoldable pub mod_port : ℕ → Bool → Bool → Bytes → ℕ → List ℕ → List Write
mod_port sizeof_pointer is_socketcall is_udp s address a =
    if ss_family s == af_inet
    then (if is_threshold (sin_port s)
        then write_inet sizeof_pointer is_socketcall is_udp (switched s) address a
        else [])
    else if ss_family s == af_inet6
    then (if is_threshold (sin_port s)
        then write_inet6 sizeof_pointer is_socketcall is_udp (switched s) address a
        else [])
    else []

abbrev pub dot_number : Bytes → ℕ → Bytes
dot_number s i = b'.' ∷ print_int (pos (byte_at s i))

-- inet_ntop of an IPv4 address.
abbrev pub inet_text : Bytes → Bytes
inet_text s =
    print_int (pos (byte_at s 4)) ++ (dot_number s 5 ++ (dot_number s 6 ++ dot_number s 7))

abbrev pub localhost : Bytes
localhost = b'1' ∷ b'2' ∷ b'7' ∷ b'.' ∷ b'0' ∷ b'.' ∷ b'0' ∷ b'.' ∷ b'1' ∷ []

abbrev pub localhost6 : Bytes
localhost6 = b':' ∷ b':' ∷ b'1' ∷ []

-- `inet6_text` is inet_ntop of an IPv6 address.
unfoldable pub is_localhost : (Bytes → Bytes) → Bytes → Bool
is_localhost inet6_text s =
    if ss_family s == af_inet
    then same_name (inet_text s) localhost
    else if ss_family s == af_inet6
    then same_name (inet6_text s) localhost6
    else false

-- What the callback asks: the buffer after reading a sockaddr_storage and the six arguments of socketcall(2)
-- from the memory of the tracee.
pub record Machine : Type 0 where
  pub sizeof_pointer : ℕ
  pub read_sockaddr : ℕ → Bytes
  pub read_arguments : ℕ → List ℕ
  pub inet6_text : Bytes → Bytes

-- The address where the tracee says it is.
abbrev pub mod_local : Machine → Bool → Bool → ℕ → ℕ → List ℕ → List Write
mod_local m is_socketcall is_udp from address a =
    let s = m.read_sockaddr from in
    if is_localhost m.inet6_text s
    then mod_port m.sizeof_pointer is_socketcall is_udp s address a
    else []

-- SYS_BIND is 2, SYS_CONNECT 3 and SYS_SENDTO 11; the call number is an `int`.
abbrev pub wrapped : Machine → ℕ → ℕ → List ℕ → List Write
wrapped m call address a =
    if call == 2
    then mod_port m.sizeof_pointer true false (m.read_sockaddr (get_or a 1 0)) address a
    else if call == 3
    then mod_local m true false (get_or a 1 0) address a
    else if call == 11
    then (if not (get_or a 4 0 == 0) then mod_local m true true (get_or a 4 0) address a else [])
    else []

-- SYSCALL_ENTER_END.
unfoldable pub port_switch_callback : Machine → Call → List Write
port_switch_callback m (Call.bind from address) =
    mod_port m.sizeof_pointer false false (m.read_sockaddr from) address []
port_switch_callback m (Call.connect from address) = mod_local m false false from address []
port_switch_callback m (Call.sendto from address) =
    if not (from == 0) then mod_local m false true from address [] else []
port_switch_callback m (Call.socketcall call from address) =
    wrapped m (call % 2 ^ 32) address (m.read_arguments from)
port_switch_callback m Call.other_call = []
