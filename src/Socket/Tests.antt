-- ===== src/Socket/Tests.antt =====
-- syscall/socket.c on a tracee that binds a socket to "/s".
use xyzterm.Common.{◌≡◌, refl, [], ◌∷◌, ◌++◌, ◌≤◌, none, some, true, false, ok, arith, replicate}
use xyzterm.Common.Int.{pos}
use xyzterm.Path.{Bytes, slash}
use xyzterm.Socket.{
  System, Pushed, Reported, min_size, sizeof_sockaddr_un, read_sockaddr_un, with_path,
  translate_socketcall_enter, translate_socketcall_exit,
}
use xyzterm.Socket.Bounds.{FitsBuffer, translate_socketcall_exit-FitsBuffer}
use xyzterm.Socket.Paths.{IsCString, translate_socketcall_enter-read}

abbrev user_path : Bytes
user_path = slash ∷ b's' ∷ []

abbrev host_path : Bytes
host_path = slash ∷ b'h' ∷ user_path

-- A sockaddr_un with the path "/s" and its NUL.
abbrev socket : Bytes
socket = 1 ∷ 0 ∷ (user_path ++ (0 ∷ []))

abbrev system : Bytes → System
system memory = record {
  read_data = (λ address size. ok memory);
  write_error = (λ address bytes. none);
  alloc_mem = (λ size. 4096);
  peek_int32 = (λ address. ok (pos 5));
  poke_error = (λ address value. none);
  to_host = (λ path. ok (slash ∷ b'h' ∷ path));
  to_guest = (λ path. ok (0, path));
  create_temp_name = none;
  mktemp = (λ name. slash ∷ b't' ∷ []);
  insort_binding3 = (λ host guest. true);
}

abbrev pushed : Pushed
pushed = record {
  address = 4096;
  sockaddr = with_path (socket ++ replicate 105 0) host_path;
  binding = none;
}

-- A buffer of four bytes, in which "/s" does not end.
abbrev cut : Reported
cut = record { bytes = 1 ∷ 0 ∷ slash ∷ b's' ∷ []; addrlen = 5 }

abbrev system_small : System
system_small = record (system (1 ∷ 0 ∷ slash ∷ [])) {
  peek_int32 = (λ address. ok (pos 3));
  to_guest = (λ path. ok (3, user_path));
}

host_path-IsCString : IsCString host_path
host_path-IsCString = (
  omega arith,
  (
    λ e. absurd (omega (arith, e)),
    (
      λ e. absurd (omega (arith, e)),
      (λ e. absurd (omega (arith, e)), (λ e. absurd (omega (arith, e)), tt)),
    ),
  ),
)

cut_system : translate_socketcall_exit system_small 1 2 4 ≡ ok (some cut)
unfolding translate_socketcall_exit read_sockaddr_un
cut_system = refl

socket_read :
    read_sockaddr_un (system socket) sizeof_sockaddr_un 1 (pos 5)
    ≡ ok (some (socket ++ replicate 105 0, user_path))
unfolding read_sockaddr_un
socket_read = refl

socket_entered : translate_socketcall_enter (system socket) 1 (pos 5) ≡ ok (some pushed)
unfolding translate_socketcall_enter read_sockaddr_un
socket_entered = refl

translate_socketcall_exit-FitsBuffer_example : (min_size 4 ≤ 4) × FitsBuffer (min_size 4) cut
translate_socketcall_exit-FitsBuffer_example =
    translate_socketcall_exit-FitsBuffer system_small 1 2 4 cut cut_system

translate_socketcall_enter-read_example :
    (read_sockaddr_un (system pushed.sockaddr) sizeof_sockaddr_un 4096 (pos sizeof_sockaddr_un)
      ≡ ok (some (pushed.sockaddr, host_path)))
    × (false ≡ false)
translate_socketcall_enter-read_example =
    translate_socketcall_enter-read (system socket) (system pushed.sockaddr) 1 (pos 5)
      (socket ++ replicate 105 0) user_path host_path pushed socket_read refl host_path-IsCString
      (λ name e. absurd (cc)) socket_entered refl
