-- ===== src/PortSwitch/Tests.antt =====
-- The callback of port_switch.c on addresses of the local host with port 80.
use xyzterm.Common.{◌≡◌, refl, List, [], ◌∷◌, ◌++◌, Bool, true, if◌then◌else◌, ◌==◌, replicate}
use xyzterm.Path.{Bytes}
use xyzterm.PortSwitch.{
  Write, Call, Machine, is_localhost, mod_port, port_switch_callback, localhost6,
}

abbrev local_inet : Bytes
local_inet = 2 ∷ 0 ∷ 0 ∷ 80 ∷ 127 ∷ 0 ∷ 0 ∷ 1 ∷ []

abbrev local_inet6 : Bytes
local_inet6 = 10 ∷ 0 ∷ 0 ∷ 80 ∷ []

-- An IPv6 address stands at 600.
abbrev machine : Machine
machine = record {
  sizeof_pointer = 8;
  read_sockaddr = (λ address. if address == 600 then local_inet6 else local_inet);
  read_arguments = (λ address. []);
  inet6_text = (λ s. localhost6);
}

-- 80 + 2000 is 8 * 256 + 32.
connect_moved :
    port_switch_callback machine (Call.connect 400 500)
    ≡ Write.of_bytes 500 (2 ∷ 0 ∷ 8 ∷ 32 ∷ 127 ∷ 0 ∷ 0 ∷ 1 ∷ []) ∷ []
unfolding port_switch_callback is_localhost mod_port xyzterm.Common.print_int
connect_moved = refl

-- sendto(2) to the IPv6 address stays, while connect(2) to it is moved.
sendto_unmoved : port_switch_callback machine (Call.sendto 600 600) ≡ []
unfolding port_switch_callback is_localhost mod_port xyzterm.Common.print_int
sendto_unmoved = refl
