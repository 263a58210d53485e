-- ===== src/PortSwitch/Moves.antt =====
-- What the callback of extension/port_switch/port_switch.c writes, and where.
