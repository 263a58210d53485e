-- ===== src/FakeId0/Exit.antt =====
-- handle_sysexit_end, handle_sysexit_start, handle_sysenter_end, handle_sigsys and fake_id0_callback of
-- extension/fake_id0/fake_id0.c, as far as they read and write the ids.
use xyzterm.Common.{
  ℕ, ◌-◌, ◌/◌, ◌%◌, ◌^◌, List, [], ◌∷◌, ◌++◌, Option, none, some, Bool, true, false, not, ◌&&◌,
  ◌||◌, ◌==◌, ltb, if◌then◌else◌, Result, ok, err, ◌>>=◌, efault, eprotonosupport, strtol,
}
use xyzterm.Common.Int.{ℤ, pos, negsuc}
use xyzterm.Path.{Bytes}
use xyzterm.FakeId0.{Ids, Config, Kind, setxid, setrexid, setresxid, setfsxid}

-- The calls by their numbers, with the registers that are read. `setuid` is PR_setuid and PR_setuid32,
-- and so on; `perm_err` is a call of which permission errors are overridden; `others` are answered by
-- other handlers, or by none.
pub data Call : Type 0 where
  setuid setgid setfsuid setfsgid : ℕ → Call
  setreuid setregid : ℕ → ℕ → Call
  setresuid setresgid : ℕ → ℕ → ℕ → Call
  prctl : ℕ → ℕ → ℕ → Call
  getuid getgid geteuid getegid : Call
  getresuid getresgid : ℕ → ℕ → ℕ → Call
  perm_err : Bool → ℕ → Call
  socket : ℕ → ℕ → ℕ → Call
  others : Result (Option ℕ) → Call

-- The configuration afterwards, SYSARG_RESULT where it is written, and the halfwords that are written
-- to the tracee's memory.
pub record Exit : Type 0 where
  pub config : Config
  pub result : Option ℕ
  pub writes : List (ℕ × ℕ)

-- A register as an `uid_t`.
abbrev pub id_of : ℕ → ℕ
id_of w = w % 2 ^ 32

abbrev pub unchanged : Config → Option ℕ → Exit
unchanged c result = record { config = c; result = result; writes = [] }

-- The end of the macros.
abbrev pub done : Result Config → Result Exit
done (err e) = err e
done (ok c) = ok (unchanged c (some 0))

abbrev pub done_fs : ℕ × Config → Result Exit
done_fs (old, c) = ok (unchanged c (some old))

abbrev pub pr_set_keepcaps : ℕ
pr_set_keepcaps = 8

abbrev pub prctl_exit : ℕ → ℕ → ℕ → Config → Config
prctl_exit op arg result c =
    if id_of result == 0 && id_of op == pr_set_keepcaps
    then record c { keep_caps = not (arg == 0) }
    else c

-- POKE_MEM_ID: poke_uint16, which fails where the memory cannot be written.
abbrev pub poke_mem_id : (ℕ → Bool) → ℕ → ℕ → List (ℕ × ℕ) → Result (List (ℕ × ℕ))
poke_mem_id is_writable address id writes =
    if is_writable address then ok (writes ++ ((address, id % 2 ^ 16) ∷ [])) else err efault

-- handle_getresuid_exit_end and handle_getresgid_exit_end.
abbrev pub getres_exit : (ℕ → Bool) → ℕ → ℕ → ℕ → Ids → Result (List (ℕ × ℕ))
getres_exit is_writable a1 a2 a3 ids =
    poke_mem_id is_writable a1 ids.rid []
    >>= (λ w. poke_mem_id is_writable a2 ids.eid w)
    >>= (λ w. poke_mem_id is_writable a3 ids.sid w)

abbrev pub written : Config → Result (List (ℕ × ℕ)) → Result Exit
written c (err e) = err e
written c (ok w) = ok (record { config = c; result = none; writes = w })

-- -EPERM or -EACCES as an `int`.
abbrev pub is_perm_err : ℕ → Bool
is_perm_err result = id_of result == 2 ^ 32 - 1 || id_of result == 2 ^ 32 - 13

-- handle_perm_err_exit_end.
abbrev pub perm_err_exit : Bool → ℕ → Config → Option ℕ
perm_err_exit even_if_not_root result c =
    if is_perm_err result && (even_if_not_root || c.user.eid == 0) then some 0 else none

-- handle_socket_exit_end: 16 is AF_NETLINK, 9 is NETLINK_AUDIT.
abbrev pub socket_exit : ℕ → ℕ → ℕ → Config → Result Exit
socket_exit domain protocol result c =
    if is_perm_err result && domain == 16 && protocol == 9 && c.user.eid == 0
    then err eprotonosupport
    else ok (unchanged c none)

abbrev pub others_exit : Result (Option ℕ) → Config → Result Exit
others_exit (err e) c = err e
others_exit (ok result) c = ok (unchanged c result)

unfoldable pub handle_sysexit_end : (ℕ → Bool) → Call → Config → Result Exit
handle_sysexit_end w (Call.setuid a) c = done (setxid Kind.uid (id_of a) c)
handle_sysexit_end w (Call.setgid a) c = done (setxid Kind.gid (id_of a) c)
handle_sysexit_end w (Call.setreuid a b) c = done (setrexid Kind.uid (id_of a) (id_of b) c)
handle_sysexit_end w (Call.setregid a b) c = done (setrexid Kind.gid (id_of a) (id_of b) c)
handle_sysexit_end w (Call.setresuid a b s) c =
    done (setresxid Kind.uid (id_of a) (id_of b) (id_of s) c)
handle_sysexit_end w (Call.setresgid a b s) c =
    done (setresxid Kind.gid (id_of a) (id_of b) (id_of s) c)
handle_sysexit_end w (Call.setfsuid a) c = done_fs (setfsxid Kind.uid (id_of a) c)
handle_sysexit_end w (Call.setfsgid a) c = done_fs (setfsxid Kind.gid (id_of a) c)
handle_sysexit_end w (Call.prctl op arg result) c = ok (unchanged (prctl_exit op arg result c) none)
handle_sysexit_end w Call.getuid c = ok (unchanged c (some c.user.rid))
handle_sysexit_end w Call.getgid c = ok (unchanged c (some c.group.rid))
handle_sysexit_end w Call.geteuid c = ok (unchanged c (some c.user.eid))
handle_sysexit_end w Call.getegid c = ok (unchanged c (some c.group.eid))
handle_sysexit_end w (Call.getresuid a1 a2 a3) c = written c (getres_exit w a1 a2 a3 c.user)
handle_sysexit_end w (Call.getresgid a1 a2 a3) c = written c (getres_exit w a1 a2 a3 c.group)
handle_sysexit_end w (Call.perm_err even_if_not_root result) c =
    ok (unchanged c (perm_err_exit even_if_not_root result c))
handle_sysexit_end w (Call.socket domain protocol result) c = socket_exit domain protocol result c
handle_sysexit_end w (Call.others answer) c = others_exit answer c

-- The calls that handle_sigsys answers; the one for chroot is another handler's.
abbrev pub is_sigsys : Call → Bool
is_sigsys (Call.setuid a) = true
is_sigsys (Call.setgid a) = true
is_sigsys (Call.setreuid a b) = true
is_sigsys (Call.setregid a b) = true
is_sigsys (Call.setresuid a b s) = true
is_sigsys (Call.setresgid a b s) = true
is_sigsys call = false

-- SIGSYS_OCC: whether the call was handled, and what came of it.
abbrev pub after_sigsys : Result Exit → Result (Bool × Exit)
after_sigsys (err e) = err e
after_sigsys (ok x) = ok (true, x)

unfoldable pub sigsys_occ : Call → Config → Result (Bool × Exit)
unfolding handle_sysexit_end
sigsys_occ call c =
    if is_sigsys call
    then after_sigsys (handle_sysexit_end (λ address. true) call c)
    else ok (false, unchanged c none)

-- handle_sysenter_end: the calls that the kernel does not get, PR_void in their place.
abbrev pub is_emulated : Call → Bool
is_emulated (Call.setuid a) = true
is_emulated (Call.setgid a) = true
is_emulated (Call.setreuid a b) = true
is_emulated (Call.setregid a b) = true
is_emulated (Call.setresuid a b s) = true
is_emulated (Call.setresgid a b s) = true
is_emulated (Call.setfsuid a) = true
is_emulated (Call.setfsgid a) = true
is_emulated (Call.prctl op arg result) = false
is_emulated Call.getuid = false
is_emulated Call.getgid = false
is_emulated Call.geteuid = false
is_emulated Call.getegid = false
is_emulated (Call.getresuid a1 a2 a3) = false
is_emulated (Call.getresgid a1 a2 a3) = false
is_emulated (Call.perm_err even_if_not_root result) = false
is_emulated (Call.socket domain protocol result) = false
is_emulated (Call.others answer) = false

abbrev pub has_bit : ℕ → ℕ → Bool
has_bit mode k = mode / 2 ^ k % 2 == 1

abbrev pub gain_user : Bool → Config → Config
gain_user true c = record c { user = record c.user { eid = 0; sid = 0 }; caps_active = true }
gain_user false c = c

abbrev pub gain_group : Bool → Config → Config
gain_group true c = record c { group = record c.group { eid = 0; sid = 0 } }
gain_group false c = c

-- handle_sysexit_start after a successful execve, without the vectors; `mode` is `st_mode` of the file,
-- where stat gives it. S_ISUID is bit 11, S_ISGID is bit 10.
unfoldable pub handle_sysexit_start : Option ℕ → Config → Config
handle_sysexit_start none c = record c { keep_caps = false }
handle_sysexit_start (some mode) c =
    gain_group (has_bit mode 10) (gain_user (has_bit mode 11) (record c { keep_caps = false }))

-- The numbers of INITIALIZATION. strtol sets `errno` beyond the range of `long`.
abbrev pub as_id : ℕ → Option ℤ → ℕ
as_id fallback none = 0
as_id fallback (some (pos n)) = if ltb n (2 ^ 63) then id_of n else fallback
as_id fallback (some (negsuc n)) = if ltb n (2 ^ 63) then 2 ^ 32 - 1 - id_of n else fallback

-- strchr(string, ':') and what is behind it.
abbrev pub behind_colon : Bytes → Option Bytes
behind_colon [] = none
behind_colon (x ∷ s) = if x == b':' then some s else behind_colon s

abbrev pub gid_of : ℕ → Option Bytes → ℕ
gid_of real_gid none = real_gid
gid_of real_gid (some s) = as_id real_gid (strtol s)

abbrev pub all_ids : ℕ → Ids
all_ids id = record { rid = id; eid = id; sid = id; fsid = id }

-- INITIALIZATION, from what getuid and getgid give, and "uid" or "uid:gid".
unfoldable pub initialization : ℕ → ℕ → Bytes → Config
initialization real_uid real_gid uid_string =
    let id = as_id real_uid (strtol uid_string) in
    record {
      user = all_ids id;
      group = all_ids (gid_of real_gid (behind_colon uid_string));
      umask = 18;
      caps_active = id == 0;
      keep_caps = false;
    }
