-- ===== src/FakeId0/Tests.antt =====
-- fake_id0 started as root, and a daemon that drops its privilege.
use xyzterm.Common.{
  ℕ, ◌-◌, ◌^◌, ◌≡◌, refl, ◌∷◌, ◌++◌, some, Bool, true, false, ok, err, eperm, print_int, arith,
}
use xyzterm.Common.Int.{pos}
use xyzterm.FakeId0.{Config, Kind, setxid, setrexid}
use xyzterm.FakeId0.Exit.{
  Call, unchanged, all_ids, handle_sysexit_end, initialization, handle_sysexit_start, sigsys_occ,
}
use xyzterm.FakeId0.Confined.{IsConfined, HasNoRoot, Calls, Calls-IsConfined}
use xyzterm.FakeId0.Drop.{dropped, setuid-Calls, Answers, setresuid-getresuid}
use xyzterm.FakeId0.Initial.{initialization-print_int}

abbrev root : Config
root = record {
  user = all_ids 0;
  group = all_ids 0;
  umask = 18;
  caps_active = true;
  keep_caps = false;
}

abbrev daemon : Config
daemon = dropped 1000 root

abbrev anywhere : ℕ → Bool
anywhere address = true

-- A daemon that asks for its number.
daemon-Calls : Calls daemon daemon
unfolding handle_sysexit_end
daemon-Calls =
    Calls.then_call Calls.none_yet anywhere Call.getuid (unchanged daemon (some 1000)) refl

daemon-HasNoRoot : HasNoRoot daemon.user
daemon-HasNoRoot =
    (λ e. absurd (omega (arith, e)), λ e. absurd (omega (arith, e)), λ e. absurd (omega (arith, e)))

Calls-IsConfined_example :
    IsConfined daemon.user daemon.group daemon × (setxid Kind.uid 0 daemon ≡ err eperm)
Calls-IsConfined_example = Calls-IsConfined daemon daemon refl daemon-HasNoRoot daemon-Calls

setuid-Calls_example :
    (handle_sysexit_end anywhere (Call.setuid 1000) root ≡ ok (unchanged daemon (some 0)))
    × (daemon.user ≡ all_ids 1000)
    × (daemon.caps_active ≡ false)
setuid-Calls_example =
    setuid-Calls anywhere 1000 root daemon refl refl refl (λ e. absurd (omega (arith, e)))
      (omega arith) daemon-Calls

setresuid-getresuid_example :
    (c' : Config) × (handle_sysexit_end anywhere (Call.setresuid 100000 (2 ^ 32 - 1) 3) root
      ≡ ok (unchanged c' (some 0)))
    × Answers anywhere 16 20 24 c' 100000 0 3
setresuid-getresuid_example =
    setresuid-getresuid anywhere 100000 (2 ^ 32 - 1) 3 16 20 24 root refl (omega arith)
      (omega arith) (omega arith) refl refl refl

initialization-print_int_example :
    initialization 7 8 (print_int (pos 0) ++ (b':' ∷ print_int (pos 50))) ≡ record {
      user = all_ids 0;
      group = all_ids 50;
      umask = 18;
      caps_active = true;
      keep_caps = false;
    }
initialization-print_int_example = initialization-print_int 7 8 0 50 (omega arith) (omega arith)

-- setreuid to a real id alone leaves the saved id; a setuid file gives the capability back.
only_real :
    setrexid Kind.uid 5 (2 ^ 32 - 1) root
    ≡ ok (record root { user = record { rid = 5; eid = 0; sid = 0; fsid = 0 } })
unfolding setrexid
only_real = refl

setuid_file : (handle_sysexit_start (some 2541) daemon).caps_active ≡ true
unfolding handle_sysexit_start
setuid_file = refl

by_signal : sigsys_occ (Call.setuid 0) daemon ≡ err eperm
unfolding sigsys_occ handle_sysexit_end setxid
by_signal = refl
