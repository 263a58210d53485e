-- ===== src/Chain/Tests.antt =====
-- The properties of the chain at two system calls.
use xyzterm.Common.{ℕ, ◌≡◌, refl, List, [], ◌∷◌, map, Option, some, none, true, false}
use xyzterm.Regs.{Sysnum, Regs}
use xyzterm.Chain.{Cpu, Tracee, SysnumWorkaround, chain_next_syscall, current_syscall}
use xyzterm.Chain.Queue.{register_all}
use xyzterm.Chain.Drain.{Drained, drain, on_abi, chain_next_syscall-fifo}

abbrev numbers : Sysnum → ℕ
numbers (Sysnum.pr_other n) = n
numbers Sysnum.pr_void = 0
numbers Sysnum.pr_brk = 12
numbers Sysnum.pr_mmap = 9
numbers Sysnum.pr_mmap2 = 1000
numbers Sysnum.pr_mremap = 25
numbers Sysnum.pr_getdents = 78
numbers Sysnum.pr_getdents64 = 217
numbers Sysnum.pr_bind = 49
numbers Sysnum.pr_connect = 42
numbers Sysnum.pr_sendto = 44
numbers Sysnum.pr_socketcall = 1001

abbrev call : Sysnum → Regs
call n = record {
  sysnum = n;
  sysarg_1 = 1;
  sysarg_2 = 2;
  sysarg_3 = 3;
  sysarg_4 = 4;
  sysarg_5 = 5;
  sysarg_6 = 6;
}

abbrev traced : Option (List Regs) → Tracee
traced l = record {
  chain = record {
    syscalls = l;
    force_final_result = true;
    final_result = 7;
    sysnum_workaround_state = SysnumWorkaround.inactive;
  };
  cpu = record {
    systrap_num = 3;
    sysarg_1 = 0;
    sysarg_2 = 0;
    sysarg_3 = 0;
    sysarg_4 = 0;
    sysarg_5 = 0;
    sysarg_6 = 0;
    result = 5;
    instr_pointer = 100;
  };
  original = call Sysnum.pr_void;
  restore_original_regs = true;
  restart_how = 0;
}

abbrev fails : Cpu → Cpu
fails c = record c { result = 99 }

chain_next_syscall-fifo_example :
    let d : Drained =
      drain 2 numbers 2 fails
        (register_all (call Sysnum.pr_brk ∷ call Sysnum.pr_bind ∷ []) (traced none)) in
    (map (current_syscall Sysnum.pr_other) d.issued
      ≡ map (on_abi numbers) (call Sysnum.pr_brk ∷ call Sysnum.pr_bind ∷ []))
    × (end : Tracee) × (chain_next_syscall numbers 2 d.tracee ≡ some end)
    × (end.chain.syscalls ≡ none)
    × (end.chain.force_final_result ≡ false)
    × (end.cpu.result ≡ 7)
chain_next_syscall-fifo_example =
    chain_next_syscall-fifo numbers 2 fails (call Sysnum.pr_brk) (call Sysnum.pr_bind ∷ [])
      (traced none) refl
