-- ===== src/Chain.antt =====
-- syscall/chain.c: system calls that PRoot makes a tracee issue after the one that it asked for. The
-- numbering of system calls on the tracee's ABI is a parameter, and the result has a register of its own.
pub mod Queue
pub mod Drain
mod Tests
use xyzterm.Common.{
  ℕ, List, [], ◌∷◌, ◌++◌, Option, none, some, Bool, true, false, not, if◌then◌else◌, fail, enomem,
}
use xyzterm.Common.Int.{ℤ, pos}
use xyzterm.Regs.{Sysnum, Regs, sub_word}

-- The numbers of PTRACE_CONT and PTRACE_SYSCALL.
abbrev pub ptrace_syscall : ℕ
ptrace_syscall = 24

pub data SysnumWorkaround : Type 0 where
  inactive process_faulty_call process_replaced_call : SysnumWorkaround

-- A struct chained_syscall has the fields of Regs. `syscalls` is `none` where it is NULL.
pub record Chain : Type 0 where
  pub syscalls : Option (List Regs)
  pub force_final_result : Bool
  pub final_result : ℕ
  pub sysnum_workaround_state : SysnumWorkaround

-- The registers that are written to the tracee.
pub record Cpu : Type 0 where
  pub systrap_num : ℕ
  pub sysarg_1 : ℕ
  pub sysarg_2 : ℕ
  pub sysarg_3 : ℕ
  pub sysarg_4 : ℕ
  pub sysarg_5 : ℕ
  pub sysarg_6 : ℕ
  pub result : ℕ
  pub instr_pointer : ℕ

pub record Tracee : Type 0 where
  pub chain : Chain
  pub cpu : Cpu
  pub original : Regs
  pub restore_original_regs : Bool
  pub restart_how : ℕ

abbrev pub with_syscalls : Option (List Regs) → Tracee → Tracee
with_syscalls l t = record t { chain = record (t.chain) { syscalls = l } }

-- STAILQ_INSERT_HEAD and STAILQ_INSERT_TAIL.
abbrev pub insert_syscall : Bool → Regs → List Regs → List Regs
insert_syscall at_front syscall l = if at_front then syscall ∷ l else l ++ (syscall ∷ [])

-- Whether the list, where there is none yet, and the new element can be allocated are arguments. The
-- status and the tracee.
unfoldable pub register_chained_syscall_internal : Bool → Bool → Regs → Bool → Tracee → ℤ × Tracee
register_chained_syscall_internal has_list has_item syscall at_front t = elim t.chain.syscalls [
  | none ↦
      if not has_list
      then (fail enomem, t)
      else if not has_item
      then (fail enomem, with_syscalls (some []) t)
      else (pos 0, with_syscalls (some (insert_syscall at_front syscall [])) t)
  | some l ↦
      if not has_item
      then (fail enomem, t)
      else (pos 0, with_syscalls (some (insert_syscall at_front syscall l)) t)
]

abbrev pub register_chained_syscall : Bool → Bool → Regs → Tracee → ℤ × Tracee
register_chained_syscall has_list has_item syscall t =
    register_chained_syscall_internal has_list has_item syscall false t

-- The registers for a chained system call, with the instruction pointer back on the trap.
abbrev pub cpu_for : (Sysnum → ℕ) → ℕ → Regs → Cpu → Cpu
cpu_for detranslate_sysnum systrap_size syscall cpu = record {
  systrap_num = detranslate_sysnum syscall.sysnum;
  sysarg_1 = syscall.sysarg_1;
  sysarg_2 = syscall.sysarg_2;
  sysarg_3 = syscall.sysarg_3;
  sysarg_4 = syscall.sysarg_4;
  sysarg_5 = syscall.sysarg_5;
  sysarg_6 = syscall.sysarg_6;
  result = cpu.result;
  instr_pointer = sub_word cpu.instr_pointer systrap_size;
}

-- The end of the chain.
abbrev pub chain_ends : Tracee → Tracee
chain_ends t = record t {
  cpu =
      (if t.chain.force_final_result
        then record (t.cpu) { result = t.chain.final_result }
        else t.cpu);
  chain = record (t.chain) { syscalls = none; force_final_result = false; final_result = 0 };
}

abbrev pub chain_goes_on : (Sysnum → ℕ) → ℕ → Regs → List Regs → Tracee → Tracee
chain_goes_on detranslate_sysnum systrap_size syscall l t = record t {
  chain = record (t.chain) { syscalls = some l };
  cpu = cpu_for detranslate_sysnum systrap_size syscall t.cpu;
  restore_original_regs = false;
  restart_how = ptrace_syscall;
}

unfoldable pub chain_next_syscall : (Sysnum → ℕ) → ℕ → Tracee → Option Tracee
chain_next_syscall detranslate_sysnum systrap_size t = elim t.chain.syscalls [
  | none ↦ none
  | some [] ↦ some (chain_ends t)
  | some (syscall ∷ l) ↦ some (chain_goes_on detranslate_sysnum systrap_size syscall l t)
]

unfoldable pub force_chain_final_result : ℕ → Tracee → Tracee
force_chain_final_result forced_result t = record t {
  chain = record (t.chain) { force_final_result = true; final_result = forced_result };
}

unfoldable pub restart_original_syscall : Bool → Bool → Tracee → ℤ × Tracee
restart_original_syscall has_list has_item t =
    register_chained_syscall has_list has_item t.original t

abbrev pub current_syscall : (ℕ → Sysnum) → Cpu → Regs
current_syscall translate_sysnum cpu = record {
  sysnum = translate_sysnum cpu.systrap_num;
  sysarg_1 = cpu.sysarg_1;
  sysarg_2 = cpu.sysarg_2;
  sysarg_3 = cpu.sysarg_3;
  sysarg_4 = cpu.sysarg_4;
  sysarg_5 = cpu.sysarg_5;
  sysarg_6 = cpu.sysarg_6;
}

-- `none` where the assertion fails.
unfoldable pub restart_current_syscall_as_chained :
    (ℕ → Sysnum) → Bool → Bool → Tracee → Option (ℤ × Tracee)
restart_current_syscall_as_chained translate_sysnum has_list has_item t =
    elim t.chain.sysnum_workaround_state [
      | SysnumWorkaround.inactive ↦
          let t' : Tracee = record t {
            chain = record (t.chain) {
              sysnum_workaround_state = SysnumWorkaround.process_faulty_call;
            };
          } in
          some (
            register_chained_syscall_internal has_list has_item
              (current_syscall translate_sysnum t.cpu) true t')
      | SysnumWorkaround.process_faulty_call ↦ none
      | SysnumWorkaround.process_replaced_call ↦ none
    ]
