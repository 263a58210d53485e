-- ===== src/Regs.antt =====
-- The part of a tracee's registers that the modelled code reads and writes (tracee/reg.h,
-- tracee/reg.c): the system call number and its six arguments. A word is a number below 2 ^ 64.
use xyzterm.Common.{ℕ, ◌+◌, ◌-◌, ◌^◌, ◌%◌}

-- The system calls that the code names; any other is `pr_other` with its number.
pub data Sysnum : Type 0 where
  pr_void pr_brk pr_mmap pr_mmap2 pr_mremap : Sysnum
  pr_getdents pr_getdents64 : Sysnum
  pr_bind pr_connect pr_sendto pr_socketcall : Sysnum
  pr_other : ℕ → Sysnum

pub record Regs : Type 0 where
  pub sysnum : Sysnum
  pub sysarg_1 : ℕ
  pub sysarg_2 : ℕ
  pub sysarg_3 : ℕ
  pub sysarg_4 : ℕ
  pub sysarg_5 : ℕ
  pub sysarg_6 : ℕ

-- `word_t` addition and subtraction, on a 64-bit host.
abbrev pub word_mod : ℕ
word_mod = 2 ^ 64

abbrev pub add_word : ℕ → ℕ → ℕ
add_word a b = (a + b) % word_mod

abbrev pub sub_word : ℕ → ℕ → ℕ
sub_word a b = (a + word_mod - b) % word_mod
