-- ===== src/HiddenFiles/Tests.antt =====
-- The property of hidden files at a directory with two entries.
use xyzterm.Common.{[], ◌∷◌, ◌++◌, some, none, true, false, replicate}
use xyzterm.Path.{Bytes, slash}
use xyzterm.Regs.{Sysnum, Regs}
use xyzterm.Binding.{Bindings}
use xyzterm.HiddenFiles.{hidden_prefix}

abbrev dot : Bytes
dot = replicate 16 0 ++ (21 ∷ 0 ∷ 4 ∷ b'.' ∷ 0 ∷ [])

abbrev proot_file : Bytes
proot_file = replicate 16 0 ++ (26 ∷ 0 ∷ 8 ∷ (hidden_prefix ++ (0 ∷ [])))

abbrev call : Regs
call = record {
  sysnum = Sysnum.pr_getdents64;
  sysarg_1 = 3;
  sysarg_2 = 4096;
  sysarg_3 = 1024;
  sysarg_4 = 0;
  sysarg_5 = 0;
  sysarg_6 = 0;
}

abbrev whole : Bindings
whole = record {
  pending = none;
  guest_list = some (
      record {
        address = 1;
        host = slash ∷ [];
        guest = slash ∷ [];
        need_substitution = false;
        must_exist = true;
      }
      ∷ []);
  host_list = some [];
}
