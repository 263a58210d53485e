-- ===== src/Heap/Tests.antt =====
-- The theorems on the emulated brk(2) at concrete heaps, and runs of the two halves.
use xyzterm.Common.{ℕ, ◌-◌, ◌≡◌, refl, List, [], ◌∷◌, some, true, false, arith}
use xyzterm.Regs.{pr_brk, Regs, word_mod}
use xyzterm.Heap.{Mapping, Brk, Host}
use xyzterm.Heap.Protocol.{IsMapped, brk, set_break, grants, brk_refines, brk-IsMapped}

abbrev host : Host
host = record { page_size = 4096; has_mmap2 = true }

abbrev call : ℕ → Regs
call address = record {
  sysnum = pr_brk;
  sysarg_1 = address;
  sysarg_2 = 0;
  sysarg_3 = 0;
  sysarg_4 = 0;
  sysarg_5 = 0;
  sysarg_6 = 0;
}

abbrev loaded : List Mapping
loaded =
    record { addr = 0x10000; length = 0x3000 } ∷ record { addr = 0x20000; length = 0x5000 } ∷ []

abbrev unmapped : ℕ → Brk
unmapped address = record {
  heap_offset = 0;
  heap = record { base = 0; size = 0; disabled = false };
  regs = call address;
  mappings = loaded;
}

-- A heap of two pages from 0x26000.
abbrev mapped : ℕ → Brk
mapped address = record {
  heap_offset = 4096;
  heap = record { base = 0x26000; size = 0x2000; disabled = false };
  regs = call address;
  mappings = loaded;
}

mapped-IsMapped : IsMapped 4096 (mapped 0).heap
mapped-IsMapped = record {
  live = refl;
  page = omega arith;
  above = omega arith;
  ends = omega arith;
}

brk_refines_example :
    let h = set_break (mapped 0).heap 0x29000 (grants 4096 (mapped 0).heap 0x25000) in
    brk host (mapped 0x29000) 0x25000 ≡ some (h, 0x29000)
brk_refines_example = brk_refines host (mapped 0x29000) 0x25000 mapped-IsMapped (omega arith)

brk-IsMapped_example : IsMapped 4096 (record { base = 0x26000; size = 0x3000; disabled = false })
brk-IsMapped_example =
    brk-IsMapped host (mapped 0x29000) 0x25000 mapped-IsMapped (omega arith) brk_refines_example

-- A request below the heap leaves it, and so does a kernel that refuses.
brk_below : brk host (mapped 0x1000) 0 ≡ some ((mapped 0).heap, 0x28000)
brk_below = brk_refines host (mapped 0x1000) 0 mapped-IsMapped (omega arith)

brk_refused : brk host (mapped 0x29000) (word_mod - 12) ≡ some ((mapped 0).heap, 0x28000)
brk_refused = brk_refines host (mapped 0x29000) (word_mod - 12) mapped-IsMapped (omega arith)
