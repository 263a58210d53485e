-- ===== src/Heap.antt =====
-- syscall/heap.c: brk(2) emulated with a memory mapping whose first page is set aside.
-- `heap_offset` is a static variable of the file and is passed as state.
mod Protocol
mod Tests
use xyzterm.Common.{
  ℕ, zero, suc, ◌+◌, ◌-◌, ◌%◌, ◌^◌, List, [], ◌∷◌, Option, none, some, Bool, true, false, not, ◌&&◌,
  ◌||◌, ltb, leb, ◌==◌, if◌then◌else◌,
}
use xyzterm.Regs.{
  Sysnum, pr_void, pr_brk, pr_mmap, pr_mmap2, pr_mremap, pr_other, Regs, add_word, sub_word,
  word_mod,
}

pub record Heap : Type 0 where
  pub base : ℕ
  pub size : ℕ
  pub disabled : Bool

pub record Mapping : Type 0 where
  pub addr : ℕ
  pub length : ℕ

-- The tracee's state that brk(2) touches, with the file's static variable.
pub record Brk : Type 0 where
  pub heap_offset : ℕ
  pub heap : Heap
  pub regs : Regs
  pub mappings : List Mapping

-- What the host answers: sysconf(_SC_PAGE_SIZE) as a word, and whether the ABI has mmap2(2).
pub record Host : Type 0 where
  pub page_size : ℕ
  pub has_mmap2 : Bool

-- `(int) word`, tested for being 0 or negative.
abbrev pub int_le_zero : ℕ → Bool
int_le_zero w = w % 2 ^ 32 == 0 || leb (2 ^ 31) (w % 2 ^ 32)

-- `(int) word` lies strictly between -4096 and 0.
abbrev pub int_is_errno : ℕ → Bool
int_is_errno w = ltb (2 ^ 32 - 4096) (w % 2 ^ 32)

pub get_last? : List Mapping → Option Mapping
get_last? [] = none
get_last? (m ∷ []) = some m
get_last? (m ∷ n ∷ ms) = get_last? (n ∷ ms)

-- The offset is set at the first call only.
pub init_offset : Host → ℕ → ℕ
init_offset h offset =
    if offset == 0 then (if int_le_zero h.page_size then 0x1000 else h.page_size) else offset

-- PROT_READ | PROT_WRITE, and MAP_PRIVATE | MAP_ANONYMOUS.
abbrev prot_read_write : ℕ
prot_read_write = 3

abbrev map_private_anonymous : ℕ
map_private_anonymous = 0x22

first_brk : Host → Brk → Mapping → Brk
first_brk h b bss = record b {
  regs = record {
    sysnum = if h.has_mmap2 then pr_mmap2 else pr_mmap;
    sysarg_1 = add_word bss.addr bss.length;
    sysarg_2 = b.heap_offset;
    sysarg_3 = prot_read_write;
    sysarg_4 = map_private_anonymous;
    sysarg_5 = word_mod - 1;
    sysarg_6 = 0;
  };
}

resize_brk : Brk → ℕ → Brk
resize_brk b new_brk_address = record b {
  regs = record {
    sysnum = pr_mremap;
    sysarg_1 = sub_word b.heap.base b.heap_offset;
    sysarg_2 = add_word b.heap.size b.heap_offset;
    sysarg_3 = add_word (sub_word new_brk_address b.heap.base) b.heap_offset;
    sysarg_4 = 0;
    sysarg_5 = 0;
    sysarg_6 = b.regs.sysarg_6;
  };
}

-- `none` is a read before the start of an empty array of mappings.
map_heap : Host → Brk → Option Mapping → Option Brk
map_heap h b none = none
map_heap h b (some bss) = some (first_brk h b bss)

pub translate_brk_enter : Host → Brk → Option Brk
unfolding init_offset first_brk resize_brk map_heap get_last?
translate_brk_enter h b₀ =
    if b₀.heap.disabled
    then some b₀
    else let b = record b₀ { heap_offset = init_offset h b₀.heap_offset } in
      let new_brk_address = b₀.regs.sysarg_1 in
      if b.heap.base == 0
      then (if not (new_brk_address == 0) then some b else map_heap h b (get_last? b.mappings))
      else if ltb new_brk_address b.heap.base
      then some (record b { regs = record b.regs { sysnum = pr_void } })
      else some (resize_brk b new_brk_address)

-- The program break that the tracee is told.
abbrev pub program_break : Heap → ℕ
program_break h = add_word h.base h.size

-- What the three outcomes of the kernel's call do to the heap, with the result poked.
mmap_done : ℕ → Heap → ℕ → Heap × ℕ
mmap_done offset h result =
    if int_is_errno result
    then (h, 0)
    else let h' = record h { base = add_word result offset; size = 0 } in (h', program_break h')

mremap_done : ℕ → Heap → Regs → ℕ → Heap × ℕ
mremap_done offset h modified result =
    if int_is_errno result || not (h.base == add_word result offset)
    then (h, program_break h)
    else let h' = record h { size = sub_word modified.sysarg_3 offset } in (h', program_break h')

brk_done : Heap → Regs → ℕ → Heap × ℕ
brk_done h original result =
    (if result == original.sysarg_1 then record h { disabled = true } else h, result)

exit_cases : ℕ → Heap → Regs → Regs → ℕ → Sysnum → Option (Heap × ℕ)
exit_cases offset h original modified result pr_void = some (h, program_break h)
exit_cases offset h original modified result pr_mmap = some (mmap_done offset h result)
exit_cases offset h original modified result pr_mmap2 = some (mmap_done offset h result)
exit_cases offset h original modified result pr_mremap = some (mremap_done offset h modified result)
exit_cases offset h original modified result pr_brk = some (brk_done h original result)
exit_cases offset h original modified result _ = none

-- The heap and the result register at the end; `none` is a failed assertion.
pub translate_brk_exit : ℕ → Heap → Regs → Regs → ℕ → Option (Heap × ℕ)
unfolding exit_cases mmap_done mremap_done brk_done
translate_brk_exit offset h original modified result =
    if h.disabled
    then some (h, result)
    else if offset == 0
    then none
    else exit_cases offset h original modified result modified.sysnum
