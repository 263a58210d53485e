-- ===== src/Heap/Protocol.antt =====
-- The emulated brk(2) across its two halves: the call that the first half forges, the kernel's
-- answer, and what the second half tells the tracee.
use xyzterm.Common.{
  ℕ, ◌+◌, ◌-◌, ◌%◌, ◌<◌, ◌≡◌, refl, ◌≢◌, Option, none, some, Bool, true, false, not, ◌&&◌, arith,
  leb, ◌==◌, if◌then◌else◌,
}
use xyzterm.Regs.{pr_brk, pr_mmap, pr_mmap2, add_word, word_mod}
use xyzterm.Heap.{
  Heap, Mapping, Brk, Host, int_is_errno, get_last?, init_offset, translate_brk_enter,
  translate_brk_exit,
}

-- A heap in use: it lies above its hidden first page, and below the end of the address space.
pub record IsMapped (offset : ℕ) (h : Heap) : Type 0 where
  pub live : h.disabled ≡ false
  pub page : 0 < offset
  pub above : offset < h.base
  pub ends : h.base + h.size < word_mod

-- One brk(2) call: the first half, the kernel's answer to the call it forged, the second half.
abbrev pub brk : Host → Brk → ℕ → Option (Heap × ℕ)
brk host b answer = elim (translate_brk_enter host b) [
  | none ↦ none
  | some b' ↦ translate_brk_exit b'.heap_offset b'.heap b.regs b'.regs answer
]

-- What brk(2) promises: the segment from `base` on ends at the requested address if that is not below
-- `base` and the system grants it, and stays as it is otherwise.
abbrev pub set_break : Heap → ℕ → Bool → Heap
set_break h address granted =
    if granted && leb h.base address then record h { size = address - h.base } else h

-- The kernel grants a resize by leaving the mapping in its place.
abbrev pub grants : ℕ → Heap → ℕ → Bool
grants offset h answer = not (int_is_errno answer) && h.base == add_word answer offset

init_offset-pos : (host : Host) (offset : ℕ) → 0 < init_offset host offset
unfolding init_offset
init_offset-pos host offset = ground arith

-- In the initial state (no heap yet, address 0, some mapping loaded) a call maps the heap: where the
-- kernel answers with an address and not an error, the heap starts `heap_offset` bytes after that
-- address, is empty, and its base is the result.
pub brk_first :
    (host : Host) (b : Brk) (bss : Mapping) (answer : ℕ)
    → b.heap.disabled ≡ false
    → b.heap.base ≡ 0
    → b.regs.sysarg_1 ≡ 0
    → get_last? b.mappings ≡ some bss
    → int_is_errno answer ≡ false
    → let base = add_word answer (init_offset host b.heap_offset) in
      brk host b answer ≡ some (record b.heap { base = base; size = 0 }, base)
unfolding translate_brk_enter translate_brk_exit
brk_first host b bss answer live unset zero_arg last good =
    ground (arith, init_offset-pos host b.heap_offset)

-- The heap that a first call maps begins one page after the end of the last mapping when the kernel
-- takes the hint, so `brk_forged` asks for exactly that place, for one page.
pub first_brk_asks :
    (host : Host) (b : Brk) (bss : Mapping)
    → b.heap.disabled ≡ false
    → b.heap.base ≡ 0
    → b.regs.sysarg_1 ≡ 0
    → get_last? b.mappings ≡ some bss
    → (b' : Brk) × (translate_brk_enter host b ≡ some b')
      × (b'.regs.sysarg_1 ≡ add_word bss.addr bss.length)
      × (b'.regs.sysarg_2 ≡ b'.heap_offset)
      × (0 < b'.heap_offset)
      × (b'.heap ≡ b.heap)
unfolding translate_brk_enter
first_brk_asks host b bss live unset zero_arg last = (
  record b {
    heap_offset = init_offset host b.heap_offset;
    regs = record {
      sysnum = if host.has_mmap2 then pr_mmap2 else pr_mmap;
      sysarg_1 = add_word bss.addr bss.length;
      sysarg_2 = init_offset host b.heap_offset;
      sysarg_3 = 3;
      sysarg_4 = 0x22;
      sysarg_5 = word_mod - 1;
      sysarg_6 = 0;
    };
  },
  ground arith,
  refl,
  refl,
  init_offset-pos host b.heap_offset,
  refl,
)

-- On a heap in use, whatever the kernel answers to the forged call, brk(2) behaves as `set_break`:
-- the heap afterwards is the one promised, and the result is its end.
pub brk_refines :
    (host : Host) (b : Brk) (answer : ℕ)
    → IsMapped b.heap_offset b.heap
    → b.regs.sysarg_1 < word_mod
    → let h = set_break b.heap b.regs.sysarg_1 (grants b.heap_offset b.heap answer) in
      brk host b answer ≡ some (h, h.base + h.size)
unfolding translate_brk_enter translate_brk_exit
brk_refines host b answer v small = ground arith

-- No brk(2) call takes a heap in use out of its range.
pub brk-IsMapped :
    (host : Host) (b : Brk) (answer : ℕ) {h : Heap} {r : ℕ}
    → IsMapped b.heap_offset b.heap
    → b.regs.sysarg_1 < word_mod
    → brk host b answer ≡ some (h, r)
    → IsMapped b.heap_offset h
unfolding translate_brk_enter translate_brk_exit
brk-IsMapped host b answer v small e = ground arith

-- A page-aligned answer is never taken for an error of mmap(2) or mremap(2), although only its low
-- 32 bits are looked at; a true error, -4095 to -1 as a word, always is.
pub int_is_errno_pages :
    (answer : ℕ)
    → (answer % 4096 ≡ 0 → int_is_errno answer ≡ false)
      × (word_mod - 4096 < answer → answer < word_mod → int_is_errno answer ≡ true)
int_is_errno_pages answer = (λ h. ground arith, λ h k. ground arith)

-- A tracee whose first brk(2) names an address gets the kernel's own answer, and from then on its
-- heap is left to the kernel exactly if that answer is the address it named.
pub brk_suspicious :
    (host : Host) (b : Brk) (answer : ℕ)
    → b.heap.disabled ≡ false
    → b.heap.base ≡ 0
    → b.regs.sysarg_1 ≢ 0
    → b.regs.sysnum ≡ pr_brk
    → brk host b answer ≡ some (record b.heap { disabled = answer == b.regs.sysarg_1 }, answer)
unfolding translate_brk_enter translate_brk_exit
brk_suspicious host b answer live unset named nr =
    ground (arith, init_offset-pos host b.heap_offset)
