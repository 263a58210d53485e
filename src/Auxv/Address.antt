-- ===== src/Auxv/Address.antt =====
-- get_elf_aux_vectors_address of execve/auxv.c on the stack that the kernel lays out for execve.
use xyzterm.Common.{ℕ, zero, suc, ◌+◌, ◌*◌, ◌%◌, ◌^◌, ◌≡◌, refl, ◌≢◌, some, ok, false, ◌==◌, arith}
use xyzterm.Auxv.{Memory, peek_word, next_word, skip_envp, get_elf_aux_vectors_address}

-- `k` words that are not 0, then one that is.
abbrev pub EndsIn0 : ℕ → Memory → ℕ → ℕ → Type 0
EndsIn0 w m a zero = peek_word w m a ≡ ok 0
EndsIn0 w m a (suc k) =
    ((x : ℕ) × (x ≢ 0) × (peek_word w m a ≡ ok x)) × EndsIn0 w m (next_word w a) k

-- The address `k` words further on.
abbrev pub words_on : ℕ → ℕ → ℕ → ℕ
words_on w a zero = a
words_on w a (suc k) = words_on w (next_word w a) k

skip_envp_lem :
    (w : ℕ) (m : Memory) (k : ℕ) (a : ℕ)
    → EndsIn0 w m a k
    → skip_envp (suc k) w m a ≡ some (words_on w a (suc k))
skip_envp_lem w m zero a h = rw (h, skip_envp) refl
skip_envp_lem w m (suc k) a h =
    let ne : h.0.0 ≢ 0 = h.0.1 in
    let z : (h.0.0 == 0) ≡ false = ground arith in
    rw (h.0.2, z, skip_envp) (skip_envp_lem w m k (next_word w a) h.1)

-- Where argc is at the stack pointer and `k` environment strings follow its arguments and their 0, the
-- address found, with fuel for one round more than there are strings, is that behind the 0 that ends
-- the environment.
pub get_elf_aux_vectors_address_lem :
    (w : ℕ) (m : Memory) (stack_pointer argc k : ℕ)
    → peek_word w m stack_pointer ≡ ok argc
    → EndsIn0 w m ((stack_pointer + (1 + argc + 1) * w) % 2 ^ 64) k
    → get_elf_aux_vectors_address (suc k) w m stack_pointer
      ≡ some (words_on w ((stack_pointer + (1 + argc + 1) * w) % 2 ^ 64) (suc k))
unfolding get_elf_aux_vectors_address
get_elf_aux_vectors_address_lem w m stack_pointer argc k e h =
    rw (e, get_elf_aux_vectors_address)
      (skip_envp_lem w m k ((stack_pointer + (1 + argc + 1) * w) % 2 ^ 64) h)
