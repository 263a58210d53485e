-- ===== src/Chain/Drain.antt =====
-- How the chain of syscall/chain.c is worked off: chain_next_syscall at each end of a system call, with
-- anything the tracee and the kernel do to the registers in between.
use xyzterm.Common.{
  ℕ, zero, suc, ◌≡◌, refl, ap, ◌∙◌, List, [], ◌∷◌, ◌++◌, map, none, some, Bool, true, false,
  if◌then◌else◌, length,
}
use xyzterm.Common.Int.{pos}
use xyzterm.Regs.{Sysnum, Regs}
use xyzterm.Chain.{
  Cpu, Tracee, SysnumWorkaround, with_syscalls, chain_next_syscall, chain_ends, chain_goes_on,
  current_syscall, restart_current_syscall_as_chained, register_chained_syscall_internal,
}
use xyzterm.Chain.Queue.{queue_of, register_all, register_all_queues}

pub record Drained : Type 0 where
  pub issued : List Cpu
  pub tracee : Tracee

-- `n` calls of chain_next_syscall, with the registers that each issues a system call with.
abbrev pub drain : ℕ → (Sysnum → ℕ) → ℕ → (Cpu → Cpu) → Tracee → Drained
drain zero detranslate systrap_size kernel t = record { issued = []; tracee = t }
drain (suc n) detranslate systrap_size kernel t =
    elim (chain_next_syscall detranslate systrap_size t) [
      | none ↦ record { issued = []; tracee = t }
      | some t' ↦
          let rest : Drained =
            drain n detranslate systrap_size kernel (record t' { cpu = kernel t'.cpu }) in
          record { issued = t'.cpu ∷ rest.issued; tracee = rest.tracee }
    ]

-- A system call with the number of the ABI.
abbrev pub on_abi : (Sysnum → ℕ) → Regs → Regs
on_abi detranslate r = record r { sysnum = Sysnum.pr_other (detranslate r.sysnum) }

-- What a drained tracee has kept of the chain.
abbrev Kept : Tracee → Tracee → Type 0
Kept t t' =
    (t'.chain.syscalls ≡ some [])
    × (t'.chain.force_final_result ≡ t.chain.force_final_result)
    × (t'.chain.final_result ≡ t.chain.final_result)

next_some :
    (detranslate : Sysnum → ℕ) (systrap_size : ℕ) (r : Regs) (l : List Regs) (t : Tracee)
    → t.chain.syscalls ≡ some (r ∷ l)
    → chain_next_syscall detranslate systrap_size t
      ≡ some (chain_goes_on detranslate systrap_size r l t)
unfolding chain_next_syscall
next_some detranslate systrap_size r l t e = rw (e, chain_next_syscall) refl

next_ends :
    (detranslate : Sysnum → ℕ) (systrap_size : ℕ) (t : Tracee)
    → t.chain.syscalls ≡ some []
    → chain_next_syscall detranslate systrap_size t ≡ some (chain_ends t)
unfolding chain_next_syscall
next_ends detranslate systrap_size t e = rw (e, chain_next_syscall) refl

drain_lem :
    (detranslate : Sysnum → ℕ) (systrap_size : ℕ) (kernel : Cpu → Cpu) (l : List Regs) (t : Tracee)
    → t.chain.syscalls ≡ some l
    → (map
          (current_syscall Sysnum.pr_other)
          (drain (length l) detranslate systrap_size kernel t).issued
        ≡ map (on_abi detranslate) l)
      × Kept t (drain (length l) detranslate systrap_size kernel t).tracee
drain_lem detranslate systrap_size kernel [] t e = (refl, (e, refl, refl))
drain_lem detranslate systrap_size kernel (r ∷ l) t e =
    let t' = chain_goes_on detranslate systrap_size r l t in
    let ih = drain_lem detranslate systrap_size kernel l (record t' { cpu = kernel t'.cpu }) refl in
    rw (next_some detranslate systrap_size r l t e, drain)
      (ap (λ x. on_abi detranslate r ∷ x) ih.0, ih.1)

result_of_end :
    (b : Bool) (c : Cpu) (x : ℕ)
    → (if b then record c { result = x } else c).result ≡ (if b then x else c.result)
result_of_end true c x = refl
result_of_end false c x = refl

-- System calls that are registered where no chain is yet are issued in the order in which they were
-- registered, whatever the tracee and the kernel do to the registers in between, and the next
-- chain_next_syscall ends the chain, with the forced result if one was asked for.
pub chain_next_syscall-fifo :
    (detranslate : Sysnum → ℕ) (systrap_size : ℕ) (kernel : Cpu → Cpu) (r : Regs) (l : List Regs)
    (t : Tracee)
    → t.chain.syscalls ≡ none
    → let d : Drained =
        drain (length (r ∷ l)) detranslate systrap_size kernel (register_all (r ∷ l) t) in
      (map (current_syscall Sysnum.pr_other) d.issued ≡ map (on_abi detranslate) (r ∷ l))
      × (end : Tracee) × (chain_next_syscall detranslate systrap_size d.tracee ≡ some end)
      × (end.chain.syscalls ≡ none)
      × (end.chain.force_final_result ≡ false)
      × (end.cpu.result
          ≡ (if t.chain.force_final_result then t.chain.final_result else d.tracee.cpu.result))
chain_next_syscall-fifo detranslate systrap_size kernel r l t e =
    let q : register_all (r ∷ l) t ≡ with_syscalls (some (r ∷ l)) t =
      register_all_queues r l t ∙ ap (λ o. with_syscalls (some (queue_of o ++ (r ∷ l))) t) e in
    let d =
      drain_lem detranslate systrap_size kernel (r ∷ l) (register_all (r ∷ l) t)
        (ap (λ x. x.chain.syscalls) q) in
    let dt =
      (drain (length (r ∷ l)) detranslate systrap_size kernel (register_all (r ∷ l) t)).tracee in
    let forced = d.1.1 ∙ ap (λ x. x.chain.force_final_result) q in
    let final = d.1.2 ∙ ap (λ x. x.chain.final_result) q in
    (
      d.0,
      chain_ends dt,
      next_ends detranslate systrap_size dt d.1.0,
      refl,
      refl,
      result_of_end dt.chain.force_final_result dt.cpu dt.chain.final_result
          ∙ ap (λ b. if b then dt.chain.final_result else dt.cpu.result) forced
          ∙ ap (λ x. if t.chain.force_final_result then x else dt.cpu.result) final,
    )

-- A current system call that is restarted comes before the chain that is there already, and is issued
-- with the arguments that it has.
pub restart_current-next :
    (translate : ℕ → Sysnum) (detranslate : Sysnum → ℕ) (systrap_size : ℕ) (l : List Regs)
    (t : Tracee)
    → t.chain.syscalls ≡ some l
    → t.chain.sysnum_workaround_state ≡ SysnumWorkaround.inactive
    → (t' : Tracee) × (restart_current_syscall_as_chained translate true true t ≡ some (pos 0, t'))
      × (t'' : Tracee) × (chain_next_syscall detranslate systrap_size t' ≡ some t'')
      × (t''.chain.syscalls ≡ some l)
      × (current_syscall Sysnum.pr_other t''.cpu
          ≡ on_abi detranslate (current_syscall translate t.cpu))
unfolding restart_current_syscall_as_chained register_chained_syscall_internal chain_next_syscall
restart_current-next translate detranslate systrap_size l t e w =
    let r = current_syscall translate t.cpu in
    let t1 : Tracee = record t {
      chain = record (t.chain) {
        syscalls = some (r ∷ l);
        sysnum_workaround_state = SysnumWorkaround.process_faulty_call;
      };
    } in
    (
      t1,
      rw (w, e, restart_current_syscall_as_chained, register_chained_syscall_internal) refl,
      chain_goes_on detranslate systrap_size r l t1,
      refl,
      refl,
      refl,
    )
