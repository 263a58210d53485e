-- ===== src/Chain/Queue.antt =====
-- The queue of syscall/chain.c: what is registered stands at its end, in order.
use xyzterm.Common.{
  ◌≡◌, refl, ap, sym, ◌∙◌, List, [], ◌∷◌, ◌++◌, Option, none, some, true, append_assoc, append-nil,
}
use xyzterm.Regs.{Regs}
use xyzterm.Chain.{
  Tracee, with_syscalls, register_chained_syscall_internal, register_chained_syscall,
}

-- The queue, which is empty where there is none.
abbrev pub queue_of : Option (List Regs) → List Regs
queue_of none = []
queue_of (some l) = l

-- One registration after another, with memory for each.
abbrev pub register_all : List Regs → Tracee → Tracee
register_all [] t = t
register_all (r ∷ l) t = register_all l (register_chained_syscall true true r t).1

register_one :
    (o : Option (List Regs)) (r : Regs) (t : Tracee)
    → t.chain.syscalls ≡ o
    → (register_chained_syscall true true r t).1 ≡ with_syscalls (some (queue_of o ++ (r ∷ []))) t
unfolding register_chained_syscall_internal
register_one none r t e = rw (e, register_chained_syscall_internal) refl
register_one (some l) r t e = rw (e, register_chained_syscall_internal) refl

register_all-some :
    (l q : List Regs) (t : Tracee)
    → t.chain.syscalls ≡ some q
    → register_all l t ≡ with_syscalls (some (q ++ l)) t
register_all-some [] q t e = ap (λ x. with_syscalls x t) (e ∙ ap some (sym (append-nil q)))
register_all-some (r ∷ l) q t e =
    ap (register_all l) (register_one (some q) r t e)
    ∙ register_all-some l (q ++ (r ∷ [])) (with_syscalls (some (q ++ (r ∷ []))) t) refl
    ∙ ap (λ x. with_syscalls (some x) t) (append_assoc q (r ∷ []) l)

pub register_all_queues :
    (r : Regs) (l : List Regs) (t : Tracee)
    → register_all (r ∷ l) t ≡ with_syscalls (some (queue_of t.chain.syscalls ++ (r ∷ l))) t
register_all_queues r l t =
    let q = queue_of t.chain.syscalls in
    ap (register_all l) (register_one t.chain.syscalls r t refl)
    ∙ register_all-some l (q ++ (r ∷ [])) (with_syscalls (some (q ++ (r ∷ []))) t) refl
    ∙ ap (λ x. with_syscalls (some x) t) (append_assoc q (r ∷ []) l)
