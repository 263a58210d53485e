-- ===== src/SysVIpc/Sem/Ops.antt =====
-- What sysvipc_sem_check does to the values of a semaphore set: all operations of an array take
-- effect, or none.
use xyzterm.Common.{
  ◌∙◌, ℕ, zero, suc, ◌+◌, ◌-◌, ◌≤◌, ◌<◌, ◌≡◌, refl, ap, sym, ◌++◌, ◌≢◌, ◌⊎◌, inl, inr, List, [],
  ◌∷◌, true, false, Bool-cases, ltb, erange, eagain, arith, ◌==◌, if◌then◌else◌, length, get_or,
  set, length-set, get_or-set_self, get_or-set_ne, Errno,
}
use xyzterm.Common.Int.{ℤ, pos, negsuc, pos_part, neg_part}
use xyzterm.SysVIpc.{Sembuf}
use xyzterm.SysVIpc.Ids.{has_flag, ipc_nowait}
use xyzterm.SysVIpc.Sem.{
  Outcome, blocked, failed, finished, sem_step, sem_check, max_semval, all_in_range, not_yet,
  store_value,
}

-- What an array of operations adds to the value of semaphore j, and what it takes away.
unfoldable pub added : ℕ → List Sembuf → ℕ
added j [] = 0
added j (o ∷ sops) = (if o.sem_num == j then pos_part o.sem_op else 0) + added j sops

unfoldable pub taken : ℕ → List Sembuf → ℕ
taken j [] = 0
taken j (o ∷ sops) = (if o.sem_num == j then neg_part o.sem_op else 0) + taken j sops

abbrev pub AllBelow : ℕ → List ℕ → Type 0
AllBelow n [] = Unit {0}
AllBelow n (x ∷ xs) = (x ≤ n) × AllBelow n xs

pub set-AllBelow : (n : ℕ) (xs : List ℕ) (i v : ℕ) → v ≤ n → AllBelow n xs → AllBelow n (set xs i v)
set-AllBelow n [] i v h b = tt
set-AllBelow n (x ∷ xs) zero v h b = (h, b.1)
set-AllBelow n (x ∷ xs) (suc i) v h b = (b.0, set-AllBelow n xs i v h b.1)

-- One operation, where it can be done: the value it names moves by it, and no other does.
step_effect :
    (o : Sembuf) (op : ℤ) (sems : List ℕ) {sems' : List ℕ}
    → o.sem_num < length sems
    → sem_step o sems op ≡ finished sems'
    → (j : ℕ)
    → get_or sems' j 0 + (if o.sem_num == j then neg_part op else 0)
      ≡ get_or sems j 0 + (if o.sem_num == j then pos_part op else 0)
unfolding sem_step
step_effect o (pos zero) sems h e j = ground arith
step_effect o (pos (suc n)) sems h e j = ground (
  arith,
  get_or-set_self sems o.sem_num (get_or sems o.sem_num 0 + suc n) 0 h,
  get_or-set_ne sems o.sem_num j (get_or sems o.sem_num 0 + suc n) 0,
)
step_effect o (negsuc n) sems h e j = ground (
  arith,
  get_or-set_self sems o.sem_num (get_or sems o.sem_num 0 - suc n) 0 h,
  get_or-set_ne sems o.sem_num j (get_or sems o.sem_num 0 - suc n) 0,
)

pub Outcome-cases :
    (o : Outcome)
    → (o ≡ blocked) ⊎ ((e : Errno) × (o ≡ failed e)) ⊎ ((s : List ℕ) × (o ≡ finished s))
Outcome-cases blocked = inl refl
Outcome-cases (failed e) = inr (inl (e, refl))
Outcome-cases (finished s) = inr (inr (s, refl))

-- The first operation of an array that finishes was done, and the others from there.
first_done :
    (o : Sembuf) (sops : List Sembuf) (sems : List ℕ) {sems' : List ℕ}
    → sem_check (o ∷ sops) sems ≡ finished sems'
    → (mid : List ℕ) × (sem_step o sems o.sem_op ≡ finished mid)
      × (sem_check sops mid ≡ finished sems')
unfolding sem_check
first_done o sops sems e = elim (Outcome-cases (sem_step o sems o.sem_op)) [
  | inl b ↦ absurd (cc)
  | inr (inl (x, b)) ↦ absurd (cc)
  | inr (inr (mid, b)) ↦ (mid, b, ground arith)
]

step_keeps :
    (o : Sembuf) (op : ℤ) (sems : List ℕ) {sems' : List ℕ}
    → sem_step o sems op ≡ finished sems'
    → AllBelow max_semval sems
    → (length sems' ≡ length sems) × AllBelow max_semval sems'
unfolding sem_step
step_keeps o (pos zero) sems e b = ground arith
step_keeps o (pos (suc n)) sems e b =
    let value = get_or sems o.sem_num 0 + suc n in
    ground (arith, length-set sems o.sem_num value, set-AllBelow max_semval sems o.sem_num value)
step_keeps o (negsuc n) sems e b =
    let value = get_or sems o.sem_num 0 - suc n in
    ground (arith, length-set sems o.sem_num value, set-AllBelow max_semval sems o.sem_num value)

-- An array that finishes keeps the number of values and their bound.
pub sem_check_keeps :
    (sops : List Sembuf) (sems : List ℕ) {sems' : List ℕ}
    → sem_check sops sems ≡ finished sems'
    → AllBelow max_semval sems
    → (length sems' ≡ length sems) × AllBelow max_semval sems'
unfolding sem_check
sem_check_keeps [] sems e b = ground arith
sem_check_keeps (o ∷ sops) sems {sems'} e b =
    let (mid, d, rest) = first_done o sops sems e in
    let k = step_keeps o o.sem_op sems d b in
    let r = sem_check_keeps sops mid rest k.1 in (omega (arith, k.0, r.0), r.1)

-- When an array of operations in range finishes, every value has moved by the sum of the operations
-- on it: what they take away and the new value make up what they add and the old value.
pub sem_check_effect :
    (sops : List Sembuf) (sems sems' : List ℕ)
    → all_in_range (length sems) sops ≡ true
    → sem_check sops sems ≡ finished sems'
    → AllBelow max_semval sems
    → (j : ℕ) → get_or sems' j 0 + taken j sops ≡ get_or sems j 0 + added j sops
unfolding added taken all_in_range
sem_check_effect [] sems sems' r e b j = unfold sem_check in ground arith
sem_check_effect (o ∷ sops) sems sems' r e b j =
    let (mid, d, rest) = first_done o sops sems e in
    let k = step_keeps o o.sem_op sems d b in
    let here : o.sem_num < length sems = ground arith in
    let there : all_in_range (length mid) sops ≡ true = rw k.0 (ground arith) in
    omega (
      arith,
      step_effect o o.sem_op sems here d j,
      sem_check_effect sops mid sems' there rest k.1 j,
    )

-- An operation that has to wait fails instead where it has IPC_NOWAIT.
abbrev pub Waits : Sembuf → Outcome → Type 0
Waits o why =
    ((has_flag o.sem_flg ipc_nowait ≡ true) × (why ≡ failed eagain))
    ⊎ ((has_flag o.sem_flg ipc_nowait ≡ false) × (why ≡ blocked))

-- Why an operation by an amount cannot be done at a value, as semop(2) says it: the value is not 0, or
-- would be too large, or is too small.
abbrev pub Reason : Sembuf → ℤ → ℕ → Outcome → Type 0
Reason o (pos zero) value why = (value ≢ 0) × Waits o why
Reason o (pos (suc n)) value why = (max_semval < value + suc n) × (why ≡ failed erange)
Reason o (negsuc n) value why =
    ((value < suc n) × Waits o why) ⊎ ((max_semval + suc n < value) × (why ≡ failed erange))

unfoldable NeverFinished : Outcome → Type 0
NeverFinished why = (sems : List ℕ) → why ≢ finished sems

not_yet-Waits : (o : Sembuf) (why : Outcome) → not_yet o ≡ why → Waits o why
not_yet-Waits o why e = elim (Bool-cases (has_flag o.sem_flg ipc_nowait)) [
  | inl y ↦ inl (y, sym e ∙ (rw (y, not_yet) refl))
  | inr n ↦ inr (n, sym e ∙ (rw (n, not_yet) refl))
]

store_value_fails :
    (o : Sembuf) (sems : List ℕ) (v : ℕ) (why : Outcome)
    → store_value o sems v ≡ why
    → NeverFinished why
    → (max_semval < v) × (why ≡ failed erange)
unfolding NeverFinished
store_value_fails o sems v why e never = elim (Bool-cases (ltb max_semval v)) [
  | inl y ↦ (ground arith, sym e ∙ (rw (y, store_value) refl))
  | inr n ↦ absurd (never (set sems o.sem_num v) (sym e ∙ (rw (n, store_value) refl)))
]

sem_step-Reason :
    (o : Sembuf) (sems : List ℕ) (by : ℤ) (why : Outcome)
    → sem_step o sems by ≡ why
    → NeverFinished why
    → Reason o by (get_or sems o.sem_num 0) why
unfolding sem_step NeverFinished
sem_step-Reason o sems (pos zero) why e never = elim (Bool-cases (get_or sems o.sem_num 0 == 0)) [
  | inl z ↦ absurd (never sems (sym e ∙ (rw (z) refl)))
  | inr z ↦ (ground arith, not_yet-Waits o why (sym (rw (z) refl) ∙ e))
]
sem_step-Reason o sems (pos (suc n)) why e never =
    store_value_fails o sems (get_or sems o.sem_num 0 + suc n) why e never
sem_step-Reason o sems (negsuc n) why e never =
    let value = get_or sems o.sem_num 0 in
    elim (Bool-cases (ltb value (suc n))) [
      | inl z ↦ inl (ground arith, not_yet-Waits o why (sym (rw (z) refl) ∙ e))
      | inr z ↦
          let f = store_value_fails o sems (value - suc n) why (sym (rw (z) refl) ∙ e) never in
          inr (omega (arith, f.0), f.1)
    ]

-- Why an array of operations stopped: after a part that can be done stands an operation that cannot be
-- done at the value it meets, and the reason is its own.
unfoldable pub Stops : List Sembuf → List ℕ → Outcome → Type 0
Stops sops sems why =
    (before : List Sembuf) × (o : Sembuf) × (after : List Sembuf) × (mid : List ℕ) × (sops
      ≡ before ++ (o ∷ after))
    × (sem_check before sems ≡ finished mid)
    × Reason o o.sem_op (get_or mid o.sem_num 0) why

first-Stops :
    (o : Sembuf) (sops : List Sembuf) (sems : List ℕ) (why : Outcome)
    → sem_step o sems o.sem_op ≡ why
    → NeverFinished why
    → Stops (o ∷ sops) sems why
unfolding Stops sem_check
first-Stops o sops sems why e never =
    ([], o, sops, sems, refl, refl, sem_step-Reason o sems o.sem_op why e never)

later-Stops :
    (o : Sembuf) (sops : List Sembuf) (sems mid : List ℕ) (why : Outcome)
    → sem_step o sems o.sem_op ≡ finished mid
    → Stops sops mid why
    → Stops (o ∷ sops) sems why
unfolding Stops sem_check
later-Stops o sops sems mid why e (before, p, after, at, split, done, last) =
    (o ∷ before, p, after, at, ap (λ l. o ∷ l) split, rw (e, sem_check) done, last)

-- An array of operations that does not finish stops at one operation, all before it being done, for one of
-- these reasons: it waits for 0 or for a larger value, which is -EAGAIN with IPC_NOWAIT and blocks without,
-- or it makes a value too large, which is -ERANGE.
pub sem_check-Stops :
    (sops : List Sembuf) (sems : List ℕ) (why : Outcome)
    → sem_check sops sems ≡ why
    → ((sems' : List ℕ) → why ≢ finished sems')
    → Stops sops sems why
unfolding sem_check NeverFinished
sem_check-Stops [] sems why e never = absurd (never sems (sym e))
sem_check-Stops (o ∷ sops) sems why e never = elim (Outcome-cases (sem_step o sems o.sem_op)) [
  | inl b ↦ first-Stops o sops sems why (ground arith) never
  | inr (inl (x, b)) ↦ first-Stops o sops sems why (ground arith) never
  | inr (inr (mid, b)) ↦
      later-Stops o sops sems mid why b (sem_check-Stops sops mid why (ground arith) never)
]
