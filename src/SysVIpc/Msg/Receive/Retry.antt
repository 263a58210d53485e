-- ===== src/SysVIpc/Msg/Receive/Retry.antt =====
-- sysvipc_msgrcv_retry of extension/sysvipc/sysvipc_msg.c: a second try is over at once.
use xyzterm.Common.{
  ℕ, ◌≡◌, refl, ap, sym, ◌∙◌, inl, inr, Option, none, some, Bool, true, false, not, if◌then◌else◌,
  Bool-cases, get_elem?, fail, eagain,
}
use xyzterm.Common.Int.{ℤ}
use xyzterm.SysVIpc.{MsgQueue, ChainState, Config, Ipc}
use xyzterm.SysVIpc.Wait.{StaysIdle, is_not_waiting}
use xyzterm.SysVIpc.Msg.{WriteData, int_eq}
use xyzterm.SysVIpc.Msg.Receive.{
  Receipt, do_msgrcv, received, is_retry, interrupted, retried, retry_at, msgrcv_retry,
}

-- Where no assertion fails, the tracee does not wait and no second try is due.
abbrev pub IsOver : Option ((ℤ × Config) × Ipc) → Type 0
IsOver none = Unit {0}
IsOver (some r) =
    (is_not_waiting (r.0).1.wait_reason ≡ true) × ((r.0).1.chain_state ≡ ChainState.not_chained)

interrupted_idle : (r : Receipt) → is_not_waiting (interrupted r).config.wait_reason ≡ true
interrupted_idle r = elim (Bool-cases (is_not_waiting r.config.wait_reason)) [
  | inl y ↦ rw (y, interrupted) y
  | inr n ↦ rw (n, interrupted) refl
]

IsOver-if :
    (b : Bool) (o o' : Option ((ℤ × Config) × Ipc))
    → IsOver o
    → IsOver o'
    → IsOver (if b then o else o')
IsOver-if true o o' h h' = h
IsOver-if false o o' h h' = h'

retry_at-IsOver :
    (write : WriteData) (now : ℕ) (c : Config) (ipc : Ipc) (o : Option MsgQueue)
    → IsOver (retry_at write now c ipc o)
unfolding retry_at
retry_at-IsOver write now c ipc none = tt
retry_at-IsOver write now c ipc (some q) =
    let receipt = do_msgrcv write now c.waiting_object_index c q in
    IsOver-if (not q.slot.valid) none
      (some (received ipc c.waiting_object_index (retried (interrupted receipt)))) tt
      (interrupted_idle receipt, refl)

-- The second try of msgrcv(2), by a tracee that does not wait, never makes it wait again, and no third
-- try is due, whatever the queue holds by then.
pub msgrcv_retry-IsOver :
    (write : WriteData) (now : ℕ) (c : Config) (ipc : Ipc)
    → is_not_waiting c.wait_reason ≡ true
    → IsOver (msgrcv_retry write now c ipc)
unfolding msgrcv_retry
msgrcv_retry-IsOver write now c ipc h =
    let queue = get_elem? ipc.queues c.waiting_object_index in
    let same : Option ((ℤ × Config) × Ipc) =
      some ((c.status_after_wait, record c { chain_state = ChainState.not_chained }), ipc) in
    IsOver-if (not (is_retry c.chain_state)) none
      (if int_eq c.status_after_wait (fail eagain) then retry_at write now c ipc queue else same) tt
      (IsOver-if (int_eq c.status_after_wait (fail eagain)) (retry_at write now c ipc queue) same
        (retry_at-IsOver write now c ipc queue) (h, refl))

abbrev pub with_config : Option ((ℤ × Config) × Ipc) → Option (ℤ × Config)
with_config none = none
with_config (some r) = some r.0

-- So a second try on any namespace is one that the wait states allow.
IsOver-idle :
    (o : Option ((ℤ × Config) × Ipc)) (r : ℤ × Config)
    → IsOver o
    → with_config o ≡ some r
    → (is_not_waiting (r.1).wait_reason ≡ true) × ((r.1).chain_state ≡ ChainState.not_chained)
IsOver-idle none r h e = absurd (cc)
IsOver-idle (some x) r h e =
    let same : x.0 ≡ r = cc in
    (
      ap (λ t. is_not_waiting (t.1).wait_reason) (sym same) ∙ h.0,
      ap (λ t. (t.1).chain_state) (sym same) ∙ h.1,
    )

pub msgrcv_retry-StaysIdle :
    (write : WriteData) (now : ℕ) (ipc : Ipc)
    → StaysIdle (λ c. with_config (msgrcv_retry write now c ipc))
msgrcv_retry-StaysIdle write now ipc c r h e =
    IsOver-idle (msgrcv_retry write now c ipc) r (msgrcv_retry-IsOver write now c ipc h) e
