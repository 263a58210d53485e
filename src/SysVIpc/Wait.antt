-- ===== src/SysVIpc/Wait.antt =====
-- sysvipc_wake_tracee of extension/sysvipc/sysvipc.c, and walks over the tracees of a namespace.
use xyzterm.Common.{
  ℕ, ◌≡◌, refl, List, [], ◌∷◌, Option, none, some, Bool, true, false, ◌||◌, arith, ◌==◌,
  if◌then◌else◌,
}
use xyzterm.Common.Int.{ℤ}
use xyzterm.SysVIpc.{Config, WaitReason, WaitState, ChainState}

-- A tracee can be woken: it waits, and the call that makes it wait is ppoll(2) or about to be.
abbrev pub wakeable : WaitReason → WaitState → Bool
wakeable WaitReason.not_waiting s = false
wakeable r WaitState.entered_ppoll = true
wakeable r WaitState.restarted_into_ppoll = true
wakeable r s = false

abbrev pub woken_state : WaitState → WaitState
woken_state WaitState.entered_ppoll = WaitState.signaled_ppoll
woken_state WaitState.restarted_into_ppoll = WaitState.restarted_into_ppoll_canceled
woken_state s = s

abbrev pub is_entered_ppoll : WaitState → Bool
is_entered_ppoll WaitState.entered_ppoll = true
is_entered_ppoll s = false

-- `none` is a failed assertion. A tracee that is inside ppoll(2) is sent a SIGSTOP.
unfoldable pub wake_tracee : Config → ℤ → Option Config
wake_tracee c status =
    if wakeable c.wait_reason c.wait_state
    then some (record c {
      wait_reason = WaitReason.not_waiting;
      status_after_wait = status;
      wait_state = woken_state c.wait_state;
      sigstop_ignored = if is_entered_ppoll c.wait_state then true else c.sigstop_ignored;
    })
    else none

abbrev pub is_wait_semop : WaitReason → Bool
is_wait_semop WaitReason.wait_semop = true
is_wait_semop r = false

abbrev pub is_wait_queue_recv : WaitReason → Bool
is_wait_queue_recv WaitReason.wait_queue_recv = true
is_wait_queue_recv r = false

abbrev pub cons_config : Config → Option (List Config) → Option (List Config)
cons_config c none = none
cons_config c (some cs) = some (c ∷ cs)

abbrev pub is_not_waiting : WaitReason → Bool
is_not_waiting WaitReason.not_waiting = true
is_not_waiting r = false

-- What IPC_RMID does to the tracees: those that satisfy the test are woken with -EIDRM.
unfoldable pub wake_all : (Config → Bool) → ℤ → List Config → Option (List Config)
wake_all test status [] = some []
wake_all test status (c ∷ cs) =
    let rest = wake_all test status cs in
    if test c
    then elim (wake_tracee c status) [ none ↦ none | some c' ↦ cons_config c' rest ]
    else cons_config c rest

-- The configuration of the tracee that makes the call, written in place.
unfoldable pub update_config : ℕ → (Config → Config) → List Config → List Config
update_config pid f [] = []
update_config pid f (c ∷ cs) = (if c.pid == pid then f c else c) ∷ update_config pid f cs

-- A tracee does not wait, or can be woken.
abbrev pub settled : Config → Bool
settled c = is_not_waiting c.wait_reason || wakeable c.wait_reason c.wait_state

-- All tracees are settled, but perhaps the one whose call is being handled.
abbrev pub SettledBut : ℕ → List Config → Type 0
SettledBut pid [] = Unit {0}
SettledBut pid (c ∷ cs) = ((c.pid == pid || settled c) ≡ true) × SettledBut pid cs

abbrev pub AllSettled : List Config → Type 0
AllSettled [] = Unit {0}
AllSettled (c ∷ cs) = (settled c ≡ true) × AllSettled cs

-- Waking a tracee that can be woken succeeds, and it waits no more.
pub wake_settled :
    (c : Config) (status : ℤ)
    → wakeable c.wait_reason c.wait_state ≡ true
    → (c' : Config) × (wake_tracee c status ≡ some c')
      × (settled c' ≡ true)
      × (c'.pid ≡ c.pid)
      × (c'.status_after_wait ≡ status)
unfolding wake_tracee
wake_settled c status h = (
  record c {
    wait_reason = WaitReason.not_waiting;
    status_after_wait = status;
    wait_state = woken_state c.wait_state;
    sigstop_ignored = if is_entered_ppoll c.wait_state then true else c.sigstop_ignored;
  },
  ground arith,
  refl,
  refl,
  refl,
)

-- A second try leaves a tracee that neither waits nor is in a chain.
abbrev pub StaysIdle : (Config → Option (ℤ × Config)) → Type 0
StaysIdle retry =
    (c : Config) (r : ℤ × Config)
    → is_not_waiting c.wait_reason ≡ true
    → retry c ≡ some r
    → (is_not_waiting (r.1).wait_reason ≡ true) × ((r.1).chain_state ≡ ChainState.not_chained)
