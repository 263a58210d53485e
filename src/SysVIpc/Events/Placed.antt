-- ===== src/SysVIpc/Events/Placed.antt =====
-- The wait states of extension/sysvipc/sysvipc.c that belong between and within system calls, and how
-- the events keep to them.
use xyzterm.Common.{
  ℕ, ◌≡◌, refl, ap, subst, ◌∙◌, inl, inr, Option, none, some, Bool, true, false, not, if◌then◌else◌,
  arith, Bool-cases, Option-cases,
}
use xyzterm.Common.Int.{ℤ}
use xyzterm.SysVIpc.{Config, WaitReason, WaitState, ChainState}
use xyzterm.SysVIpc.Wait.{
  StaysIdle, is_not_waiting, is_wait_semop, wakeable, woken_state, is_entered_ppoll, wake_tracee,
}
use xyzterm.SysVIpc.Events.{
  Redirect, Handled, with_wait_state, finished, started, ended, status_in, delivered, timed_out,
}

-- Between two system calls, or within one; the last two are for a tracee with a chain that is registered.
pub data Phase : Type 0 where
  outside inside between chained : Phase

-- The wait states that belong to a phase, with whether the tracee does not wait for an object.
abbrev pub placed : Phase → WaitState → Bool → Bool
placed Phase.outside WaitState.not_waiting idle = idle
placed Phase.outside WaitState.restarted_into_ppoll idle = not idle
placed Phase.outside WaitState.restarted_into_ppoll_canceled idle = idle
placed Phase.outside WaitState.entered_ppoll idle = false
placed Phase.outside WaitState.signaled_ppoll idle = false
placed Phase.outside WaitState.entered_getpid idle = false
placed Phase.inside WaitState.not_waiting idle = idle
placed Phase.inside WaitState.entered_ppoll idle = not idle
placed Phase.inside WaitState.signaled_ppoll idle = idle
placed Phase.inside WaitState.entered_getpid idle = idle
placed Phase.inside WaitState.restarted_into_ppoll idle = false
placed Phase.inside WaitState.restarted_into_ppoll_canceled idle = false
placed Phase.between WaitState.not_waiting idle = idle
placed Phase.between WaitState.restarted_into_ppoll_canceled idle = idle
placed Phase.between WaitState.restarted_into_ppoll idle = false
placed Phase.between WaitState.entered_ppoll idle = false
placed Phase.between WaitState.signaled_ppoll idle = false
placed Phase.between WaitState.entered_getpid idle = false
placed Phase.chained WaitState.not_waiting idle = idle
placed Phase.chained WaitState.signaled_ppoll idle = idle
placed Phase.chained WaitState.restarted_into_ppoll idle = false
placed Phase.chained WaitState.restarted_into_ppoll_canceled idle = false
placed Phase.chained WaitState.entered_ppoll idle = false
placed Phase.chained WaitState.entered_getpid idle = false

abbrev pub WaitIsPlaced : Phase → Config → Type 0
WaitIsPlaced phase c = placed phase c.wait_state (is_not_waiting c.wait_reason) ≡ true

-- Without a registered chain, that of shmat is at its first call if at any, and the tracee in no wait
-- state then.
abbrev pub at_rest : ChainState → WaitState → Bool
at_rest ChainState.not_chained w = true
at_rest ChainState.single w = true
at_rest ChainState.msgrcv_retry w = true
at_rest ChainState.shmat_socket WaitState.not_waiting = true
at_rest ChainState.shmat_socket w = false
at_rest ChainState.shmat_connect w = false
at_rest ChainState.shmat_recvmsg w = false
at_rest ChainState.shmat_mmap w = false

abbrev pub chain_placed : Phase → ChainState → WaitState → Bool
chain_placed Phase.outside k w = at_rest k w
chain_placed Phase.inside k w = at_rest k w
chain_placed Phase.between k w = true
chain_placed Phase.chained k w = true

abbrev pub IsPlaced : Phase → Config → Type 0
IsPlaced phase c = WaitIsPlaced phase c × (chain_placed phase c.chain_state c.wait_state ≡ true)

-- What a handler leaves: a tracee that is in no wait state yet, and that waits for nothing if the call
-- was replaced by a chain.
abbrev pub leaves : ChainState → Bool → Bool
leaves ChainState.not_chained idle = true
leaves ChainState.single idle = idle
leaves ChainState.shmat_socket idle = idle
leaves ChainState.shmat_connect idle = false
leaves ChainState.shmat_recvmsg idle = false
leaves ChainState.shmat_mmap idle = false
leaves ChainState.msgrcv_retry idle = false

abbrev pub IsLeft : Config → Type 0
IsLeft c =
    (c.wait_state ≡ WaitState.not_waiting)
    × (leaves c.chain_state (is_not_waiting c.wait_reason) ≡ true)

-- The phase after the end of a System V call.
abbrev pub phase_after : Bool → Phase
phase_after true = Phase.outside
phase_after false = Phase.inside

-- What one of the functions gives, if its assertions hold, is placed in the phase.
abbrev pub ArePlaced : Phase → Option Handled → Type 0
ArePlaced phase none = Unit {0}
ArePlaced phase (some h) = WaitIsPlaced phase h.config

pub finished-ArePlaced :
    (sys : Bool) (timeout : ℕ) (status : ℤ) (c : Config) (k : ChainState)
    → c.wait_state ≡ WaitState.not_waiting
    → leaves k (is_not_waiting c.wait_reason) ≡ true
    → ArePlaced (phase_after sys) (finished sys timeout status c k)
finished-ArePlaced true timeout status c ChainState.not_chained e l =
    elim (Bool-cases (is_not_waiting c.wait_reason)) [
      | inl y ↦ rw (y, finished, e) y
      | inr n ↦ rw (n, finished) (ground arith)
    ]
finished-ArePlaced false timeout status c ChainState.not_chained e l =
    elim (Bool-cases (is_not_waiting c.wait_reason)) [
      | inl y ↦ rw (y, finished) y
      | inr n ↦ rw (n, finished) (ground arith)
    ]
finished-ArePlaced true timeout status c ChainState.single e l = rw (e) l
finished-ArePlaced false timeout status c ChainState.single e l = rw (e) l
finished-ArePlaced true timeout status c ChainState.shmat_socket e l = rw (e) l
finished-ArePlaced false timeout status c ChainState.shmat_socket e l = rw (e) l
finished-ArePlaced sys timeout status c ChainState.shmat_connect e l = tt
finished-ArePlaced sys timeout status c ChainState.shmat_recvmsg e l = tt
finished-ArePlaced sys timeout status c ChainState.shmat_mmap e l = tt
finished-ArePlaced sys timeout status c ChainState.msgrcv_retry e l = tt

-- All phases allow a tracee that neither waits nor is in a wait state.
placed_idle : (phase : Phase) → placed phase WaitState.not_waiting true ≡ true
placed_idle Phase.outside = refl
placed_idle Phase.inside = refl
placed_idle Phase.between = refl
placed_idle Phase.chained = refl

idle-IsPlaced :
    (phase : Phase) (c : Config)
    → is_not_waiting c.wait_reason ≡ true
    → WaitIsPlaced phase (with_wait_state WaitState.not_waiting c)
idle-IsPlaced phase c h = ap (placed phase WaitState.not_waiting) h ∙ placed_idle phase

delivered-ArePlaced :
    (phase : Phase) (redirect : Redirect) (retry : Config → Option (ℤ × Config)) (c : Config)
    (k : ChainState)
    → StaysIdle retry
    → is_not_waiting c.wait_reason ≡ true
    → ArePlaced phase (delivered redirect (status_in retry c k))
delivered-ArePlaced phase redirect retry c ChainState.msgrcv_retry s h =
    elim (Option-cases (retry c)) [
      | inl e ↦ rw (e, delivered) tt
      | inr r ↦ rw (r.1, delivered) (idle-IsPlaced phase (r.0).1 (s c r.0 h r.1).0)
    ]
delivered-ArePlaced phase redirect retry c ChainState.not_chained s h = idle-IsPlaced phase c h
delivered-ArePlaced phase redirect retry c ChainState.single s h = idle-IsPlaced phase c h
delivered-ArePlaced phase redirect retry c ChainState.shmat_socket s h = idle-IsPlaced phase c h
delivered-ArePlaced phase redirect retry c ChainState.shmat_connect s h = idle-IsPlaced phase c h
delivered-ArePlaced phase redirect retry c ChainState.shmat_recvmsg s h = idle-IsPlaced phase c h
delivered-ArePlaced phase redirect retry c ChainState.shmat_mmap s h = idle-IsPlaced phase c h

pub started-ArePlaced :
    (retry : Config → Option (ℤ × Config)) (c : Config) (w : WaitState)
    → StaysIdle retry
    → placed Phase.outside w (is_not_waiting c.wait_reason) ≡ true
    → ArePlaced Phase.inside (started retry (λ d. none) c w)
started-ArePlaced retry c WaitState.not_waiting s h = tt
started-ArePlaced retry c WaitState.restarted_into_ppoll s h = h
started-ArePlaced retry c WaitState.restarted_into_ppoll_canceled s h =
    delivered-ArePlaced Phase.inside Redirect.to_void retry c c.chain_state s h
started-ArePlaced retry c WaitState.entered_ppoll s h = tt
started-ArePlaced retry c WaitState.signaled_ppoll s h = tt
started-ArePlaced retry c WaitState.entered_getpid s h = tt

timed_out-IsPlaced : (c : Config) → WaitIsPlaced Phase.outside (timed_out c)
timed_out-IsPlaced c = elim (Bool-cases (is_wait_semop c.wait_reason)) [
  | inl y ↦ rw (y, timed_out) refl
  | inr n ↦ rw (n, timed_out) refl
]

pub ended-ArePlaced :
    (retry : Config → Option (ℤ × Config)) (ppoll_status : ℤ) (c : Config) (w : WaitState)
    → StaysIdle retry
    → c.wait_state ≡ w
    → placed Phase.inside w (is_not_waiting c.wait_reason) ≡ true
    → ArePlaced Phase.outside (ended retry ppoll_status c w)
ended-ArePlaced retry ppoll_status c WaitState.not_waiting s e h =
    ap (λ w. placed Phase.outside w (is_not_waiting c.wait_reason)) e ∙ h
ended-ArePlaced retry ppoll_status c WaitState.entered_ppoll s e h =
    elim (Bool-cases (is_not_waiting c.wait_reason)) [
      | inl y ↦ rw (y, ended) tt
      | inr n ↦ rw (n, ended) (timed_out-IsPlaced c)
    ]
ended-ArePlaced retry ppoll_status c WaitState.signaled_ppoll s e h =
    rw (h, ended) (delivered-ArePlaced Phase.outside Redirect.unchanged retry c c.chain_state s h)
ended-ArePlaced retry ppoll_status c WaitState.entered_getpid s e h =
    rw (h, ended) (delivered-ArePlaced Phase.outside Redirect.unchanged retry c c.chain_state s h)
ended-ArePlaced retry ppoll_status c WaitState.restarted_into_ppoll s e h = tt
ended-ArePlaced retry ppoll_status c WaitState.restarted_into_ppoll_canceled s e h = tt

woken_state-placed :
    (phase : Phase) (r : WaitReason) (w : WaitState)
    → wakeable r w ≡ true
    → placed phase w (is_not_waiting r) ≡ true
    → placed phase (woken_state w) true ≡ true
woken_state-placed Phase.outside r w k h = ground arith
woken_state-placed Phase.inside r w k h = ground arith
woken_state-placed Phase.between r w k h = ground arith
woken_state-placed Phase.chained r w k h = ground arith

pub wake-IsPlaced :
    (phase : Phase) (c c' : Config) (status : ℤ)
    → WaitIsPlaced phase c
    → wake_tracee c status ≡ some c'
    → WaitIsPlaced phase c'
unfolding wake_tracee
wake-IsPlaced phase c c' status h e = elim (Bool-cases (wakeable c.wait_reason c.wait_state)) [
  | inl y ↦
      let woken : Config = record c {
        wait_reason = WaitReason.not_waiting;
        status_after_wait = status;
        wait_state = woken_state c.wait_state;
        sigstop_ignored = if is_entered_ppoll c.wait_state then true else c.sigstop_ignored;
      } in
      let f : wake_tracee c status ≡ some woken = rw (y, wake_tracee) refl in
      let same : woken ≡ c' = cc in
      subst (WaitIsPlaced phase) same (woken_state-placed phase c.wait_reason c.wait_state y h)
  | inr n ↦ let f : wake_tracee c status ≡ none = rw (n, wake_tracee) refl in absurd (cc)
]
