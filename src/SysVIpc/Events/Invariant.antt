-- ===== src/SysVIpc/Events/Invariant.antt =====
-- The wait states of extension/sysvipc/sysvipc.c along any interleaving of the tracee's events with
-- wake-ups by other tracees.
use xyzterm.Common.{
  ◌≡◌, refl, ap, sym, subst, ◌∙◌, ◌⊎◌, inl, inr, Option, none, some, Bool, true, false,
  if◌then◌else◌, arith,
}
use xyzterm.Common.Int.{ℤ, pos}
use xyzterm.SysVIpc.{Config, WaitReason, WaitState, ChainState}
use xyzterm.SysVIpc.Wait.{
  StaysIdle, is_not_waiting, wakeable, woken_state, is_entered_ppoll, wake_tracee,
}
use xyzterm.SysVIpc.Events.{
  Redirect, Handled, with_wait_state, started, ended, finish_syscall, status_in, delivered,
  enter_start, passed, exit_start,
}
use xyzterm.SysVIpc.Events.Placed.{
  Phase, placed, IsPlaced, finished-ArePlaced, started-ArePlaced, wake-IsPlaced,
}
use xyzterm.SysVIpc.Shm.Attach.{Answers}
use xyzterm.SysVIpc.Events.{chained_enter, chained_exit}
use xyzterm.SysVIpc.Events.Placed.{ArePlaced}
use xyzterm.SysVIpc.Events.Rest.{AreAtRest, finished-AreAtRest, started-AreAtRest}
use xyzterm.SysVIpc.Events.Turn.{exit_in-IsPlaced}
use xyzterm.SysVIpc.Events.{exit_in}
use xyzterm.SysVIpc.Events.Steps.{Step, Steps}
use xyzterm.SysVIpc.Events.Kept.{
  wake-chain, retry_placed, wake-shmat, chained_from-IsPlaced, AreBetween, chained_to-AreBetween,
  unchained_at_rest, unchained_placed,
}

Step-IsPlaced :
    (retry : Config → Option (ℤ × Config)) (phase : Phase) (c : Config) (phase' : Phase)
    (c' : Config)
    → StaysIdle retry
    → IsPlaced phase c
    → Step retry phase c phase' c'
    → IsPlaced phase' c'
unfolding finish_syscall enter_start exit_start chained_enter chained_exit
Step-IsPlaced retry phase c phase' c' s p (Step.passes d e) =
    let i : Bool = is_not_waiting c.wait_reason in
    (ap (λ w. placed Phase.inside w i) e ∙ sym (ap (λ w. placed Phase.outside w i) e) ∙ p.0, p.1)
Step-IsPlaced retry phase c phase' c' s p (Step.calls d left timeout status h w l e) = (
  subst (ArePlaced Phase.inside) e
      (finished-ArePlaced false timeout status left left.chain_state l.0 l.1),
  subst AreAtRest e (finished-AreAtRest false timeout status left left.chain_state l.0 refl),
)
Step-IsPlaced retry phase c phase' c' s p (Step.sigsys d left timeout status h w l e) = (
  subst (ArePlaced Phase.outside) e
      (finished-ArePlaced true timeout status left left.chain_state l.0 l.1),
  subst AreAtRest e (finished-AreAtRest true timeout status left left.chain_state l.0 refl),
)
Step-IsPlaced retry phase c phase' c' s p (Step.restarts d h e) = (
  subst (ArePlaced Phase.inside) e (started-ArePlaced retry c c.wait_state s p.0),
  subst AreAtRest e (started-AreAtRest retry c c.wait_state s p.0 p.1),
)
Step-IsPlaced retry phase c phase' c' s p (Step.exits d answers ppoll_status h e) =
    exit_in-IsPlaced retry answers ppoll_status c c.chain_state h s p refl e
Step-IsPlaced retry phase c phase' c' s p (Step.chained_enters d d' e) =
    chained_from-IsPlaced c c.wait_state c' refl p.0 e
Step-IsPlaced retry phase c phase' c' s p (Step.chained_exits d answers d' e) =
    subst AreBetween e (chained_to-AreBetween answers c c.wait_state refl p.0)
Step-IsPlaced retry phase c phase' c' s p (Step.unchained d e) = (
  unchained_placed c.wait_state (is_not_waiting c.wait_reason) p.0,
  unchained_at_rest c.chain_state c.wait_state e,
)
Step-IsPlaced retry phase c phase' c' s p (Step.wakes f d d' status e) =
    (wake-IsPlaced phase c c' status p.0 e, wake-chain phase c c' status p e)
Step-IsPlaced retry phase c phase' c' s p (Step.wakes_msgrcv f d d' status e) =
    (wake-IsPlaced phase c d' status p.0 e, retry_placed phase d'.wait_state)
Step-IsPlaced retry phase c phase' c' s p (Step.wakes_shmat f d d' e) = wake-shmat phase c d' p e

-- From a wait state of its phase on, whatever events a tracee has, chained ones included, and whenever
-- others wake it, it is in a wait state of its phase, and waits for an object only while it is in ppoll(2)
-- or about to be; and while no chain is registered for it, a chain of shmat is at its first call if at
-- any, and the tracee in no wait state then. Second tries make the tracee neither wait nor start a chain.
pub Steps-IsPlaced :
    (retry : Config → Option (ℤ × Config)) (phase : Phase) (c : Config) (phase' : Phase)
    (c' : Config)
    → StaysIdle retry
    → IsPlaced phase c
    → Steps retry phase c phase' c'
    → IsPlaced phase' c'
Steps-IsPlaced retry phase c phase' c' s p (Steps.done f d) = p
Steps-IsPlaced retry phase c phase' c' s p (Steps.then f d f' d' f'' d'' x xs) =
    Steps-IsPlaced retry f' d' phase' c' s (Step-IsPlaced retry phase c f' d' s p x) xs

-- The next event of a tracee fails no assertion: the start of a call that is not System V's or that was
-- restarted, the end of a call, and the start and the end of a chained call.
abbrev pub IsHandled : (Config → Option (ℤ × Config)) → Option Answers → ℤ → Phase → Config → Type 0
IsHandled retry answers ppoll_status Phase.outside c =
    (h : Handled) × (enter_start retry (λ d. some (passed (pos 0) d)) c ≡ some h)
IsHandled retry answers ppoll_status Phase.inside c =
    (h : Handled) × (exit_start retry answers ppoll_status c ≡ some h)
IsHandled retry answers ppoll_status Phase.between c = (c' : Config) × (chained_enter c ≡ some c')
IsHandled retry answers ppoll_status Phase.chained c =
    (c' : Config) × (chained_exit answers c ≡ some c')

wakeable_states :
    (r : WaitReason) (w : WaitState)
    → wakeable r w ≡ true
    → (w ≡ WaitState.entered_ppoll) ⊎ (w ≡ WaitState.restarted_into_ppoll)
wakeable_states r WaitState.entered_ppoll h = inl refl
wakeable_states r WaitState.restarted_into_ppoll h = inr refl
wakeable_states r WaitState.not_waiting h = ground arith
wakeable_states r WaitState.restarted_into_ppoll_canceled h = ground arith
wakeable_states r WaitState.signaled_ppoll h = ground arith
wakeable_states r WaitState.entered_getpid h = ground arith

woken_with : ℤ → WaitState → Config → Config
woken_with status w c = record c {
  wait_reason = WaitReason.not_waiting;
  status_after_wait = status;
  wait_state = woken_state w;
  sigstop_ignored = if is_entered_ppoll w then true else c.sigstop_ignored;
}

-- A tracee that can be woken, when it is, gets the status that it is woken with as the result of its
-- call, at the end of ppoll(2) if it was within it, whatever ppoll gives, and at the start of ppoll if
-- it was about to enter it, which is then not entered; its call is not to be tried again.
pub wake_tracee-status :
    (retry : Config → Option (ℤ × Config)) (answers : Option Answers) (c c' : Config)
    (status ppoll_status : ℤ)
    → wakeable c.wait_reason c.wait_state ≡ true
    → c.chain_state ≡ ChainState.not_chained
    → wake_tracee c status ≡ some c'
    → ((c.wait_state ≡ WaitState.entered_ppoll)
        × (h : Handled) × (exit_start retry answers ppoll_status c' ≡ some h)
        × (h.result ≡ some status)
        × (h.redirect ≡ Redirect.unchanged)
        × (h.config.wait_state ≡ WaitState.not_waiting))
      ⊎ ((c.wait_state ≡ WaitState.restarted_into_ppoll)
          × (h : Handled) × (enter_start retry (λ d. none) c' ≡ some h)
          × (h.result ≡ some status)
          × (h.redirect ≡ Redirect.to_void)
          × (h.config.wait_state ≡ WaitState.not_waiting))
unfolding wake_tracee exit_start enter_start woken_with
wake_tracee-status retry answers c c' status ppoll_status w k e =
    let woken : Config = woken_with status c.wait_state c in
    let f : wake_tracee c status ≡ some woken = rw (w, wake_tracee) refl in
    let same : woken ≡ c' = cc in
    let result : Redirect → Handled = λ r. record {
      config = with_wait_state WaitState.not_waiting woken;
      status = pos 1;
      result = some status;
      redirect = r;
      restarted = false;
    } in
    elim (wakeable_states c.wait_reason c.wait_state w) [
      | inl p ↦ inl (
        p,
        result Redirect.unchanged,
        ap (exit_start retry answers ppoll_status) (sym same)
            ∙ ap (λ q. exit_in retry answers ppoll_status woken q) k
            ∙ ap (λ x. ended retry ppoll_status woken (woken_state x)) p
            ∙ ap (λ q. delivered Redirect.unchanged (status_in retry woken q)) k,
        refl,
        refl,
        refl,
      )
      | inr p ↦ inr (
        p,
        result Redirect.to_void,
        ap (enter_start retry (λ d. none)) (sym same)
            ∙ ap (λ x. started retry (λ d. none) woken (woken_state x)) p
            ∙ ap (λ q. delivered Redirect.to_void (status_in retry woken q)) k,
        refl,
        refl,
        refl,
      )
    ]
