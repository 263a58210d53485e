-- ===== src/SysVIpc/Events/Rest.antt =====
-- How the events of extension/sysvipc/sysvipc.c keep to the chain states that belong to a phase.
use xyzterm.Common.{
  ℕ, ◌≡◌, refl, ap, ◌∙◌, inl, inr, Option, none, some, Bool, true, false, if_both, Option-cases,
}
use xyzterm.Common.Int.{ℤ}
use xyzterm.SysVIpc.{Config, WaitState, ChainState}
use xyzterm.SysVIpc.Wait.{StaysIdle, is_not_waiting, is_wait_semop}
use xyzterm.SysVIpc.Events.{
  Redirect, Handled, finished, started, ended, status_in, delivered, timed_out,
}
use xyzterm.SysVIpc.Events.Placed.{Phase, placed, at_rest}

-- The chain of shmat is at rest in the configuration that one of the functions leaves, if its assertions
-- hold.
abbrev pub AreAtRest : Option Handled → Type 0
AreAtRest none = Unit {0}
AreAtRest (some h) = at_rest h.config.chain_state h.config.wait_state ≡ true

at_rest_idle :
    (k : ChainState) (w : WaitState) → at_rest k w ≡ true → at_rest k WaitState.not_waiting ≡ true
at_rest_idle ChainState.not_chained w h = refl
at_rest_idle ChainState.single w h = refl
at_rest_idle ChainState.msgrcv_retry w h = refl
at_rest_idle ChainState.shmat_socket w h = refl
at_rest_idle ChainState.shmat_connect w h = h
at_rest_idle ChainState.shmat_recvmsg w h = h
at_rest_idle ChainState.shmat_mmap w h = h

-- In a wait state no chain of shmat goes on.
pub at_rest_waiting :
    (k : ChainState) (w w' : WaitState)
    → at_rest ChainState.shmat_socket w ≡ false
    → at_rest k w ≡ true
    → at_rest k w' ≡ true
at_rest_waiting ChainState.not_chained w w' n h = refl
at_rest_waiting ChainState.single w w' n h = refl
at_rest_waiting ChainState.msgrcv_retry w w' n h = refl
at_rest_waiting ChainState.shmat_socket w w' n h = absurd (cc)
at_rest_waiting ChainState.shmat_connect w w' n h = absurd (cc)
at_rest_waiting ChainState.shmat_recvmsg w w' n h = absurd (cc)
at_rest_waiting ChainState.shmat_mmap w w' n h = absurd (cc)

-- A call that ends without a chain.
not_chained-AreAtRest :
    (c : Config) (w : WaitState)
    → c.chain_state ≡ ChainState.not_chained
    → at_rest c.chain_state w ≡ true
not_chained-AreAtRest c w e = ap (λ k. at_rest k w) e

pub finished-AreAtRest :
    (sys : Bool) (timeout : ℕ) (status : ℤ) (c : Config) (k : ChainState)
    → c.wait_state ≡ WaitState.not_waiting
    → c.chain_state ≡ k
    → AreAtRest (finished sys timeout status c k)
finished-AreAtRest true timeout status c ChainState.not_chained w e =
    if_both AreAtRest (is_not_waiting c.wait_reason) (λ i. not_chained-AreAtRest c c.wait_state e)
      (λ i. not_chained-AreAtRest c WaitState.restarted_into_ppoll e)
finished-AreAtRest false timeout status c ChainState.not_chained w e =
    if_both AreAtRest (is_not_waiting c.wait_reason)
      (λ i. not_chained-AreAtRest c WaitState.entered_getpid e)
      (λ i. not_chained-AreAtRest c WaitState.entered_ppoll e)
finished-AreAtRest sys timeout status c ChainState.single w e = refl
finished-AreAtRest sys timeout status c ChainState.shmat_socket w e =
    ap (λ k. at_rest k c.wait_state) e ∙ ap (λ s. at_rest ChainState.shmat_socket s) w
finished-AreAtRest sys timeout status c ChainState.shmat_connect w e = tt
finished-AreAtRest sys timeout status c ChainState.shmat_recvmsg w e = tt
finished-AreAtRest sys timeout status c ChainState.shmat_mmap w e = tt
finished-AreAtRest sys timeout status c ChainState.msgrcv_retry w e = tt

delivered-AreAtRest :
    (redirect : Redirect) (retry : Config → Option (ℤ × Config)) (c : Config) (k : ChainState)
    → StaysIdle retry
    → is_not_waiting c.wait_reason ≡ true
    → at_rest c.chain_state WaitState.not_waiting ≡ true
    → AreAtRest (delivered redirect (status_in retry c k))
delivered-AreAtRest redirect retry c ChainState.msgrcv_retry s i h = elim (Option-cases (retry c)) [
  | inl e ↦ rw (e, delivered) tt
  | inr r ↦
      rw (r.1, delivered) (not_chained-AreAtRest (r.0).1 WaitState.not_waiting (s c r.0 i r.1).1)
]
delivered-AreAtRest redirect retry c ChainState.not_chained s i h = h
delivered-AreAtRest redirect retry c ChainState.single s i h = h
delivered-AreAtRest redirect retry c ChainState.shmat_socket s i h = h
delivered-AreAtRest redirect retry c ChainState.shmat_connect s i h = h
delivered-AreAtRest redirect retry c ChainState.shmat_recvmsg s i h = h
delivered-AreAtRest redirect retry c ChainState.shmat_mmap s i h = h

pub started-AreAtRest :
    (retry : Config → Option (ℤ × Config)) (c : Config) (w : WaitState)
    → StaysIdle retry
    → placed Phase.outside w (is_not_waiting c.wait_reason) ≡ true
    → at_rest c.chain_state w ≡ true
    → AreAtRest (started retry (λ d. none) c w)
started-AreAtRest retry c WaitState.not_waiting s p h = tt
started-AreAtRest retry c WaitState.restarted_into_ppoll s p h =
    at_rest_waiting c.chain_state WaitState.restarted_into_ppoll WaitState.entered_ppoll refl h
started-AreAtRest retry c WaitState.restarted_into_ppoll_canceled s p h =
    delivered-AreAtRest Redirect.to_void retry c c.chain_state s p
      (at_rest_idle c.chain_state WaitState.restarted_into_ppoll_canceled h)
started-AreAtRest retry c WaitState.entered_ppoll s p h = tt
started-AreAtRest retry c WaitState.signaled_ppoll s p h = tt
started-AreAtRest retry c WaitState.entered_getpid s p h = tt

timed_out-AreAtRest :
    (c : Config)
    → at_rest c.chain_state WaitState.not_waiting ≡ true
    → at_rest (timed_out c).chain_state (timed_out c).wait_state ≡ true
timed_out-AreAtRest c h =
    if_both {A = Config} (λ d. at_rest d.chain_state d.wait_state ≡ true)
      (is_wait_semop c.wait_reason) (λ e. h) (λ e. h)

pub ended-AreAtRest :
    (retry : Config → Option (ℤ × Config)) (ppoll_status : ℤ) (c : Config) (w : WaitState)
    → StaysIdle retry
    → c.wait_state ≡ w
    → at_rest c.chain_state w ≡ true
    → AreAtRest (ended retry ppoll_status c w)
ended-AreAtRest retry ppoll_status c WaitState.not_waiting s e h =
    ap (λ w. at_rest c.chain_state w) e ∙ h
ended-AreAtRest retry ppoll_status c WaitState.entered_ppoll s e h =
    if_both AreAtRest (is_not_waiting c.wait_reason) (λ i. tt)
      (λ i. timed_out-AreAtRest c (at_rest_idle c.chain_state WaitState.entered_ppoll h))
ended-AreAtRest retry ppoll_status c WaitState.signaled_ppoll s e h =
    if_both AreAtRest (is_not_waiting c.wait_reason)
      (λ i.
        delivered-AreAtRest Redirect.unchanged retry c c.chain_state s i
          (at_rest_idle c.chain_state WaitState.signaled_ppoll h))
      (λ i. tt)
ended-AreAtRest retry ppoll_status c WaitState.entered_getpid s e h =
    if_both AreAtRest (is_not_waiting c.wait_reason)
      (λ i.
        delivered-AreAtRest Redirect.unchanged retry c c.chain_state s i
          (at_rest_idle c.chain_state WaitState.entered_getpid h))
      (λ i. tt)
ended-AreAtRest retry ppoll_status c WaitState.restarted_into_ppoll s e h = tt
ended-AreAtRest retry ppoll_status c WaitState.restarted_into_ppoll_canceled s e h = tt
