-- ===== src/SysVIpc/Events/Turn.antt =====
-- The phase that the end of a system call leads to in extension/sysvipc/sysvipc.c, with the first turn of a
-- chain of shmat.
use xyzterm.Common.{◌≡◌, refl, ap, sym, subst, ◌∙◌, if◌then◌else◌, Option, none, some, Bool, true}
use xyzterm.Common.Int.{ℤ}
use xyzterm.SysVIpc.{Config, WaitState, ChainState}
use xyzterm.SysVIpc.Wait.{StaysIdle, is_not_waiting}
use xyzterm.SysVIpc.Shm.Attach.{Answers}
use xyzterm.SysVIpc.Events.{Handled, ended, is_shmat, exit_in, shmat_turn}
use xyzterm.SysVIpc.Events.Placed.{
  Phase, placed, ArePlaced, at_rest, chain_placed, IsPlaced, ended-ArePlaced,
}
use xyzterm.SysVIpc.Events.Rest.{AreAtRest, ended-AreAtRest}

-- The phase behind the end of a system call: with a registered chain if shmat goes on.
abbrev pub phase_behind : ChainState → Phase
phase_behind k = if is_shmat k then Phase.between else Phase.outside

behind-IsPlaced :
    (k : ChainState) (w : WaitState) (i : Bool)
    → placed Phase.outside w i ≡ true
    → at_rest k w ≡ true
    → (placed (phase_behind k) w i ≡ true) × (chain_placed (phase_behind k) k w ≡ true)
behind-IsPlaced ChainState.not_chained w i p h = (p, refl)
behind-IsPlaced ChainState.single w i p h = (p, refl)
behind-IsPlaced ChainState.msgrcv_retry w i p h = (p, refl)
behind-IsPlaced ChainState.shmat_socket WaitState.not_waiting i p h = (p, refl)
behind-IsPlaced ChainState.shmat_socket WaitState.restarted_into_ppoll i p h = absurd (cc)
behind-IsPlaced ChainState.shmat_socket WaitState.restarted_into_ppoll_canceled i p h = absurd (cc)
behind-IsPlaced ChainState.shmat_socket WaitState.entered_ppoll i p h = absurd (cc)
behind-IsPlaced ChainState.shmat_socket WaitState.signaled_ppoll i p h = absurd (cc)
behind-IsPlaced ChainState.shmat_socket WaitState.entered_getpid i p h = absurd (cc)
behind-IsPlaced ChainState.shmat_connect w i p h = absurd (cc)
behind-IsPlaced ChainState.shmat_recvmsg w i p h = absurd (cc)
behind-IsPlaced ChainState.shmat_mmap w i p h = absurd (cc)

-- The end of a system call that is no part of a chain of shmat.
ended-behind :
    (retry : Config → Option (ℤ × Config)) (ppoll_status : ℤ) (c : Config) (h : Handled)
    → StaysIdle retry
    → IsPlaced Phase.inside c
    → ended retry ppoll_status c c.wait_state ≡ some h
    → IsPlaced (phase_behind h.config.chain_state) h.config
ended-behind retry ppoll_status c h s p e =
    behind-IsPlaced h.config.chain_state h.config.wait_state (is_not_waiting h.config.wait_reason)
      (subst (ArePlaced Phase.outside) e
        (ended-ArePlaced retry ppoll_status c c.wait_state s refl p.0))
      (subst AreAtRest e (ended-AreAtRest retry ppoll_status c c.wait_state s refl p.1))

turned-IsPlaced :
    (k : ChainState) (i : Bool)
    → i ≡ true
    → (placed (phase_behind k) WaitState.not_waiting i ≡ true)
      × (chain_placed (phase_behind k) k WaitState.not_waiting ≡ true)
turned-IsPlaced ChainState.not_chained i h = (h, refl)
turned-IsPlaced ChainState.single i h = (h, refl)
turned-IsPlaced ChainState.msgrcv_retry i h = (h, refl)
turned-IsPlaced ChainState.shmat_socket i h = (h, refl)
turned-IsPlaced ChainState.shmat_connect i h = (h, refl)
turned-IsPlaced ChainState.shmat_recvmsg i h = (h, refl)
turned-IsPlaced ChainState.shmat_mmap i h = (h, refl)

-- A turn of shmat leaves the wait as it is.
pub shmat_turn-waits :
    (answers : Option Answers) (c : Config) (h : Handled)
    → shmat_turn answers c ≡ some h
    → (h.config.wait_state ≡ c.wait_state) × (h.config.wait_reason ≡ c.wait_reason)
shmat_turn-waits none c h e = absurd (cc)
shmat_turn-waits (some a) c h e = subst (λ o. Waits o) e (refl, refl)
  where
    Waits : Option Handled → Type 0
    Waits none = Unit {0}
    Waits (some d) = (d.config.wait_state ≡ c.wait_state) × (d.config.wait_reason ≡ c.wait_reason)

at_rest_socket :
    (w : WaitState) → at_rest ChainState.shmat_socket w ≡ true → w ≡ WaitState.not_waiting
at_rest_socket WaitState.not_waiting h = refl
at_rest_socket WaitState.restarted_into_ppoll h = absurd (cc)
at_rest_socket WaitState.restarted_into_ppoll_canceled h = absurd (cc)
at_rest_socket WaitState.entered_ppoll h = absurd (cc)
at_rest_socket WaitState.signaled_ppoll h = absurd (cc)
at_rest_socket WaitState.entered_getpid h = absurd (cc)

pub exit_in-IsPlaced :
    (retry : Config → Option (ℤ × Config)) (answers : Option Answers) (ppoll_status : ℤ)
    (c : Config) (k : ChainState) (h : Handled)
    → StaysIdle retry
    → IsPlaced Phase.inside c
    → c.chain_state ≡ k
    → exit_in retry answers ppoll_status c k ≡ some h
    → IsPlaced (phase_behind h.config.chain_state) h.config
exit_in-IsPlaced retry answers ppoll_status c ChainState.not_chained h s p k e =
    ended-behind retry ppoll_status c h s p e
exit_in-IsPlaced retry answers ppoll_status c ChainState.single h s p k e =
    ended-behind retry ppoll_status c h s p e
exit_in-IsPlaced retry answers ppoll_status c ChainState.msgrcv_retry h s p k e =
    ended-behind retry ppoll_status c h s p e
exit_in-IsPlaced retry answers ppoll_status c ChainState.shmat_connect h s p k e = absurd (cc)
exit_in-IsPlaced retry answers ppoll_status c ChainState.shmat_recvmsg h s p k e = absurd (cc)
exit_in-IsPlaced retry answers ppoll_status c ChainState.shmat_mmap h s p k e = absurd (cc)
exit_in-IsPlaced retry answers ppoll_status c ChainState.shmat_socket h s p k e =
    let none_yet : c.wait_state ≡ WaitState.not_waiting =
      at_rest_socket c.wait_state (sym (ap (λ x. at_rest x c.wait_state) k) ∙ p.1) in
    let idle : is_not_waiting c.wait_reason ≡ true =
      sym (ap (λ w. placed Phase.inside w (is_not_waiting c.wait_reason)) none_yet) ∙ p.0 in
    let waits = shmat_turn-waits answers c h e in
    let placed_now =
      turned-IsPlaced h.config.chain_state (is_not_waiting h.config.wait_reason)
        (ap is_not_waiting waits.1 ∙ idle) in
    let phase = phase_behind h.config.chain_state in
    let start : WaitState.not_waiting ≡ h.config.wait_state = sym none_yet ∙ sym waits.0 in
    (
      subst (λ w. placed phase w (is_not_waiting h.config.wait_reason) ≡ true) start placed_now.0,
      subst (λ w. chain_placed phase h.config.chain_state w ≡ true) start placed_now.1,
    )
