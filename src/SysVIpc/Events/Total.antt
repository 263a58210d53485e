-- ===== src/SysVIpc/Events/Total.antt =====
-- The events of a tracee in extension/sysvipc/sysvipc.c fail no assertion in the states of their phases.
use xyzterm.Common.{◌≡◌, refl, ap, inl, inr, Option, some, true, false, arith, Bool-cases}
use xyzterm.Common.Int.{ℤ, pos}
use xyzterm.SysVIpc.{Config, WaitState, ChainState}
use xyzterm.SysVIpc.Wait.{is_not_waiting}
use xyzterm.SysVIpc.Events.{
  Redirect, Handled, with_wait_state, started, ended, status_of_wait, status_in, delivered,
  timed_out, status_of_ppoll, passed,
}
use xyzterm.SysVIpc.Events.Placed.{Phase, placed, IsPlaced}
use xyzterm.SysVIpc.Shm.Attach.{Answers, chain_link, next_state}
use xyzterm.SysVIpc.Events.{is_shmat, shmat_turn, chained_from, config_of, chained_to}
use xyzterm.SysVIpc.Events.Placed.{at_rest}
use xyzterm.SysVIpc.Events.{exit_in}

status_total :
    (retry : Config → Option (ℤ × Config)) (c : Config) (k : ChainState)
    → (k ≡ ChainState.msgrcv_retry → (r : ℤ × Config) × (retry c ≡ some r))
    → (r : ℤ × Config) × (status_in retry c k ≡ some r)
status_total retry c ChainState.msgrcv_retry t = t refl
status_total retry c ChainState.not_chained t = ((c.status_after_wait, c), refl)
status_total retry c ChainState.single t = ((c.status_after_wait, c), refl)
status_total retry c ChainState.shmat_socket t = ((c.status_after_wait, c), refl)
status_total retry c ChainState.shmat_connect t = ((c.status_after_wait, c), refl)
status_total retry c ChainState.shmat_recvmsg t = ((c.status_after_wait, c), refl)
status_total retry c ChainState.shmat_mmap t = ((c.status_after_wait, c), refl)

delivered_total :
    (redirect : Redirect) (retry : Config → Option (ℤ × Config)) (c : Config)
    → (c.chain_state ≡ ChainState.msgrcv_retry → (r : ℤ × Config) × (retry c ≡ some r))
    → (h : Handled) × (delivered redirect (status_of_wait retry c) ≡ some h)
delivered_total redirect retry c t =
    let r = status_total retry c c.chain_state t in
    (
      record {
        config = with_wait_state WaitState.not_waiting (r.0).1;
        status = pos 1;
        result = some (r.0).0;
        redirect = redirect;
        restarted = false;
      },
      ap (delivered redirect) r.1,
    )

ended_total :
    (retry : Config → Option (ℤ × Config)) (ppoll_status : ℤ) (c : Config) (w : WaitState)
    → (c.chain_state ≡ ChainState.msgrcv_retry → (r : ℤ × Config) × (retry c ≡ some r))
    → placed Phase.inside w (is_not_waiting c.wait_reason) ≡ true
    → (h : Handled) × (ended retry ppoll_status c w ≡ some h)
ended_total retry ppoll_status c WaitState.not_waiting t h = (passed (pos 0) c, refl)
ended_total retry ppoll_status c WaitState.entered_ppoll t h =
    let n : is_not_waiting c.wait_reason ≡ false = ground arith in
    (passed (status_of_ppoll ppoll_status) (timed_out c), rw (n, ended) refl)
ended_total retry ppoll_status c WaitState.signaled_ppoll t h =
    let d = delivered_total Redirect.unchanged retry c t in (d.0, rw (h, ended) d.1)
ended_total retry ppoll_status c WaitState.entered_getpid t h =
    let d = delivered_total Redirect.unchanged retry c t in (d.0, rw (h, ended) d.1)
ended_total retry ppoll_status c WaitState.restarted_into_ppoll t h = absurd (cc)
ended_total retry ppoll_status c WaitState.restarted_into_ppoll_canceled t h = absurd (cc)

pub exit_total :
    (retry : Config → Option (ℤ × Config)) (answers : Option Answers) (ppoll_status : ℤ)
    (c : Config) (k : ChainState)
    → c.chain_state ≡ k
    → (c.chain_state ≡ ChainState.msgrcv_retry → (r : ℤ × Config) × (retry c ≡ some r))
    → (is_shmat c.chain_state ≡ true → (a : Answers) × (answers ≡ some a))
    → IsPlaced Phase.inside c
    → (h : Handled) × (exit_in retry answers ppoll_status c k ≡ some h)
exit_total retry answers ppoll_status c ChainState.not_chained e t g p =
    ended_total retry ppoll_status c c.wait_state t p.0
exit_total retry answers ppoll_status c ChainState.single e t g p =
    ended_total retry ppoll_status c c.wait_state t p.0
exit_total retry answers ppoll_status c ChainState.msgrcv_retry e t g p =
    ended_total retry ppoll_status c c.wait_state t p.0
exit_total retry answers ppoll_status c ChainState.shmat_socket e t g p =
    let a = g (ap is_shmat e) in (_, ap (λ o. shmat_turn o c) a.1)
exit_total retry answers ppoll_status c ChainState.shmat_connect e t g p =
    let f = ap (λ k. at_rest k c.wait_state) e in absurd (let q = p.1 in cc)
exit_total retry answers ppoll_status c ChainState.shmat_recvmsg e t g p =
    let f = ap (λ k. at_rest k c.wait_state) e in absurd (let q = p.1 in cc)
exit_total retry answers ppoll_status c ChainState.shmat_mmap e t g p =
    let f = ap (λ k. at_rest k c.wait_state) e in absurd (let q = p.1 in cc)

pub started_total :
    (retry : Config → Option (ℤ × Config)) (c : Config) (w : WaitState)
    → (c.chain_state ≡ ChainState.msgrcv_retry → (r : ℤ × Config) × (retry c ≡ some r))
    → placed Phase.outside w (is_not_waiting c.wait_reason) ≡ true
    → (h : Handled) × (started retry (λ d. some (passed (pos 0) d)) c w ≡ some h)
started_total retry c WaitState.not_waiting t p = (_, refl)
started_total retry c WaitState.restarted_into_ppoll t p = (_, refl)
started_total retry c WaitState.restarted_into_ppoll_canceled t p =
    delivered_total Redirect.to_void retry c t
started_total retry c WaitState.entered_ppoll t p = absurd (cc)
started_total retry c WaitState.signaled_ppoll t p = absurd (cc)
started_total retry c WaitState.entered_getpid t p = absurd (cc)

pub chained_from_total :
    (c : Config) (w : WaitState)
    → placed Phase.between w (is_not_waiting c.wait_reason) ≡ true
    → (c' : Config) × (chained_from c w ≡ some c')
chained_from_total c WaitState.not_waiting p = (_, refl)
chained_from_total c WaitState.restarted_into_ppoll_canceled p = (_, refl)
chained_from_total c WaitState.restarted_into_ppoll p = absurd (cc)
chained_from_total c WaitState.entered_ppoll p = absurd (cc)
chained_from_total c WaitState.signaled_ppoll p = absurd (cc)
chained_from_total c WaitState.entered_getpid p = absurd (cc)

pub chained_to_total :
    (answers : Option Answers) (c : Config) (w : WaitState)
    → (is_shmat c.chain_state ≡ true → (a : Answers) × (answers ≡ some a))
    → placed Phase.chained w (is_not_waiting c.wait_reason) ≡ true
    → (c' : Config) × (chained_to answers c w ≡ some c')
chained_to_total answers c WaitState.not_waiting g p = elim (Bool-cases (is_shmat c.chain_state)) [
  | inl y ↦
      let a = g y in
      let next : Config = record c { chain_state = next_state (chain_link c.chain_state a.0) } in
      (next, rw (y, chained_to) (ap (λ o. config_of (shmat_turn o c)) a.1))
  | inr n ↦ (c, rw (n, chained_to) refl)
]
chained_to_total answers c WaitState.signaled_ppoll g p = (_, refl)
chained_to_total answers c WaitState.restarted_into_ppoll g p = absurd (cc)
chained_to_total answers c WaitState.restarted_into_ppoll_canceled g p = absurd (cc)
chained_to_total answers c WaitState.entered_ppoll g p = absurd (cc)
chained_to_total answers c WaitState.entered_getpid g p = absurd (cc)
