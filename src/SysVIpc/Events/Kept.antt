-- ===== src/SysVIpc/Events/Kept.antt =====
-- What each event of a tracee in extension/sysvipc/sysvipc.c keeps of its phase: waking, chained calls and
-- the end of a chain.
use xyzterm.Common.{
  ◌≡◌, refl, ap, subst, ◌∙◌, inl, inr, Option, none, some, Bool, true, false, if◌then◌else◌, arith,
  if_both, Bool-cases,
}
use xyzterm.Common.Int.{ℤ, pos}
use xyzterm.SysVIpc.{Config, WaitReason, WaitState, ChainState}
use xyzterm.SysVIpc.Wait.{is_not_waiting, wakeable, woken_state, is_entered_ppoll, wake_tracee}
use xyzterm.SysVIpc.Events.{with_wait_state}
use xyzterm.SysVIpc.Events.Placed.{Phase, placed, IsPlaced}
use xyzterm.SysVIpc.Shm.Attach.{Answers}
use xyzterm.SysVIpc.Events.{is_shmat, shmat_turn, chained_from, config_of, chained_to}
use xyzterm.SysVIpc.Events.Placed.{WaitIsPlaced, at_rest, chain_placed}
use xyzterm.SysVIpc.Events.Rest.{at_rest_waiting}
use xyzterm.SysVIpc.Events.Steps.{with_chain}

woken_by : ℤ → Config → Config
woken_by status c = record c {
  wait_reason = WaitReason.not_waiting;
  status_after_wait = status;
  wait_state = woken_state c.wait_state;
  sigstop_ignored = if is_entered_ppoll c.wait_state then true else c.sigstop_ignored;
}

-- What waking asks for and leaves.
wake_tracee-woken :
    (c c' : Config) (status : ℤ)
    → wake_tracee c status ≡ some c'
    → (wakeable c.wait_reason c.wait_state ≡ true) × (woken_by status c ≡ c')
unfolding wake_tracee woken_by
wake_tracee-woken c c' status e = elim (Bool-cases (wakeable c.wait_reason c.wait_state)) [
  | inl y ↦
      let f : wake_tracee c status ≡ some (woken_by status c) = rw (y, wake_tracee) refl in (y, cc)
  | inr n ↦ let f : wake_tracee c status ≡ none = rw (n, wake_tracee) refl in absurd (cc)
]

wakeable-at_rest :
    (r : WaitReason) (w : WaitState)
    → wakeable r w ≡ true
    → at_rest ChainState.shmat_socket w ≡ false
wakeable-at_rest r WaitState.entered_ppoll h = refl
wakeable-at_rest r WaitState.restarted_into_ppoll h = refl
wakeable-at_rest r WaitState.not_waiting h = ground arith
wakeable-at_rest r WaitState.restarted_into_ppoll_canceled h = ground arith
wakeable-at_rest r WaitState.signaled_ppoll h = ground arith
wakeable-at_rest r WaitState.entered_getpid h = ground arith

chain_woken :
    (phase : Phase) (k : ChainState) (r : WaitReason) (w : WaitState)
    → wakeable r w ≡ true
    → chain_placed phase k w ≡ true
    → chain_placed phase k (woken_state w) ≡ true
chain_woken Phase.outside k r w y h = at_rest_waiting k w (woken_state w) (wakeable-at_rest r w y) h
chain_woken Phase.inside k r w y h = at_rest_waiting k w (woken_state w) (wakeable-at_rest r w y) h
chain_woken Phase.between k r w y h = refl
chain_woken Phase.chained k r w y h = refl

pub wake-chain :
    (phase : Phase) (c c' : Config) (status : ℤ)
    → IsPlaced phase c
    → wake_tracee c status ≡ some c'
    → chain_placed phase c'.chain_state c'.wait_state ≡ true
unfolding woken_by
wake-chain phase c c' status p e =
    let w = wake_tracee-woken c c' status e in
    subst (λ d. chain_placed phase d.chain_state d.wait_state ≡ true) w.1
      (chain_woken phase c.chain_state c.wait_reason c.wait_state w.0 p.1)

pub retry_placed :
    (phase : Phase) (w : WaitState) → chain_placed phase ChainState.msgrcv_retry w ≡ true
retry_placed Phase.outside w = refl
retry_placed Phase.inside w = refl
retry_placed Phase.between w = refl
retry_placed Phase.chained w = refl

woken_chained :
    (phase : Phase) (r : WaitReason) (w : WaitState)
    → wakeable r w ≡ true
    → placed phase w (is_not_waiting r) ≡ true
    → (placed (with_chain phase) (woken_state w) true ≡ true)
      × (chain_placed (with_chain phase) ChainState.shmat_socket (woken_state w) ≡ true)
woken_chained Phase.outside r w y h = (ground arith, refl)
woken_chained Phase.inside r w y h = (ground arith, refl)
woken_chained Phase.between r w y h = (ground arith, refl)
woken_chained Phase.chained r w y h = (ground arith, refl)

pub wake-shmat :
    (phase : Phase) (c c' : Config)
    → IsPlaced phase c
    → wake_tracee c (pos 0) ≡ some c'
    → IsPlaced (with_chain phase) (record c' { chain_state = ChainState.shmat_socket })
unfolding woken_by
wake-shmat phase c c' p e =
    let w = wake_tracee-woken c c' (pos 0) e in
    subst (λ d. IsPlaced (with_chain phase) (record d { chain_state = ChainState.shmat_socket }))
      w.1 (woken_chained phase c.wait_reason c.wait_state w.0 p.0)

pub chained_from-IsPlaced :
    (c : Config) (w : WaitState) (c' : Config)
    → c.wait_state ≡ w
    → placed Phase.between w (is_not_waiting c.wait_reason) ≡ true
    → chained_from c w ≡ some c'
    → IsPlaced Phase.chained c'
chained_from-IsPlaced c WaitState.not_waiting c' w p e =
    let same : c ≡ c' = cc in
    subst (IsPlaced Phase.chained) same
      (ap (λ s. placed Phase.chained s (is_not_waiting c.wait_reason)) w ∙ p, refl)
chained_from-IsPlaced c WaitState.restarted_into_ppoll_canceled c' w p e =
    let same : with_wait_state WaitState.signaled_ppoll c ≡ c' = cc in
    subst (IsPlaced Phase.chained) same (p, refl)
chained_from-IsPlaced c WaitState.restarted_into_ppoll c' w p e = absurd (cc)
chained_from-IsPlaced c WaitState.entered_ppoll c' w p e = absurd (cc)
chained_from-IsPlaced c WaitState.signaled_ppoll c' w p e = absurd (cc)
chained_from-IsPlaced c WaitState.entered_getpid c' w p e = absurd (cc)

-- What a function gives on a configuration, if its assertions hold, is placed between two calls.
abbrev pub AreBetween : Option Config → Type 0
AreBetween none = Unit {0}
AreBetween (some c) = IsPlaced Phase.between c

turn-AreBetween :
    (answers : Option Answers) (c : Config)
    → WaitIsPlaced Phase.between c
    → AreBetween (config_of (shmat_turn answers c))
turn-AreBetween none c p = tt
turn-AreBetween (some a) c p = (p, refl)

pub chained_to-AreBetween :
    (answers : Option Answers) (c : Config) (w : WaitState)
    → c.wait_state ≡ w
    → placed Phase.chained w (is_not_waiting c.wait_reason) ≡ true
    → AreBetween (chained_to answers c w)
chained_to-AreBetween answers c WaitState.not_waiting w p =
    let here : WaitIsPlaced Phase.between c =
      ap (λ s. placed Phase.between s (is_not_waiting c.wait_reason)) w ∙ p in
    if_both AreBetween (is_shmat c.chain_state) (λ e. turn-AreBetween answers c here)
      (λ e. (here, refl))
chained_to-AreBetween answers c WaitState.signaled_ppoll w p = (p, refl)
chained_to-AreBetween answers c WaitState.restarted_into_ppoll w p = tt
chained_to-AreBetween answers c WaitState.restarted_into_ppoll_canceled w p = tt
chained_to-AreBetween answers c WaitState.entered_ppoll w p = tt
chained_to-AreBetween answers c WaitState.entered_getpid w p = tt

-- Where no chain of shmat goes on, a tracee at the end of its chain is like any other.
pub unchained_at_rest : (k : ChainState) (w : WaitState) → is_shmat k ≡ false → at_rest k w ≡ true
unchained_at_rest ChainState.not_chained w h = refl
unchained_at_rest ChainState.single w h = refl
unchained_at_rest ChainState.msgrcv_retry w h = refl
unchained_at_rest ChainState.shmat_socket w h = absurd (cc)
unchained_at_rest ChainState.shmat_connect w h = absurd (cc)
unchained_at_rest ChainState.shmat_recvmsg w h = absurd (cc)
unchained_at_rest ChainState.shmat_mmap w h = absurd (cc)

pub unchained_placed :
    (w : WaitState) (i : Bool) → placed Phase.between w i ≡ true → placed Phase.outside w i ≡ true
unchained_placed WaitState.not_waiting i h = h
unchained_placed WaitState.restarted_into_ppoll_canceled i h = h
unchained_placed WaitState.restarted_into_ppoll i h = absurd (cc)
unchained_placed WaitState.entered_ppoll i h = absurd (cc)
unchained_placed WaitState.signaled_ppoll i h = absurd (cc)
unchained_placed WaitState.entered_getpid i h = absurd (cc)
