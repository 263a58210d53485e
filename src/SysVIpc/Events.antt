-- ===== src/SysVIpc/Events.antt =====
-- The wait states of extension/sysvipc/sysvipc.c: the end of sysvipc_syscall_common, and what
-- sysvipc_callback does at the start, the end and the restart of a system call, chained ones included.
-- A blocked call is a ppoll(2), and a call that is answered at once a getpid(2), whose result is
-- replaced.
pub mod Placed
pub mod Rest
pub mod Turn
pub mod Steps
pub mod Kept
pub mod Total
pub mod Invariant
mod Tests
use xyzterm.Common.{
  ℕ, Option, none, some, Bool, true, false, not, ◌||◌, if◌then◌else◌, fail, Errno, eintr, enomem,
  efault,
}
use xyzterm.Common.Int.{ℤ, pos, negsuc}
use xyzterm.SysVIpc.{Config, WaitReason, WaitState, ChainState}
use xyzterm.SysVIpc.Wait.{is_not_waiting, is_wait_semop}
use xyzterm.SysVIpc.Sem.{semop_timedout}
use xyzterm.SysVIpc.Msg.{int_eq}
use xyzterm.SysVIpc.Shm.Attach.{Answers, Link, chain_link, next_state}

-- What becomes of the system call that the tracee is about to make.
pub data Redirect : Type 0 where
  unchanged to_getpid to_void : Redirect
  to_ppoll : ℕ → Redirect

-- The configuration, the callback's status, the result that is poked, if any, the system call, and
-- whether it is restarted after a SIGSYS.
pub record Handled : Type 0 where
  pub config : Config
  pub status : ℤ
  pub result : Option ℤ
  pub redirect : Redirect
  pub restarted : Bool

abbrev pub with_wait_state : WaitState → Config → Config
with_wait_state w c = record c { wait_state = w }

-- The second case of the end: the call blocks, with the time limit of semtimedop.
abbrev pub blocked : Bool → ℕ → Config → Handled
blocked true timeout c = record {
  config = with_wait_state WaitState.restarted_into_ppoll c;
  status = pos 2;
  result = none;
  redirect = Redirect.to_ppoll timeout;
  restarted = true;
}
blocked false timeout c = record {
  config = with_wait_state WaitState.entered_ppoll c;
  status = pos 1;
  result = none;
  redirect = Redirect.to_ppoll timeout;
  restarted = false;
}

-- The third case: the call is over.
abbrev pub answered : Bool → ℤ → Config → Handled
answered true status c = record {
  config = c;
  status = pos 2;
  result = some status;
  redirect = Redirect.unchanged;
  restarted = false;
}
answered false status c = record {
  config = record c { status_after_wait = status; wait_state = WaitState.entered_getpid };
  status = pos 1;
  result = none;
  redirect = Redirect.to_getpid;
  restarted = false;
}

-- The first case: the call was replaced by a chain.
abbrev pub replaced : Bool → Config → Handled
replaced from_sigsys c = record {
  config = c;
  status = if from_sigsys then pos 2 else pos 1;
  result = none;
  redirect = Redirect.unchanged;
  restarted = from_sigsys;
}

-- The choice between the cases, by the chain state.
abbrev pub finished : Bool → ℕ → ℤ → Config → ChainState → Option Handled
finished from_sigsys timeout status c ChainState.not_chained =
    if is_not_waiting c.wait_reason
    then some (answered from_sigsys status c)
    else some (blocked from_sigsys timeout c)
finished from_sigsys timeout status c ChainState.single =
    some (replaced from_sigsys (record c { chain_state = ChainState.not_chained }))
finished from_sigsys timeout status c ChainState.shmat_socket = some (replaced from_sigsys c)
finished from_sigsys timeout status c ChainState.shmat_connect = none
finished from_sigsys timeout status c ChainState.shmat_recvmsg = none
finished from_sigsys timeout status c ChainState.shmat_mmap = none
finished from_sigsys timeout status c ChainState.msgrcv_retry = none

-- The end of sysvipc_syscall_common, after a handler has returned `status` and left `c`. `none` is a
-- failed assertion.
unfoldable pub finish_syscall : Bool → ℕ → ℤ → Config → Option Handled
finish_syscall from_sigsys timeout status c = finished from_sigsys timeout status c c.chain_state

-- The status of a call that has been waited for: that of its second try, if it is to be tried again.
-- `retry` is msgrcv_retry on the namespace.
abbrev pub status_in : (Config → Option (ℤ × Config)) → Config → ChainState → Option (ℤ × Config)
status_in retry c ChainState.msgrcv_retry = retry c
status_in retry c ChainState.not_chained = some (c.status_after_wait, c)
status_in retry c ChainState.single = some (c.status_after_wait, c)
status_in retry c ChainState.shmat_socket = some (c.status_after_wait, c)
status_in retry c ChainState.shmat_connect = some (c.status_after_wait, c)
status_in retry c ChainState.shmat_recvmsg = some (c.status_after_wait, c)
status_in retry c ChainState.shmat_mmap = some (c.status_after_wait, c)

abbrev pub status_of_wait : (Config → Option (ℤ × Config)) → Config → Option (ℤ × Config)
status_of_wait retry c = status_in retry c c.chain_state

abbrev pub delivered : Redirect → Option (ℤ × Config) → Option Handled
delivered redirect none = none
delivered redirect (some r) = some (record {
  config = with_wait_state WaitState.not_waiting r.1;
  status = pos 1;
  result = some r.0;
  redirect = redirect;
  restarted = false;
})

abbrev pub started :
    (Config → Option (ℤ × Config)) → (Config → Option Handled) → Config → WaitState → Option Handled
started retry run c WaitState.not_waiting = run c
started retry run c WaitState.restarted_into_ppoll = some (record {
  config = with_wait_state WaitState.entered_ppoll c;
  status = pos 1;
  result = none;
  redirect = Redirect.unchanged;
  restarted = false;
})
started retry run c WaitState.restarted_into_ppoll_canceled =
    delivered Redirect.to_void (status_of_wait retry c)
started retry run c WaitState.entered_ppoll = none
started retry run c WaitState.signaled_ppoll = none
started retry run c WaitState.entered_getpid = none

-- SYSCALL_ENTER_START; `run` is the handler of the system call with the end above, on a tracee that
-- does not wait. That a restarted call is ppoll is not checked.
unfoldable pub enter_start :
    (Config → Option (ℤ × Config)) → (Config → Option Handled) → Config → Option Handled
enter_start retry run c = started retry run c c.wait_state

-- A ppoll that ends by itself: by its time limit or by a signal.
abbrev pub timed_out : Config → Config
timed_out c =
    let c' = with_wait_state WaitState.not_waiting c in
    if is_wait_semop c.wait_reason
    then semop_timedout c'
    else record c' { wait_reason = WaitReason.not_waiting }

abbrev pub status_of_ppoll : ℤ → ℤ
status_of_ppoll ppoll_status =
    if int_eq ppoll_status (fail efault) || int_eq ppoll_status (fail eintr)
    then pos 1
    else fail eintr

abbrev pub passed : ℤ → Config → Handled
passed status c = record {
  config = c;
  status = status;
  result = none;
  redirect = Redirect.unchanged;
  restarted = false;
}

abbrev pub ended : (Config → Option (ℤ × Config)) → ℤ → Config → WaitState → Option Handled
ended retry ppoll_status c WaitState.not_waiting = some (passed (pos 0) c)
ended retry ppoll_status c WaitState.entered_ppoll =
    if is_not_waiting c.wait_reason
    then none
    else some (passed (status_of_ppoll ppoll_status) (timed_out c))
ended retry ppoll_status c WaitState.signaled_ppoll =
    if is_not_waiting c.wait_reason
    then delivered Redirect.unchanged (status_of_wait retry c)
    else none
ended retry ppoll_status c WaitState.entered_getpid =
    if is_not_waiting c.wait_reason
    then delivered Redirect.unchanged (status_of_wait retry c)
    else none
ended retry ppoll_status c WaitState.restarted_into_ppoll = none
ended retry ppoll_status c WaitState.restarted_into_ppoll_canceled = none

-- What sysvipc_shmat_chain returns.
abbrev pub status_of_link : Link → ℤ
status_of_link (Link.goes_on k) = pos 1
status_of_link (Link.maps_at addr size) = pos 1
status_of_link (Link.fails true) = pos 1
status_of_link (Link.fails false) = fail enomem

-- sysvipc_shmat_chain on the configuration of its tracee, in a state of the chain. Without answers the
-- segment is not there, which fails an assertion.
abbrev pub shmat_turn : Option Answers → Config → Option Handled
shmat_turn none c = none
shmat_turn (some a) c =
    let l = chain_link c.chain_state a in
    some (passed (status_of_link l) (record c { chain_state = next_state l }))

abbrev pub exit_in :
    (Config → Option (ℤ × Config)) → Option Answers → ℤ → Config → ChainState → Option Handled
exit_in retry answers ppoll_status c ChainState.shmat_socket = shmat_turn answers c
exit_in retry answers ppoll_status c ChainState.shmat_connect = none
exit_in retry answers ppoll_status c ChainState.shmat_recvmsg = none
exit_in retry answers ppoll_status c ChainState.shmat_mmap = none
exit_in retry answers ppoll_status c ChainState.not_chained =
    ended retry ppoll_status c c.wait_state
exit_in retry answers ppoll_status c ChainState.single = ended retry ppoll_status c c.wait_state
exit_in retry answers ppoll_status c ChainState.msgrcv_retry =
    ended retry ppoll_status c c.wait_state

-- SYSCALL_EXIT_START; `answers` are what a chain of shmat reads.
unfoldable pub exit_start :
    (Config → Option (ℤ × Config)) → Option Answers → ℤ → Config → Option Handled
exit_start retry answers ppoll_status c = exit_in retry answers ppoll_status c c.chain_state

-- The states of a chain of shmat.
abbrev pub is_shmat : ChainState → Bool
is_shmat ChainState.shmat_socket = true
is_shmat ChainState.shmat_connect = true
is_shmat ChainState.shmat_recvmsg = true
is_shmat ChainState.shmat_mmap = true
is_shmat ChainState.not_chained = false
is_shmat ChainState.single = false
is_shmat ChainState.msgrcv_retry = false

abbrev pub chained_from : Config → WaitState → Option Config
chained_from c WaitState.not_waiting = some c
chained_from c WaitState.restarted_into_ppoll_canceled =
    some (with_wait_state WaitState.signaled_ppoll c)
chained_from c WaitState.restarted_into_ppoll = none
chained_from c WaitState.entered_ppoll = none
chained_from c WaitState.signaled_ppoll = none
chained_from c WaitState.entered_getpid = none

-- SYSCALL_CHAINED_ENTER; the time limit that is poked for a cancelled ppoll is left out.
unfoldable pub chained_enter : Config → Option Config
chained_enter c = chained_from c c.wait_state

abbrev pub config_of : Option Handled → Option Config
config_of none = none
config_of (some h) = some h.config

abbrev pub chained_to : Option Answers → Config → WaitState → Option Config
chained_to answers c WaitState.not_waiting =
    if is_shmat c.chain_state then config_of (shmat_turn answers c) else some c
chained_to answers c WaitState.signaled_ppoll = some (with_wait_state WaitState.not_waiting c)
chained_to answers c WaitState.restarted_into_ppoll = none
chained_to answers c WaitState.restarted_into_ppoll_canceled = none
chained_to answers c WaitState.entered_ppoll = none
chained_to answers c WaitState.entered_getpid = none

-- SYSCALL_CHAINED_EXIT.
unfoldable pub chained_exit : Option Answers → Config → Option Config
chained_exit answers c = chained_to answers c c.wait_state
