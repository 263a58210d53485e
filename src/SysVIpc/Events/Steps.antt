-- ===== src/SysVIpc/Events/Steps.antt =====
-- The events of a tracee in extension/sysvipc/sysvipc.c as steps, along any interleaving with wake-ups by
-- other tracees.
use xyzterm.Common.{ℕ, ◌≡◌, Option, none, some, true, false}
use xyzterm.Common.Int.{ℤ, pos}
use xyzterm.SysVIpc.{Config, WaitState, ChainState}
use xyzterm.SysVIpc.Wait.{wake_tracee}
use xyzterm.SysVIpc.Events.{Handled, finish_syscall, enter_start, exit_start}
use xyzterm.SysVIpc.Events.Placed.{Phase, IsLeft}
use xyzterm.SysVIpc.Shm.Attach.{Answers}
use xyzterm.SysVIpc.Events.{is_shmat, chained_enter, chained_exit}
use xyzterm.SysVIpc.Events.Turn.{phase_behind}

-- The phase of a tracee when a chain has been registered for it.
abbrev pub with_chain : Phase → Phase
with_chain Phase.outside = Phase.between
with_chain Phase.inside = Phase.chained
with_chain Phase.between = Phase.between
with_chain Phase.chained = Phase.chained

-- The events of a tracee: a call of another kind, a System V call and a SIGSYS for one, the start of a
-- call that was restarted, the end of a call, the start and the end of a chained call and the end of the
-- chain, and a wake-up by another tracee: a plain one, one for a second try of msgrcv, and one for shmat,
-- which registers a chain.
pub data Step (retry : Config → Option (ℤ × Config))
    : Phase → Config → Phase → Config → Type 0 where
  passes :
      (c : Config)
      → c.wait_state ≡ WaitState.not_waiting
      → Step retry Phase.outside c Phase.inside c
  calls :
      (c left : Config) (timeout : ℕ) (status : ℤ) (h : Handled)
      → c.wait_state ≡ WaitState.not_waiting
      → IsLeft left
      → finish_syscall false timeout status left ≡ some h
      → Step retry Phase.outside c Phase.inside h.config
  sigsys :
      (c left : Config) (timeout : ℕ) (status : ℤ) (h : Handled)
      → c.wait_state ≡ WaitState.not_waiting
      → IsLeft left
      → finish_syscall true timeout status left ≡ some h
      → Step retry Phase.outside c Phase.outside h.config
  restarts :
      (c : Config) (h : Handled)
      → enter_start retry (λ d. none) c ≡ some h
      → Step retry Phase.outside c Phase.inside h.config
  exits :
      (c : Config) (answers : Option Answers) (ppoll_status : ℤ) (h : Handled)
      → exit_start retry answers ppoll_status c ≡ some h
      → Step retry Phase.inside c (phase_behind h.config.chain_state) h.config
  chained_enters :
      (c c' : Config) → chained_enter c ≡ some c' → Step retry Phase.between c Phase.chained c'
  chained_exits :
      (c : Config) (answers : Option Answers) (c' : Config)
      → chained_exit answers c ≡ some c'
      → Step retry Phase.chained c Phase.between c'
  unchained :
      (c : Config) → is_shmat c.chain_state ≡ false → Step retry Phase.between c Phase.outside c
  wakes :
      (phase : Phase) (c c' : Config) (status : ℤ)
      → wake_tracee c status ≡ some c'
      → Step retry phase c phase c'
  wakes_msgrcv :
      (phase : Phase) (c c' : Config) (status : ℤ)
      → wake_tracee c status ≡ some c'
      → Step retry phase c phase (record c' { chain_state = ChainState.msgrcv_retry })
  wakes_shmat :
      (phase : Phase) (c c' : Config)
      → wake_tracee c (pos 0) ≡ some c'
      → Step retry phase c (with_chain phase) (record c' { chain_state = ChainState.shmat_socket })

-- Any number of events.
pub data Steps (retry : Config → Option (ℤ × Config))
    : Phase → Config → Phase → Config → Type 0 where
  done : (phase : Phase) (c : Config) → Steps retry phase c phase c
  then :
      (phase : Phase) (c : Config) (phase' : Phase) (c' : Config) (phase'' : Phase) (c'' : Config)
      → Step retry phase c phase' c'
      → Steps retry phase' c' phase'' c''
      → Steps retry phase c phase'' c''
