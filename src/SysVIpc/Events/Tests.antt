-- ===== src/SysVIpc/Events/Tests.antt =====
-- The properties of the wait states at a tracee that waits for a semaphore.
use xyzterm.Common.{◌≡◌, refl, ap, sym, ◌∙◌, ◌⊎◌, [], Option, some, none, true, false}
use xyzterm.Common.Int.{ℤ, pos, negsuc}
use xyzterm.SysVIpc.{Config, WaitReason, WaitState, ChainState}
use xyzterm.SysVIpc.Wait.{StaysIdle, is_not_waiting, wake_tracee}
use xyzterm.SysVIpc.Shm.Attach.{Answers}
use xyzterm.SysVIpc.Events.{
  Redirect, Handled, finish_syscall, blocked, enter_start, exit_start, chained_exit,
}
use xyzterm.SysVIpc.Events.Placed.{Phase, IsPlaced}
use xyzterm.SysVIpc.Events.Steps.{Step, Steps}
use xyzterm.SysVIpc.Events.Invariant.{Steps-IsPlaced, wake_tracee-status}

abbrev config : WaitReason → WaitState → Config
config r w = record {
  pid = 1;
  wait_reason = r;
  wait_state = w;
  chain_state = ChainState.not_chained;
  status_after_wait = pos 0;
  waiting_object_index = 0;
  msgrcv_msgp = 0;
  msgrcv_msgsz = 0;
  msgrcv_msgtyp = pos 0;
  msgrcv_msgflg = 0;
  semop_sops = [];
  sigstop_ignored = false;
}

abbrev no_retry : Config → Option (ℤ × Config)
no_retry c = some (pos 0, record c { chain_state = ChainState.not_chained })

no_retry-StaysIdle : StaysIdle no_retry
no_retry-StaysIdle c r h e =
    let same : (pos 0, record c { chain_state = ChainState.not_chained }) ≡ r = cc in
    (
      ap (λ x. is_not_waiting (x.1).wait_reason) (sym same) ∙ h,
      ap (λ x. (x.1).chain_state) (sym same),
    )

abbrev idle : Config
idle = config WaitReason.not_waiting WaitState.not_waiting

abbrev waiting : Config
waiting = config WaitReason.wait_semop WaitState.entered_ppoll

-- A semop that blocks.
blocks : Steps no_retry Phase.outside idle Phase.inside waiting
unfolding finish_syscall
blocks =
    Steps.then Phase.outside idle Phase.inside waiting Phase.inside waiting
      (Step.calls idle (config WaitReason.wait_semop WaitState.not_waiting) 0 (pos 0)
        (blocked false 0 (config WaitReason.wait_semop WaitState.not_waiting)) refl (refl, refl)
        refl)
      (Steps.done Phase.inside waiting)

-- A shmat that has its socket and is about to end its connect.
abbrev attaching : ChainState → Config
attaching k = record idle { chain_state = k }

abbrev answers : Answers
answers = record {
  result = pos 0;
  guest_addr = 4096;
  is_written = true;
  has_pointers = true;
  is_distributed = true;
  is_rights = true;
  read_fd = some 5;
  addr = 8192;
  size = 4096;
}

-- A tracee in ppoll(2) that is woken for its shmat leaves its wait state at the end of ppoll, and the
-- chain starts after it.
shmat_woken :
    chained_exit (some answers) (record (config WaitReason.not_waiting WaitState.signaled_ppoll) {
      chain_state = ChainState.shmat_socket;
    })
    ≡ some (attaching ChainState.shmat_socket)
unfolding chained_exit
shmat_woken = refl

Steps-IsPlaced_example : IsPlaced Phase.inside waiting
Steps-IsPlaced_example =
    Steps-IsPlaced no_retry Phase.outside idle Phase.inside waiting no_retry-StaysIdle (refl, refl)
      blocks

abbrev woken : Config
woken = record (config WaitReason.not_waiting WaitState.signaled_ppoll) {
  status_after_wait = pos 7;
  sigstop_ignored = true;
}

is_woken : wake_tracee waiting (pos 7) ≡ some woken
unfolding wake_tracee
is_woken = refl

wake_tracee-status_example :
    ((WaitState.entered_ppoll ≡ WaitState.entered_ppoll)
      × (h : Handled) × (exit_start no_retry none (negsuc 3) woken ≡ some h)
      × (h.result ≡ some (pos 7))
      × (h.redirect ≡ Redirect.unchanged)
      × (h.config.wait_state ≡ WaitState.not_waiting))
    ⊎ ((WaitState.entered_ppoll ≡ WaitState.restarted_into_ppoll)
        × (h : Handled) × (enter_start no_retry (λ d. none) woken ≡ some h)
        × (h.result ≡ some (pos 7))
        × (h.redirect ≡ Redirect.to_void)
        × (h.config.wait_state ≡ WaitState.not_waiting))
wake_tracee-status_example =
    wake_tracee-status no_retry none waiting woken (pos 7) (negsuc 3) refl refl is_woken
