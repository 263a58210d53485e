-- ===== src/SysVIpc/Msg/Tests.antt =====
-- The theorems on message queues at concrete namespaces.
use xyzterm.Common.{ℕ, fail, eagain, ◌≡◌, refl, inl, List, [], ◌∷◌, none, some, true, false, arith}
use xyzterm.Common.Int.{ℤ, pos}
use xyzterm.SysVIpc.{MsgQueue, MsgQueueItem, WaitReason, WaitState, ChainState, Config, Ipc}
use xyzterm.SysVIpc.Ids.{lookup_ipc_object}
use xyzterm.SysVIpc.Wait.{wake_all}
use xyzterm.SysVIpc.Msg.{
  msg_match, msg_type, msg_text, WriteData, ReadMemory, msgsnd, msgget, empty_stats, wake_receiver,
}
use xyzterm.SysVIpc.Msg.Receive.{do_msgrcv, msgrcv, msgrcv_retry}
use xyzterm.SysVIpc.Msg.Receive.Retry.{IsOver, msgrcv_retry-IsOver}
use xyzterm.SysVIpc.Msg.Receive.Order.{receive_takes_first}
use xyzterm.SysVIpc.Msg.Receive.Counts.{Counts, do_msgrcv-Counts}
use xyzterm.SysVIpc.Msg.Receive.Keeps.{AllCount, msgget-AllCount, msgrcv-AllCount}
use xyzterm.SysVIpc.Msg.Ctl.{msgctl, queue_rmid, WriteStats}

abbrev message : ℤ → List ℕ → ℕ → MsgQueueItem
message t text n = record { mtype = t; mtext = text; mtext_length = n }

abbrev inbox : MsgQueue
inbox = record {
  slot = record { key = 5; generation = 0; valid = true };
  items = message (pos 1) (97 ∷ 98 ∷ []) 2 ∷ message (pos 2) (99 ∷ []) 1 ∷ [];
  stats = record empty_stats { msg_qnum = 2; msg_cbytes = 3 };
}

-- Tracee 20 asks for messages of type 2, of up to 16 bytes, at 0x4000.
abbrev reader : Config
reader = record {
  pid = 20;
  wait_reason = WaitReason.not_waiting;
  wait_state = WaitState.not_waiting;
  chain_state = ChainState.not_chained;
  status_after_wait = pos 0;
  waiting_object_index = 0;
  msgrcv_msgp = 0x4000;
  msgrcv_msgsz = 16;
  msgrcv_msgtyp = pos 2;
  msgrcv_msgflg = 0;
  semop_sops = [];
  sigstop_ignored = false;
}

abbrev world : Ipc
world = record { queues = inbox ∷ []; semaphores = []; tracees = reader ∷ [] }

abbrev writable : WriteData
writable address w = none

inbox-Counts : Counts inbox
inbox-Counts = record { number = refl; size = refl; short = (omega arith, (omega arith, tt)) }

receive_takes_first_example :
    let r = do_msgrcv writable 9 0 reader inbox in
    (r.status ≡ pos 1)
    × (r.writes ≡ (0x4000, msg_type (pos 2)) ∷ (0x4008, msg_text (99 ∷ [])) ∷ [])
    × (r.queue.items ≡ message (pos 1) (97 ∷ 98 ∷ []) 2 ∷ [])
    × (r.config ≡ reader)
receive_takes_first_example =
    receive_takes_first writable 9 0 reader inbox (message (pos 1) (97 ∷ 98 ∷ []) 2 ∷ [])
      (message (pos 2) (99 ∷ []) 1) [] 1
      (record { size_fits = refl; known = refl; not_copy = refl }) refl
      (unfold msg_match in refl, tt) (unfold msg_match in refl) refl refl refl

do_msgrcv-Counts_example : Counts (do_msgrcv writable 9 0 reader inbox).queue
do_msgrcv-Counts_example = do_msgrcv-Counts writable 9 0 reader inbox inbox-Counts

abbrev memory : ReadMemory
memory = record { read_long = λ a. inl (pos 2); read_bytes = λ a n. inl (120 ∷ []) }

abbrev sent : Ipc
sent = record world {
  queues =
      record inbox {
        items =
            message (pos 1) (97 ∷ 98 ∷ []) 2
            ∷ message (pos 2) (99 ∷ []) 1
            ∷ message (pos 2) (120 ∷ []) 1
            ∷ [];
        stats = record {
          msg_qbytes = 65536;
          msg_lspid = 20;
          msg_stime = 7;
          msg_lrpid = 0;
          msg_rtime = 0;
          msg_qnum = 3;
          msg_cbytes = 4;
        };
      }
      ∷ [];
}

msgsnd_sends : msgsnd memory 20 7 1 0x5000 1 world ≡ some (pos 0, sent)
unfolding msgsnd lookup_ipc_object wake_receiver
msgsnd_sends = refl

msgget-AllCount_example : AllCount (msgget 6 0x200 world).1.queues
msgget-AllCount_example = msgget-AllCount 6 0x200 world (inbox-Counts, tt)

msgrcv-AllCount_example : AllCount (msgrcv writable 9 1 0x4000 16 2 0 reader world).1.queues
msgrcv-AllCount_example = msgrcv-AllCount writable 9 1 0x4000 16 2 0 reader world (inbox-Counts, tt)

abbrev emptied : Ipc
emptied = record world {
  queues =
      record inbox { slot = record { key = 5; generation = 1; valid = false }; items = [] } ∷ [];
}

abbrev unread : WriteStats
unread address stats = none

msgctl_removes : msgctl unread 1 0 0 world ≡ some (pos 0, emptied)
unfolding msgctl queue_rmid lookup_ipc_object wake_all
msgctl_removes = refl

-- The reader, woken to try again.
abbrev woken : Config
woken = record reader { chain_state = ChainState.msgrcv_retry; status_after_wait = fail eagain }

msgrcv_retry-IsOver_example : IsOver (msgrcv_retry writable 9 woken world)
msgrcv_retry-IsOver_example = msgrcv_retry-IsOver writable 9 woken world refl
