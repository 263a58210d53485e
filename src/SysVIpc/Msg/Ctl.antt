-- ===== src/SysVIpc/Msg/Ctl.antt =====
-- sysvipc_msgctl of extension/sysvipc/sysvipc_msg.c.
use xyzterm.Common.{
  ℕ, ◌+◌, ◌%◌, ◌^◌, [], Option, none, some, Bool, false, ◌&&◌, ◌||◌, ◌==◌, if◌then◌else◌, set, fail,
  Errno, einval, eidrm,
}
use xyzterm.Common.Int.{ℤ, pos}
use xyzterm.SysVIpc.{MsgQueue, MsgStats, Config, Ipc}
use xyzterm.SysVIpc.Ids.{lookup_ipc_object}
use xyzterm.SysVIpc.Wait.{is_wait_queue_recv, wake_all}
use xyzterm.SysVIpc.Msg.{queue_slot}

-- write_data of the statistics to the tracee: `some` is the error that it gives.
abbrev pub WriteStats : Type 0
WriteStats = ℕ → MsgStats → Option Errno

abbrev write_status : Option Errno → ℤ
write_status none = pos 0
write_status (some e) = fail e

-- The queue after its removal: its generation moves on and its messages are freed.
abbrev pub removed_queue : MsgQueue → MsgQueue
removed_queue q = record q {
  slot = record q.slot { valid = false; generation = (q.slot.generation + 1) % 2 ^ 16 };
  items = [];
}

abbrev waits_for_queue : ℕ → Config → Bool
waits_for_queue index c = is_wait_queue_recv c.wait_reason && c.waiting_object_index == index

unfoldable pub queue_rmid : Ipc → ℕ → MsgQueue → Option (ℤ × Ipc)
queue_rmid ipc index q = elim (wake_all (waits_for_queue index) (fail eidrm) ipc.tracees) [
  | none ↦ none
  | some tracees ↦
      some
        (pos 0, record ipc { queues = set ipc.queues index (removed_queue q); tracees = tracees })
]

-- `cmd` is an `int`: IPC_RMID is 0 and IPC_STAT is 2, each also with SYSVIPC_IPC_64.
unfoldable pub msgctl : WriteStats → ℕ → ℕ → ℕ → Ipc → Option (ℤ × Ipc)
msgctl write id_word cmd_word buf ipc =
    let cmd = cmd_word % 2 ^ 32 in
    elim (lookup_ipc_object queue_slot ipc.queues id_word) [
      | none ↦ some (fail einval, ipc)
      | some (index, q) ↦
          if cmd == 0 || cmd == 0x100
          then queue_rmid ipc index q
          else if cmd == 2 || cmd == 0x102
          then some (write_status (write buf q.stats), ipc)
          else some (fail einval, ipc)
    ]
