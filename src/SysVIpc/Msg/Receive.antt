-- ===== src/SysVIpc/Msg/Receive.antt =====
-- sysvipc_do_msgrcv, sysvipc_msgrcv and sysvipc_msgrcv_retry of extension/sysvipc/sysvipc_msg.c.
pub mod Order
pub mod Counts
pub mod Keeps
pub mod Retry
use xyzterm.Common.{
  ℕ, zero, suc, ◌+◌, ◌-◌, ◌*◌, ◌%◌, ◌^◌, List, [], ◌∷◌, ◌++◌, Option, none, some, Bool, true, false,
  not, ◌&&◌, ◌||◌, ltb, leb, ◌==◌, if◌then◌else◌, length, get_elem?, set, fail, eintr, einval,
  eagain, enomsg, bit_and,
}
use xyzterm.Common.Int.{ℤ, pos, negsuc, to_int, is_negative}
use xyzterm.Regs.{add_word, sub_word}
use xyzterm.SysVIpc.{Slot, MsgQueue, MsgQueueItem, MsgStats, WaitReason, ChainState, Config, Ipc}
use xyzterm.SysVIpc.Ids.{has_flag, ipc_nowait, lookup_ipc_object}
use xyzterm.SysVIpc.Wait.{is_not_waiting}
use xyzterm.SysVIpc.Msg.{
  queue_slot, msg_match, long_to_int, msg_except, msg_copy, Written, WriteData, Delivery,
  msg_deliver, int_eq,
}

-- Where a candidate was found: the item, the items before it, and those after it.
pub record Found : Type 0 where
  pub before : List MsgQueueItem
  pub item : MsgQueueItem
  pub after : List MsgQueueItem

abbrev pub found_later : MsgQueueItem → Option Found → Option Found
found_later x none = none
found_later x (some f) = some (record f { before = x ∷ f.before })

-- The first item that satisfies the filter.
unfoldable pub find_match : ℤ → ℕ → List MsgQueueItem → Option Found
find_match typ flg [] = none
find_match typ flg (x ∷ xs) =
    let rest = find_match typ flg xs in
    if msg_match (long_to_int x.mtype) typ flg
    then some (record { before = []; item = x; after = xs })
    else found_later x rest

-- MSG_COPY: the item at an index, counted from `index`.
unfoldable pub find_index : ℕ → List MsgQueueItem → Option Found
find_index k [] = none
find_index zero (x ∷ xs) = some (record { before = []; item = x; after = xs })
find_index (suc k) (x ∷ xs) = found_later x (find_index k xs)

abbrev pub find_copy : ℤ → List MsgQueueItem → Option Found
find_copy (pos k) items = find_index k items
find_copy (negsuc k) items = none

-- The outcome of sysvipc_do_msgrcv: its status, the receiver's configuration, the queue, the writes.
pub record Receipt : Type 0 where
  pub status : ℤ
  pub config : Config
  pub queue : MsgQueue
  pub writes : List (ℕ × Written)

abbrev pub nothing_done : ℤ → Config → MsgQueue → Receipt
nothing_done status c q = record { status = status; config = c; queue = q; writes = [] }

abbrev waiting : ℕ → Config → MsgQueue → Receipt
waiting index c q =
    nothing_done (pos 0)
      (record c { wait_reason = WaitReason.wait_queue_recv; waiting_object_index = index }) q

-- The queue after a delivery: the statistics of the delivery, and without the item if it is taken.
abbrev pub taken_queue : MsgQueue → Found → Delivery → MsgQueue
taken_queue q f d = record q {
  items = f.before ++ f.after;
  stats = record d.stats {
    msg_qnum = sub_word d.stats.msg_qnum 1;
    msg_cbytes = sub_word d.stats.msg_cbytes f.item.mtext_length;
  };
}

receive_found : Bool → Config → MsgQueue → Found → Delivery → Receipt
receive_found copy c q f d = record {
  status = d.status;
  config = c;
  queue =
      if not (is_negative d.status) && not copy
      then taken_queue q f d
      else record q { stats = d.stats };
  writes = d.writes;
}

receive_from : WriteData → ℕ → ℕ → Config → MsgQueue → Bool → Option Found → Receipt
unfolding receive_found
receive_from write now index c q copy none =
    if has_flag c.msgrcv_msgflg ipc_nowait
    then nothing_done (fail enomsg) c q
    else waiting index c q
receive_from write now index c q copy (some f) =
    receive_found copy c q f (msg_deliver write c q.stats f.item now)

-- The flags that are allowed: IPC_NOWAIT, MSG_NOERROR, MSG_EXCEPT, MSG_COPY.
abbrev pub unknown_flags : ℕ → Bool
unknown_flags flg = not (flg - bit_and flg 0x7800 == 0)

pub do_msgrcv : WriteData → ℕ → ℕ → Config → MsgQueue → Receipt
unfolding receive_from
do_msgrcv write now index c q =
    let flg = c.msgrcv_msgflg in
    let copy = has_flag flg msg_copy in
    if is_negative (to_int c.msgrcv_msgsz)
    then nothing_done (fail einval) c q
    else if unknown_flags flg
    then nothing_done (fail einval) c q
    else if copy && (not (has_flag flg ipc_nowait) || has_flag flg msg_except)
    then nothing_done (fail einval) c q
    else receive_from write now index c q copy
        (if copy then find_copy c.msgrcv_msgtyp q.items else find_match c.msgrcv_msgtyp flg q.items)

-- The arguments of a msgrcv(2), kept for a later try. Type and flags are `int`s.
abbrev pub with_arguments : ℕ → ℕ → ℕ → ℕ → Config → Config
with_arguments msgp msgsz typ_word flg_word c = record c {
  msgrcv_msgp = msgp;
  msgrcv_msgsz = msgsz;
  msgrcv_msgtyp = to_int typ_word;
  msgrcv_msgflg = flg_word % 2 ^ 32;
}

-- A receipt, put back into the namespace.
abbrev pub received : Ipc → ℕ → Receipt → (ℤ × Config) × Ipc
received ipc index r = ((r.status, r.config), record ipc { queues = set ipc.queues index r.queue })

-- `c` is the caller's configuration, which is returned beside the status.
pub msgrcv : WriteData → ℕ → ℕ → ℕ → ℕ → ℕ → ℕ → Config → Ipc → (ℤ × Config) × Ipc
msgrcv write now id_word msgp msgsz typ_word flg_word c ipc =
    elim (lookup_ipc_object queue_slot ipc.queues id_word) [
      | none ↦ ((fail einval, c), ipc)
      | some (index, q) ↦
          received ipc index
            (do_msgrcv write now index (with_arguments msgp msgsz typ_word flg_word c) q)
    ]

abbrev pub is_retry : ChainState → Bool
is_retry ChainState.msgrcv_retry = true
is_retry s = false

-- A second try never waits: it counts as interrupted.
abbrev pub interrupted : Receipt → Receipt
interrupted r = if is_not_waiting r.config.wait_reason then r else record r {
  status = fail eintr;
  config = record r.config { wait_reason = WaitReason.not_waiting };
}

abbrev pub retried : Receipt → Receipt
retried r = record r { config = record r.config { chain_state = ChainState.not_chained } }

pub retry_at : WriteData → ℕ → Config → Ipc → Option MsgQueue → Option ((ℤ × Config) × Ipc)
retry_at write now c ipc none = none
retry_at write now c ipc (some q) =
    if not q.slot.valid
    then none
    else some (
        received ipc c.waiting_object_index
          (retried (interrupted (do_msgrcv write now c.waiting_object_index c q))))

-- `none` is a failed assertion.
pub msgrcv_retry : WriteData → ℕ → Config → Ipc → Option ((ℤ × Config) × Ipc)
unfolding retry_at
msgrcv_retry write now c ipc =
    if not (is_retry c.chain_state)
    then none
    else if int_eq c.status_after_wait (fail eagain)
    then retry_at write now c ipc (get_elem? ipc.queues c.waiting_object_index)
    else some ((c.status_after_wait, record c { chain_state = ChainState.not_chained }), ipc)
