-- ===== src/SysVIpc/Msg.antt =====
-- extension/sysvipc/sysvipc_msg.c: msgget(2), msgsnd(2), msgrcv(2). A call returns its status with
-- the namespace afterwards; `none` is a failed assertion. What a receiver is given is listed as the
-- writes to its memory.
pub mod Ctl
pub mod Receive
mod Tests
use xyzterm.Common.{
  ℕ, zero, suc, ◌+◌, ◌-◌, ◌*◌, ◌%◌, ◌^◌, ◌⊎◌, inl, inr, List, [], ◌∷◌, ◌++◌, Option, none, some,
  Bool, true, false, not, ◌&&◌, ◌||◌, ltb, leb, ◌==◌, if◌then◌else◌, length, get_elem?, set, take,
  fail, Errno, enoent, eexist, einval, eagain, e2big, enomsg, bit_and,
}
use xyzterm.Common.Int.{ℤ, pos, negsuc, to_int, is_negative}
use xyzterm.Regs.{add_word, sub_word}
use xyzterm.SysVIpc.{Slot, MsgQueue, MsgQueueItem, MsgStats, WaitReason, ChainState, Config, Ipc}
use xyzterm.SysVIpc.Ids.{
  has_flag, ipc_creat, ipc_excl, ipc_nowait, object_id, lookup_ipc_object, Search, find_slot,
}
use xyzterm.SysVIpc.Wait.{wake_tracee, is_wait_queue_recv, update_config, cons_config}

abbrev pub max_msg_size : ℕ
max_msg_size = 0xffff

abbrev pub msg_noerror : ℕ
msg_noerror = 0x1000

abbrev pub msg_except : ℕ
msg_except = 0x2000

abbrev pub msg_copy : ℕ
msg_copy = 0x4000

abbrev pub queue_slot : MsgQueue → Slot
queue_slot q = q.slot

abbrev pub empty_stats : MsgStats
empty_stats = record {
  msg_qbytes = 1024 * 64;
  msg_lspid = 0;
  msg_stime = 0;
  msg_lrpid = 0;
  msg_rtime = 0;
  msg_qnum = 0;
  msg_cbytes = 0;
}

-- A slot taken into use. Its generation stays.
abbrev pub fresh_queue : ℕ → ℕ → MsgQueue
fresh_queue queue_id generation = record {
  slot = record { key = queue_id % 2 ^ 32; generation = generation; valid = true };
  items = [];
  stats = empty_stats;
}

abbrev pub generation_at : List MsgQueue → ℕ → ℕ
generation_at queues i = elim (get_elem? queues i) [ none ↦ 0 | some q ↦ q.slot.generation ]

create_queue : List MsgQueue → ℕ → Option ℕ → ℤ × List MsgQueue
create_queue queues queue_id (some i) = (
  object_id i (generation_at queues i),
  set queues i (fresh_queue queue_id (generation_at queues i)),
)
create_queue queues queue_id none =
    (object_id (length queues) 0, queues ++ (fresh_queue queue_id 0 ∷ []))

pub msgget : ℕ → ℕ → Ipc → ℤ × Ipc
unfolding create_queue
msgget queue_id msgflg ipc =
    let s = find_slot queue_slot queue_id ipc.queues 0 none in
    if s.found
    then (
      if has_flag msgflg ipc_creat && has_flag msgflg ipc_excl
          then fail eexist
          else object_id s.index (generation_at ipc.queues s.index),
      ipc,
    )
    else if not (has_flag msgflg ipc_creat)
    then (fail enoent, ipc)
    else let (status, queues) = create_queue ipc.queues queue_id s.unused_slot in
      (status, record ipc { queues = queues })

-- A `long` passed as an `int`.
abbrev pub long_to_int : ℤ → ℤ
long_to_int (pos n) = to_int n
long_to_int (negsuc n) = to_int (2 ^ 64 - n - 1)

abbrev pub int_eq : ℤ → ℤ → Bool
int_eq (pos a) (pos b) = a == b
int_eq (negsuc a) (negsuc b) = a == b
int_eq a b = false

-- `receiver_filter < 0 && sender_type <= -receiver_filter`.
abbrev pub below_filter : ℤ → ℤ → Bool
below_filter (pos a) (negsuc f) = leb a (f + 1)
below_filter (negsuc a) (negsuc f) = true
below_filter a (pos f) = false

unfoldable pub msg_match : ℤ → ℤ → ℕ → Bool
msg_match sender_type receiver_filter receiver_flag =
    let matched =
      int_eq receiver_filter (pos 0)
      || int_eq sender_type receiver_filter
      || below_filter sender_type receiver_filter in
    if has_flag receiver_flag msg_except then not matched else matched

-- What is written to a receiver's memory: the type of the message, then its text.
pub data Written : Type 0 where
  msg_type : ℤ → Written
  msg_text : List ℕ → Written

-- write_data to a tracee at an address: `some` is the error that it gives.
abbrev pub WriteData : Type 0
WriteData = ℕ → Written → Option Errno

-- The status of sysvipc_msg_deliver, the statistics after it and the writes that were made.
pub record Delivery : Type 0 where
  pub status : ℤ
  pub stats : MsgStats
  pub writes : List (ℕ × Written)

-- How much of the text is to be written; `none` if it does not fit and must not be cut.
abbrev pub delivered_size : Config → MsgQueueItem → Option ℕ
delivered_size c msg =
    if ltb c.msgrcv_msgsz msg.mtext_length
    then (if has_flag c.msgrcv_msgflg msg_noerror then some c.msgrcv_msgsz else none)
    else some msg.mtext_length

deliver_text : WriteData → Config → MsgStats → MsgQueueItem → ℕ → ℕ → Option Errno → Delivery
deliver_text write c stats msg now msgsz (some e) = record {
  status = fail e;
  stats = stats;
  writes = (c.msgrcv_msgp, msg_type msg.mtype) ∷ [];
}
deliver_text write c stats msg now msgsz none = record {
  status = pos msgsz;
  stats = record stats { msg_lrpid = c.pid; msg_rtime = now };
  writes =
      (c.msgrcv_msgp, msg_type msg.mtype)
      ∷ (c.msgrcv_msgp + 8, msg_text (take msgsz msg.mtext))
      ∷ [];
}

deliver_sized : WriteData → Config → MsgStats → MsgQueueItem → ℕ → Option ℕ → Delivery
unfolding deliver_text
deliver_sized write c stats msg now none = record {
  status = fail e2big;
  stats = stats;
  writes = [];
}
deliver_sized write c stats msg now (some msgsz) = elim (write c.msgrcv_msgp (msg_type msg.mtype)) [
  | some e ↦ record { status = fail e; stats = stats; writes = [] }
  | none ↦
      deliver_text write c stats msg now msgsz
        (write (c.msgrcv_msgp + 8) (msg_text (take msgsz msg.mtext)))
]

pub msg_deliver : WriteData → Config → MsgStats → MsgQueueItem → ℕ → Delivery
unfolding deliver_sized
msg_deliver write c stats msg now = deliver_sized write c stats msg now (delivered_size c msg)

-- msgsnd wakes the first tracee that waits for such a message, to try again.
abbrev pub receives : ℕ → MsgQueueItem → Config → Bool
receives index item c =
    is_wait_queue_recv c.wait_reason
    && c.waiting_object_index == index
    && msg_match (long_to_int item.mtype) c.msgrcv_msgtyp c.msgrcv_msgflg

pub wake_receiver : ℕ → MsgQueueItem → List Config → Option (List Config)
wake_receiver index item [] = some []
wake_receiver index item (c ∷ cs) =
    let rest = wake_receiver index item cs in
    if receives index item c
    then elim (wake_tracee (record c { chain_state = ChainState.msgrcv_retry }) (fail eagain)) [
      | none ↦ none
      | some c' ↦ some (c' ∷ cs)
    ]
    else cons_config c rest

-- The queue with a message at its end, sent by `pid` at time `now`.
abbrev pub enqueue : ℕ → ℕ → MsgQueueItem → MsgQueue → MsgQueue
enqueue pid now item q = record q {
  items = q.items ++ (item ∷ []);
  stats = record q.stats {
    msg_lspid = pid;
    msg_stime = now;
    msg_qnum = add_word q.stats.msg_qnum 1;
    msg_cbytes = add_word q.stats.msg_cbytes item.mtext_length;
  };
}

abbrev pub less_than_one : ℤ → Bool
less_than_one (pos n) = n == 0
less_than_one (negsuc n) = true

send_item : ℕ → ℕ → ℕ → MsgQueue → MsgQueueItem → Ipc → Option (ℤ × Ipc)
send_item pid now index q item ipc = elim (wake_receiver index item ipc.tracees) [
  | none ↦ none
  | some tracees ↦ some (
    pos 0,
    record ipc { queues = set ipc.queues index (enqueue pid now item q); tracees = tracees },
  )
]

-- read_data on the tracee's memory: a `long` at an address, and a number of bytes at an address.
pub record ReadMemory : Type 0 where
  pub read_long : ℕ → ℤ ⊎ Errno
  pub read_bytes : ℕ → ℕ → List ℕ ⊎ Errno

pub msgsnd : ReadMemory → ℕ → ℕ → ℕ → ℕ → ℕ → Ipc → Option (ℤ × Ipc)
unfolding send_item
msgsnd mem pid now id_word msgp msgsz ipc = elim (lookup_ipc_object queue_slot ipc.queues id_word) [
  | none ↦ some (fail einval, ipc)
  | some (index, q) ↦
      if ltb max_msg_size msgsz then some (fail einval, ipc) else elim (mem.read_long msgp) [
        | inr e ↦ some (fail e, ipc)
        | inl mtype ↦
            if less_than_one mtype
            then some (fail einval, ipc)
            else elim (mem.read_bytes (msgp + 8) msgsz) [
              | inr e ↦ some (fail e, ipc)
              | inl mtext ↦
                  send_item pid now index q
                    (record { mtype = mtype; mtext = mtext; mtext_length = msgsz }) ipc
            ]
      ]
]
