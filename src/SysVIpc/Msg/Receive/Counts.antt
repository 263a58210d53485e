-- ===== src/SysVIpc/Msg/Receive/Counts.antt =====
-- The statistics of a message queue: they count its messages and their bytes, up to the range of an
-- `unsigned long`, whatever is sent and received.
use xyzterm.Common.{
  ℕ, zero, suc, ◌+◌, ◌%◌, ◌≤◌, ◌≡◌, ap, inl, inr, List, [], ◌∷◌, ◌++◌, Option, some, arith,
  if◌then◌else◌, length, take, length-append, Option-cases, Bool-cases,
}
use xyzterm.Common.Int.{ℤ, pos, negsuc}
use xyzterm.Regs.{word_mod}
use xyzterm.SysVIpc.{MsgQueue, MsgQueueItem, MsgStats, Config}
use xyzterm.SysVIpc.Ids.{has_flag}
use xyzterm.SysVIpc.Msg.{msg_copy, WriteData, msg_deliver, Delivery, enqueue, max_msg_size}
use xyzterm.SysVIpc.Msg.Receive.{
  Found, find_match, find_index, find_copy, do_msgrcv, receive_from, taken_queue,
}
use xyzterm.SysVIpc.Msg.Receive.Order.{find_match_first}

abbrev pub bytes : List MsgQueueItem → ℕ
bytes [] = 0
bytes (x ∷ xs) = x.mtext_length + bytes xs

bytes-append : (xs ys : List MsgQueueItem) → bytes (xs ++ ys) ≡ bytes xs + bytes ys
bytes-append [] ys = omega arith
bytes-append (x ∷ xs) ys = omega (arith, bytes-append xs ys)

-- No message is larger than msgsnd lets through.
abbrev pub Short : List MsgQueueItem → Type 0
Short [] = Unit {0}
Short (x ∷ xs) = (x.mtext_length ≤ max_msg_size) × Short xs

Short-append : (xs ys : List MsgQueueItem) → Short xs → Short ys → Short (xs ++ ys)
Short-append [] ys s t = t
Short-append (x ∷ xs) ys s t = (s.0, Short-append xs ys s.1 t)

Short-split : (xs ys : List MsgQueueItem) → Short (xs ++ ys) → Short xs × Short ys
Short-split [] ys s = (tt, s)
Short-split (x ∷ xs) ys s = let r = Short-split xs ys s.1 in ((s.0, r.0), r.1)

pub record Counts (q : MsgQueue) : Type 0 where
  pub number : q.stats.msg_qnum ≡ length q.items % word_mod
  pub size : q.stats.msg_cbytes ≡ bytes q.items % word_mod
  pub short : Short q.items

pub enqueue-Counts :
    (pid now : ℕ) (x : MsgQueueItem) (q : MsgQueue)
    → x.mtext_length ≤ max_msg_size
    → Counts q
    → Counts (enqueue pid now x q)
enqueue-Counts pid now x q h c = record {
  number = omega (arith, c.number, length-append q.items (x ∷ []));
  size = omega (arith, c.size, bytes-append q.items (x ∷ []));
  short = Short-append q.items (x ∷ []) c.short (h, tt);
}

-- Delivering leaves the two counts to the caller.
deliver_counts :
    (write : WriteData) (c : Config) (stats : MsgStats) (x : MsgQueueItem) (now : ℕ)
    → ((msg_deliver write c stats x now).stats.msg_qnum ≡ stats.msg_qnum)
      × ((msg_deliver write c stats x now).stats.msg_cbytes ≡ stats.msg_cbytes)
unfolding msg_deliver
deliver_counts write c stats x now = ground arith

-- Taking an item out of the middle.
taken-Counts :
    (q : MsgQueue) (f : Found) (d : Delivery)
    → q.items ≡ f.before ++ (f.item ∷ f.after)
    → d.stats.msg_qnum ≡ q.stats.msg_qnum
    → d.stats.msg_cbytes ≡ q.stats.msg_cbytes
    → Counts q
    → Counts (taken_queue q f d)
taken-Counts q f d split n b c =
    let s = Short-split f.before (f.item ∷ f.after) (rw split at c.short) in
    record {
      number = omega (
        arith,
        c.number,
        ap length split,
        length-append f.before (f.item ∷ f.after),
        length-append f.before f.after,
      );
      size = omega (
        arith,
        c.size,
        ap bytes split,
        s.1.0,
        bytes-append f.before (f.item ∷ f.after),
        bytes-append f.before f.after,
      );
      short = Short-append f.before f.after s.0 s.1.1;
    }

find_index_split :
    (k : ℕ) (items : List MsgQueueItem) (f : Found)
    → find_index k items ≡ some f
    → items ≡ f.before ++ (f.item ∷ f.after)
unfolding find_index
find_index_split k [] f e = absurd (cc)
find_index_split zero (x ∷ xs) f e = ground arith
find_index_split (suc k) (x ∷ xs) f e = elim (Option-cases (find_index k xs)) [
  | inl m ↦ absurd (ground arith)
  | inr (g, m) ↦ ground (arith, find_index_split k xs g m)
]

find_copy_split :
    (typ : ℤ) (items : List MsgQueueItem) (f : Found)
    → find_copy typ items ≡ some f
    → items ≡ f.before ++ (f.item ∷ f.after)
find_copy_split (pos k) items f e = find_index_split k items f e
find_copy_split (negsuc k) items f e = absurd (cc)

-- The search as the code picks it.
abbrev searched : Config → MsgQueue → Option Found
searched c q =
    if has_flag c.msgrcv_msgflg msg_copy
    then find_copy c.msgrcv_msgtyp q.items
    else find_match c.msgrcv_msgtyp c.msgrcv_msgflg q.items

searched_split :
    (c : Config) (q : MsgQueue) (f : Found)
    → searched c q ≡ some f
    → q.items ≡ f.before ++ (f.item ∷ f.after)
searched_split c q f e = elim (Bool-cases (has_flag c.msgrcv_msgflg msg_copy)) [
  | inl copy ↦ find_copy_split c.msgrcv_msgtyp q.items f (rw copy at e)
  | inr take ↦ (find_match_first c.msgrcv_msgtyp c.msgrcv_msgflg q.items f (rw take at e)).0
]

receive_from-Counts :
    (write : WriteData) (now index : ℕ) (c : Config) (q : MsgQueue)
    → Counts q
    → Counts
        (receive_from write now index c q (has_flag c.msgrcv_msgflg msg_copy) (searched c q)).queue
unfolding receive_from
receive_from-Counts write now index c q v = elim (Option-cases (searched c q)) [
  | inl m ↦ rw (m, receive_from) (ground arith)
  | inr (f, m) ↦
      let d = msg_deliver write c q.stats f.item now in
      let n = deliver_counts write c q.stats f.item now in
      rw (m, receive_from)
        (ground (arith, taken-Counts q f d (searched_split c q f m) n.0 n.1 v, n.0, n.1))
]

-- A receive keeps the statistics right, whether it takes a message, copies one, waits or fails.
pub do_msgrcv-Counts :
    (write : WriteData) (now index : ℕ) (c : Config) (q : MsgQueue)
    → Counts q
    → Counts (do_msgrcv write now index c q).queue
unfolding do_msgrcv
do_msgrcv-Counts write now index c q v = ground (arith, receive_from-Counts write now index c q v)
