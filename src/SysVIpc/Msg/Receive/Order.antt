-- ===== src/SysVIpc/Msg/Receive/Order.antt =====
-- Which message a receiver gets, and what is left.
use xyzterm.Common.{
  ℕ, ◌+◌, ◌≡◌, ◌⊎◌, inl, inr, List, [], ◌∷◌, ◌++◌, none, some, true, false, arith, take,
  Option-cases, Bool-cases,
}
use xyzterm.Common.Int.{ℤ, pos, is_negative, to_int}
use xyzterm.SysVIpc.{MsgQueue, MsgQueueItem, MsgStats, Config}
use xyzterm.SysVIpc.Ids.{has_flag}
use xyzterm.SysVIpc.Msg.{
  msg_match, long_to_int, msg_copy, msg_type, msg_text, WriteData, msg_deliver, delivered_size,
}
use xyzterm.SysVIpc.Msg.Receive.{Found, find_match, do_msgrcv, unknown_flags}

-- None of the items satisfies the filter.
abbrev pub NoneMatch : ℤ → ℕ → List MsgQueueItem → Type 0
NoneMatch typ flg [] = Unit {0}
NoneMatch typ flg (x ∷ xs) =
    (msg_match (long_to_int x.mtype) typ flg ≡ false) × NoneMatch typ flg xs

-- The search finds the first item that satisfies the filter.
pub find_match_first :
    (typ : ℤ) (flg : ℕ) (items : List MsgQueueItem) (f : Found)
    → find_match typ flg items ≡ some f
    → (items ≡ f.before ++ (f.item ∷ f.after))
      × NoneMatch typ flg f.before
      × (msg_match (long_to_int f.item.mtype) typ flg ≡ true)
unfolding find_match
find_match_first typ flg [] f e = absurd (cc)
find_match_first typ flg (x ∷ xs) f e =
    elim (Bool-cases (msg_match (long_to_int x.mtype) typ flg)) [
      | inl hit ↦ ground arith
      | inr miss ↦ elim (Option-cases (find_match typ flg xs)) [
        | inl m ↦ absurd (ground arith)
        | inr (g, m) ↦ ground (arith, find_match_first typ flg xs g m)
      ]
    ]

-- The search takes the place of such a split of the list.
find_match_at :
    (typ : ℤ) (flg : ℕ) (before : List MsgQueueItem) (x : MsgQueueItem) (after : List MsgQueueItem)
    → NoneMatch typ flg before
    → msg_match (long_to_int x.mtype) typ flg ≡ true
    → find_match typ flg (before ++ (x ∷ after))
      ≡ some (record { before = before; item = x; after = after })
unfolding find_match
find_match_at typ flg [] x after none_before hit = rw hit
find_match_at typ flg (y ∷ ys) x after none_before hit =
    rw (none_before.0, find_match_at typ flg ys x after none_before.1 hit)

-- The arguments that sysvipc_do_msgrcv accepts for a receive that takes the message.
pub record TakesMessage (c : Config) : Type 0 where
  pub size_fits : is_negative (to_int c.msgrcv_msgsz) ≡ false
  pub known : unknown_flags c.msgrcv_msgflg ≡ false
  pub not_copy : has_flag c.msgrcv_msgflg msg_copy ≡ false

deliver_all :
    (write : WriteData) (c : Config) (stats : MsgStats) (x : MsgQueueItem) (now n : ℕ)
    → delivered_size c x ≡ some n
    → write c.msgrcv_msgp (msg_type x.mtype) ≡ none
    → write (c.msgrcv_msgp + 8) (msg_text (take n x.mtext)) ≡ none
    → msg_deliver write c stats x now ≡ record {
      status = pos n;
      stats = record stats { msg_lrpid = c.pid; msg_rtime = now };
      writes =
          (c.msgrcv_msgp, msg_type x.mtype) ∷ (c.msgrcv_msgp + 8, msg_text (take n x.mtext)) ∷ [];
    }
unfolding msg_deliver
deliver_all write c stats x now n size w₁ w₂ = ground arith

-- A receive takes the first message of the queue that its filter matches, and no other: where that
-- message may be delivered and the receiver's memory can be written, the result is the size that is
-- delivered, the type and that much of the text are written, and the other messages stay in their
-- order.
pub receive_takes_first :
    (write : WriteData) (now index : ℕ) (c : Config) (q : MsgQueue) (before : List MsgQueueItem)
    (x : MsgQueueItem) (after : List MsgQueueItem) (n : ℕ)
    → TakesMessage c
    → q.items ≡ before ++ (x ∷ after)
    → NoneMatch c.msgrcv_msgtyp c.msgrcv_msgflg before
    → msg_match (long_to_int x.mtype) c.msgrcv_msgtyp c.msgrcv_msgflg ≡ true
    → delivered_size c x ≡ some n
    → write c.msgrcv_msgp (msg_type x.mtype) ≡ none
    → write (c.msgrcv_msgp + 8) (msg_text (take n x.mtext)) ≡ none
    → let r = do_msgrcv write now index c q in
      (r.status ≡ pos n)
      × (r.writes
          ≡ (c.msgrcv_msgp, msg_type x.mtype) ∷ (c.msgrcv_msgp + 8, msg_text (take n x.mtext)) ∷ [])
      × (r.queue.items ≡ before ++ after)
      × (r.config ≡ c)
unfolding do_msgrcv
receive_takes_first write now index c q before x after n t split none_before hit size w₁ w₂ =
    let found : find_match c.msgrcv_msgtyp c.msgrcv_msgflg q.items
        ≡ some (record { before = before; item = x; after = after }) =
      rw split (find_match_at c.msgrcv_msgtyp c.msgrcv_msgflg before x after none_before hit) in
    ground (
      arith,
      t.size_fits,
      t.known,
      t.not_copy,
      found,
      deliver_all write c q.stats x now n size w₁ w₂,
    )

-- A receive that fails, that waits or that only copies leaves every message where it is.
pub receive_keeps :
    (write : WriteData) (now index : ℕ) (c : Config) (q : MsgQueue)
    → (is_negative (do_msgrcv write now index c q).status ≡ true)
      ⊎ ((has_flag c.msgrcv_msgflg msg_copy ≡ true)
          ⊎ (find_match c.msgrcv_msgtyp c.msgrcv_msgflg q.items ≡ none))
    → (do_msgrcv write now index c q).queue.items ≡ q.items
unfolding do_msgrcv
receive_keeps write now index c q h = ground arith
