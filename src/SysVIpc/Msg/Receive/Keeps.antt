-- ===== src/SysVIpc/Msg/Receive/Keeps.antt =====
-- The message system calls on a whole namespace: the statistics of every queue stay right.
use xyzterm.Common.{
  ℕ, zero, suc, ◌+◌, ◌≤◌, ◌≡◌, inl, inr, List, [], ◌∷◌, ◌++◌, none, some, Bool, true, false, arith,
  get_elem?, set, Option-cases, ⊎-cases, subst,
}
use xyzterm.Common.Int.{ℤ}
use xyzterm.SysVIpc.{MsgQueue, MsgQueueItem, Config, Ipc}
use xyzterm.SysVIpc.Ids.{find_slot, lookup_ipc_object, lookup-get_elem?}
use xyzterm.SysVIpc.Msg.{
  WriteData, ReadMemory, msgsnd, msgget, create_queue, fresh_queue, queue_slot, send_item, enqueue,
  generation_at, max_msg_size,
}
use xyzterm.SysVIpc.Msg.Receive.{do_msgrcv, msgrcv, with_arguments}
use xyzterm.SysVIpc.Msg.Receive.Counts.{Counts, enqueue-Counts, do_msgrcv-Counts}
use xyzterm.SysVIpc.Msg.Ctl.{msgctl, queue_rmid, removed_queue, WriteStats}

-- A slot whose queue is removed keeps its last statistics until it is taken into use again.
abbrev pub CountsIf : Bool → MsgQueue → Type 0
CountsIf true q = Counts q
CountsIf false q = Unit {0}

abbrev pub AllCount : List MsgQueue → Type 0
AllCount [] = Unit {0}
AllCount (q ∷ qs) = CountsIf q.slot.valid q × AllCount qs

set-AllCount :
    (qs : List MsgQueue) (i : ℕ) (q : MsgQueue)
    → CountsIf q.slot.valid q
    → AllCount qs
    → AllCount (set qs i q)
set-AllCount [] i q h b = tt
set-AllCount (x ∷ xs) zero q h b = (h, b.1)
set-AllCount (x ∷ xs) (suc i) q h b = (b.0, set-AllCount xs i q h b.1)

append-AllCount :
    (qs : List MsgQueue) (q : MsgQueue)
    → CountsIf q.slot.valid q
    → AllCount qs
    → AllCount (qs ++ (q ∷ []))
append-AllCount [] q h b = (h, tt)
append-AllCount (x ∷ xs) q h b = (b.0, append-AllCount xs q h b.1)

get-Counts :
    (qs : List MsgQueue) (i : ℕ) {q : MsgQueue}
    → get_elem? qs i ≡ some q
    → q.slot.valid ≡ true
    → AllCount qs
    → Counts q
get-Counts [] i e v b = absurd (cc)
get-Counts (x ∷ xs) zero {q} e v b = subst Counts (ground arith) (counted x (ground arith) b.0)
  where
    counted : (x : MsgQueue) → x.slot.valid ≡ true → CountsIf x.slot.valid x → Counts x
    counted x h c = subst (λ v. CountsIf v x) h c
get-Counts (x ∷ xs) (suc i) e v b = get-Counts xs i e v b.1

count_if : (v : Bool) (q : MsgQueue) → Counts q → CountsIf v q
count_if true q c = c
count_if false q c = tt

fresh-Counts : (key g : ℕ) → Counts (fresh_queue key g)
fresh-Counts key g = record { number = omega arith; size = omega arith; short = tt }

-- msgget(2) keeps them: a new queue is empty.
pub msgget-AllCount :
    (key flg : ℕ) (ipc : Ipc) → AllCount ipc.queues → AllCount (msgget key flg ipc).1.queues
unfolding msgget create_queue
msgget-AllCount key flg ipc b =
    let s = find_slot queue_slot key ipc.queues 0 none in
    elim (Option-cases s.unused_slot) [
      | inl u ↦
          ground (arith, append-AllCount ipc.queues (fresh_queue key 0) (fresh-Counts key 0) b)
      | inr (i, u) ↦
          let g = generation_at ipc.queues i in
          ground (arith, set-AllCount ipc.queues i (fresh_queue key g) (fresh-Counts key g) b)
    ]

-- If the counts of messages and bytes of every queue are those of its messages, none of which is too
-- long, msgsnd(2) keeps them so, for every message that it accepts or refuses.
pub msgsnd-AllCount :
    (mem : ReadMemory) (pid now id msgp msgsz : ℕ) (ipc : Ipc) {status : ℤ} {ipc' : Ipc}
    → msgsnd mem pid now id msgp msgsz ipc ≡ some (status, ipc')
    → AllCount ipc.queues
    → AllCount ipc'.queues
unfolding msgsnd send_item
msgsnd-AllCount mem pid now id msgp msgsz ipc {status} {ipc'} e b =
    elim (Option-cases (lookup_ipc_object queue_slot ipc.queues id)) [
      | inl m ↦ ground arith
      | inr ((index, q), m) ↦ elim (⊎-cases (mem.read_long msgp)) [
        | inr (x, r) ↦ ground arith
        | inl (mtype, r) ↦ elim (⊎-cases (mem.read_bytes (msgp + 8) msgsz)) [
          | inr (x, t) ↦ ground arith
          | inl (text, t) ↦
              let f = lookup-get_elem? queue_slot ipc.queues id m in
              let item : MsgQueueItem = record {
                mtype = mtype;
                mtext = text;
                mtext_length = msgsz;
              } in
              let c = get-Counts ipc.queues index f.0 f.1 b in
              let q' = enqueue pid now item q in
              ground (
                arith,
                λ (h : msgsz ≤ max_msg_size).
                    set-AllCount ipc.queues index q'
                      (count_if q.slot.valid q' (enqueue-Counts pid now item q h c)) b,
              )
        ]
      ]
    ]

-- If the counts of messages and bytes of every queue are those of its messages, none of which is too
-- long, msgrcv(2) keeps them so.
pub msgrcv-AllCount :
    (write : WriteData) (now id msgp msgsz typ flg : ℕ) (c : Config) (ipc : Ipc)
    → AllCount ipc.queues
    → AllCount (msgrcv write now id msgp msgsz typ flg c ipc).1.queues
unfolding msgrcv
msgrcv-AllCount write now id msgp msgsz typ flg c ipc b =
    elim (Option-cases (lookup_ipc_object queue_slot ipc.queues id)) [
      | inl m ↦ rw (m, msgrcv) b
      | inr ((index, q), m) ↦
          let f = lookup-get_elem? queue_slot ipc.queues id m in
          let c' = with_arguments msgp msgsz typ flg c in
          let q' = (do_msgrcv write now index c' q).queue in
          rw (m, msgrcv)
            (set-AllCount ipc.queues index q'
              (count_if q'.slot.valid q'
                (do_msgrcv-Counts write now index c' q (get-Counts ipc.queues index f.0 f.1 b)))
              b)
    ]

-- If the counts of messages and bytes of every queue are those of its messages, none of which is too
-- long, msgctl(2) keeps them so.
pub msgctl-AllCount :
    (write : WriteStats) (id cmd buf : ℕ) (ipc : Ipc) {status : ℤ} {ipc' : Ipc}
    → msgctl write id cmd buf ipc ≡ some (status, ipc')
    → AllCount ipc.queues
    → AllCount ipc'.queues
unfolding msgctl queue_rmid
msgctl-AllCount write id cmd buf ipc e b =
    elim (Option-cases (lookup_ipc_object queue_slot ipc.queues id)) [
      | inl m ↦ ground arith
      | inr ((index, q), m) ↦ ground (arith, set-AllCount ipc.queues index (removed_queue q) tt b)
    ]
