-- ===== src/SysVIpc.antt =====
-- extension/sysvipc: System V message queues and semaphores emulated for the tracees of one IPC
-- namespace. The state is that of sysvipc_internal.h; `Ids` has the lookup by identifier, `Wait`
-- the waking of tracees, `Sem` and `Msg` the system calls.
pub mod Ids
pub mod Search
pub mod Wait
pub mod Sem
pub mod Msg
pub mod Shm
pub mod Events
use xyzterm.Common.{ℕ, List, Bool}
use xyzterm.Common.Int.{ℤ}

-- The fields that `struct SysVIpcMsgQueue` and `struct SysVIpcSemaphore` share. `key` is an `int32_t`
-- and `generation` an `int16_t`, both by their bit patterns.
pub record Slot : Type 0 where
  pub key : ℕ
  pub generation : ℕ
  pub valid : Bool

-- `sems` holds `uint16_t`s; it is empty where the pointer is NULL.
pub record Semaphore : Type 0 where
  pub slot : Slot
  pub sems : List ℕ
  pub nsems : ℕ

pub record MsgQueueItem : Type 0 where
  pub mtype : ℤ
  pub mtext : List ℕ
  pub mtext_length : ℕ

-- The fields of `struct msqid_ds` that the code writes.
pub record MsgStats : Type 0 where
  pub msg_qbytes : ℕ
  pub msg_lspid : ℕ
  pub msg_stime : ℕ
  pub msg_lrpid : ℕ
  pub msg_rtime : ℕ
  pub msg_qnum : ℕ
  pub msg_cbytes : ℕ

pub record MsgQueue : Type 0 where
  pub slot : Slot
  pub items : List MsgQueueItem
  pub stats : MsgStats

-- `struct SysVIpcSembuf`: `sem_flg` by its bit pattern.
pub record Sembuf : Type 0 where
  pub sem_num : ℕ
  pub sem_op : ℤ
  pub sem_flg : ℕ

pub data WaitReason : Type 0 where
  not_waiting wait_queue_recv wait_semop wait_shmat_helper_busy : WaitReason

pub data WaitState : Type 0 where
  not_waiting restarted_into_ppoll_canceled restarted_into_ppoll entered_ppoll : WaitState
  signaled_ppoll entered_getpid : WaitState

pub data ChainState : Type 0 where
  not_chained single shmat_socket shmat_connect shmat_recvmsg shmat_mmap msgrcv_retry : ChainState

-- `struct SysVIpcConfig`, without the fields of shmat(2), with the pid of its tracee and whether
-- that was sent a SIGSTOP that is to be ignored.
pub record Config : Type 0 where
  pub pid : ℕ
  pub wait_reason : WaitReason
  pub wait_state : WaitState
  pub chain_state : ChainState
  pub status_after_wait : ℤ
  pub waiting_object_index : ℕ
  pub msgrcv_msgp : ℕ
  pub msgrcv_msgsz : ℕ
  pub msgrcv_msgtyp : ℤ
  pub msgrcv_msgflg : ℕ
  pub semop_sops : List Sembuf
  pub sigstop_ignored : Bool

-- A namespace, with the configurations of the tracees in it, in the order of the list of tracees.
pub record Ipc : Type 0 where
  pub queues : List MsgQueue
  pub semaphores : List Semaphore
  pub tracees : List Config
