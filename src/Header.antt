-- ===== src/Header.antt =====
-- The structures and enumerations of TxFS_Mam/server/my_header.h.
-- A pointer to a `struct file_lock` is an address, and 0 is NULL. The list of a file's writes, the
-- list of live transactions and the list of wait nodes are reached from their heads alone, and are
-- lists here. Inode numbers and transaction ids are not negative; `int` and `long` do not overflow.
-- Fields that no code reads (`fd_dir`, `delayed_write`, `blocked_tid`) are left out.
use backup_lfs.Base.{ℕ, List, Option}
use backup_lfs.Base.Int.{ℤ}

abbrev pub Ptr : Type 0
Ptr = ℕ

abbrev pub null : Ptr
null = 0

-- `write_length` is a length, or -1 to -5 for the two ends of a rename, both in one, creat, unlink.
pub record WriteRecord : Type 0 where
  pub initial_off : ℤ
  pub write_length : ℤ
  pub lrn : ℤ

pub record FileLock : Type 0 where
  pub file_inode : ℕ
  pub file_mode : ℕ  -- 0 shared, 1 exclusive
  pub fd : ℤ
  pub file_offset : ℤ
  pub file_size : ℤ
  pub flags : ℕ
  pub parent_txn : ℕ
  pub next_txn : Ptr
  pub prev_shared_rec : Ptr
  pub next_shared_rec : Ptr
  pub next : Ptr
  pub prev : Ptr
  pub writes_at : List WriteRecord

pub data TxnState : Type 0 where
  running waiting aborting commit : TxnState

pub record TxnNode : Type 0 where
  pub txn_id : ℕ
  pub cur_state : TxnState
  pub first_lrn : ℤ
  pub last_lrn : ℤ
  pub file_rec_no : Ptr
  pub wait_mode : ℤ
  pub waiting_for_inode : ℕ
  pub before_after : ℕ

-- `txnid_abort` is -1 where no transaction is to be aborted: `none` here.
pub record WaitNode : Type 0 where
  pub file_inode : ℕ
  pub in_wait : ℕ
  pub txnid_abort : Option ℕ
  pub woke_up : ℕ

-- `txnid` is -1 in an entry that has been cleared: `none` here.
pub record PauseNode : Type 0 where
  pub txnid : Option ℕ
  pub pause_times : ℕ

pub data BckState : Type 0 where
  inactive active : BckState
