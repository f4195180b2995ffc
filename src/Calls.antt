-- ===== src/Calls.antt =====
-- The calls on files in TxFS_Mam/server/TxFS_manager.c, cut where `insert_file_list` puts the thread
-- to sleep: a call is `suspended` there, and what follows the lock is a definition of its own, which
-- goes on with the outcome of `resume`. What a handler calls that is not the server's own code is in
-- `Outside`. A path that is copied behind the end of its array is a fault. A `stat` that fails leaves the inode without a value, which is taken for a fault.
pub mod Answer
pub mod Opens
pub mod Creates
pub mod Rename
mod Tests
use backup_lfs.Base.{
  ℕ, Option, none, some, List, [], ◌∷◌, Bool, ltb, length, true, false, ◌==◌, ◌&&◌, not,
  if◌then◌else◌, Code, pure, ◌>>=◌, ◌>>◌, or_fault, crash,
}
use backup_lfs.Base.Int.{ℤ, pos, minus_one, eqb_ℤ}
use backup_lfs.Header.{Ptr, null, FileLock}
use backup_lfs.LockList.{Locks, search_file_list, modify}
use backup_lfs.Server.{Server, on_locks}
use backup_lfs.Locking.{Outcome, granted, blocked, paused, aborted, insert_file_list, resume}
use backup_lfs.Handlers.{on_txn_abort}
use backup_lfs.Update.{creat_log, unlink_log, rename_log}

-- YAFFS, the kernel and the C library, and `read_bit`, which the source never sets. `dirname` gives
-- the directory and what it leaves in its argument; `stat` the inode and whether it is a directory.
pub record Outside : Type 0 where
  pub tr_yaffs_close_abort : ℤ → Code Server (Unit {0})
  pub tr_object_id_from_path : List ℕ → Code Server ℕ
  pub tr_object_id_parent_from_path : List ℕ → Code Server ℕ
  pub tr_file_open_without_mode : List ℕ → ℕ → Code Server ℤ
  pub tr_yaffs_stat : List ℕ → Code Server (Option ℤ)
  pub tr_ext_creat_yaffs_creat : List ℕ → List ℕ → Code Server ℤ
  pub tr_lseek : ℤ → ℤ → ℕ → Code Server ℤ
  pub tr_file_read : ℤ → ℤ → Code Server (ℤ × List ℕ)
  pub access : List ℕ → Code Server Bool
  pub stat : List ℕ → Code Server (Option (ℕ × Bool))
  pub dirname : List ℕ → List ℕ × List ℕ
  pub read_bit : ℕ

pub data Progress : Type 0 where
  finished : ℤ → Progress
  suspended : Progress

unfoldable pub same_text : List ℕ → List ℕ → Bool
same_text [] [] = true
same_text (a ∷ xs) (b ∷ ys) = (a == b) && same_text xs ys
same_text _ _ = false

-- "0", "1", "2", "1025" and "1026". Another text leaves the flags without a value.
unfoldable pub file_open_flags : List ℕ → Option ℕ
unfolding same_text
file_open_flags text =
    if same_text text (48 ∷ [])
    then some 0
    else if same_text text (49 ∷ [])
    then some 1
    else if same_text text (50 ∷ [])
    then some 2
    else if same_text text (49 ∷ 48 ∷ 50 ∷ 53 ∷ [])
    then some 3
    else if same_text text (49 ∷ 48 ∷ 50 ∷ 54 ∷ [])
    then some 4
    else none

-- O_RDONLY, O_WRONLY, O_RDWR; O_WRONLY|O_APPEND also for "1026".
abbrev pub open_mode : (f_flags : ℕ) → ℕ
open_mode f_flags = if f_flags == 3 then 1025 else if f_flags == 4 then 1025 else f_flags

unfoldable pub set_fd : (p : Ptr) (fd : ℤ) → Code Locks (Unit {0})
unfolding modify
set_fd p fd = modify p (λ n. record n { fd = fd; file_offset = pos 0 })

abbrev pub then_locked : Outcome → (Ptr → Code Server Progress) → Code Server Progress
then_locked (granted p) k = k p
then_locked blocked k = pure suspended
then_locked paused k = pure suspended
then_locked aborted k = pure (finished minus_one)

module _ (o : Outside) (fuel txnid : ℕ) where
  -- -1, after an abort.
  unfoldable pub fail : Code Server Progress
  unfolding on_txn_abort
  fail = do _ ← on_txn_abort (o.tr_yaffs_close_abort) fuel txnid; pure (finished minus_one)

  -- `search_file_list` and `insert_file_list`; `new` is what `malloc` returns.
  unfoldable pub lock_file : (f_inode f_flags : ℕ) (new : Ptr) → Code Server Outcome
  unfolding resume
  lock_file f_inode f_flags new =
      resume (on_txn_abort (o.tr_yaffs_close_abort) fuel) fuel f_inode f_flags txnid (o.read_bit)
        new

  unfoldable pub on_open_locked :
      (path : List ℕ) (f_flags : ℕ) (inserted_pos : Ptr) → Code Server Progress
  unfolding fail set_fd
  on_open_locked path f_flags inserted_pos = do
    fd ← (o.tr_file_open_without_mode) path (open_mode f_flags)
    if eqb_ℤ fd minus_one then fail else (do on_locks (set_fd inserted_pos fd); pure (finished fd))

  unfoldable pub on_open : (path flags : List ℕ) (new : Ptr) → Code Server Progress
  unfolding file_open_flags lock_file on_open_locked
  on_open path flags new = if not (ltb (length path) 255) then crash else do
    f_inode ← (o.tr_object_id_from_path) path
    f_flags ← or_fault (file_open_flags flags)
    outcome ← lock_file f_inode f_flags new
    then_locked outcome (on_open_locked path f_flags)

  abbrev pub stat_answer : Ptr → Option (ℕ × Bool) → Code Server Progress
  stat_answer inserted_pos none = pure (finished (pos 1))
  stat_answer inserted_pos (some _) = do
    on_locks (set_fd inserted_pos (pos 0))
    pure (finished (pos 0))

  unfoldable pub on_stat_locked : (path : List ℕ) (inserted_pos : Ptr) → Code Server Progress
  unfolding set_fd
  on_stat_locked path inserted_pos = do buff ← (o.stat) path; stat_answer inserted_pos buff

  unfoldable pub on_stat : (path : List ℕ) (new : Ptr) → Code Server Progress
  unfolding fail lock_file on_stat_locked
  on_stat path new = do
    there ← (o.access) path
    if there
        then (do
          buff ← (o.stat) path
          (f_inode, _) ← or_fault buff
          outcome ← lock_file f_inode 0 new
          then_locked outcome (on_stat_locked path))
        else fail

  abbrev pub inode_or : Option ℤ → Progress
  inode_or none = finished minus_one
  inode_or (some f_inode) = finished f_inode

  -- No lock is asked for: what stands behind the two returns is not reached.
  unfoldable pub on_inode_stat : (path : List ℕ) → Code Server Progress
  on_inode_stat path = do stat_buf ← (o.tr_yaffs_stat) path; pure (inode_or stat_buf)

  unfoldable pub on_lseek : (fd offset : ℤ) (whence : ℕ) → Code Server Progress
  on_lseek fd offset whence = do
    ret_offset ← (o.tr_lseek) fd offset whence
    pure (finished ret_offset)

  -- "Zero\n" and its length for nothing.
  abbrev pub read_result : (bytes_read : ℤ) (read_buf : List ℕ) → ℤ × List ℕ
  read_result bytes_read read_buf =
      if eqb_ℤ bytes_read (pos 0)
      then (pos 5, 90 ∷ 101 ∷ 114 ∷ 111 ∷ 10 ∷ [])
      else (bytes_read, read_buf)

  unfoldable pub on_read : (fd nbytes : ℤ) → Code Server (ℤ × List ℕ)
  on_read fd nbytes = do
    (bytes_read, read_buf) ← (o.tr_file_read) fd nbytes
    pure (read_result bytes_read read_buf)

  unfoldable pub on_creat_locked : (path mode : List ℕ) (inserted_pos : Ptr) → Code Server Progress
  unfolding set_fd creat_log
  on_creat_locked path mode inserted_pos = do
    on_locks (set_fd inserted_pos (pos 0))
    creat_log path mode inserted_pos txnid
    inode_number ← (o.tr_ext_creat_yaffs_creat) path mode
    pure (finished inode_number)

  -- `newpath` is what `dirname` leaves.
  unfoldable pub on_creat : (path mode : List ℕ) (new : Ptr) → Code Server Progress
  unfolding lock_file on_creat_locked
  on_creat path mode new = if not (ltb (length path) 256) then crash else do
    inode_parent ← (o.tr_object_id_parent_from_path) ((o.dirname path).1)
    outcome ← lock_file inode_parent 2 new
    then_locked outcome (on_creat_locked path mode)

  unfoldable pub on_unlink_both :
      (path : List ℕ) (inserted_pos_parent inserted_pos_child : Ptr) → Code Server Progress
  unfolding set_fd unlink_log
  on_unlink_both path inserted_pos_parent inserted_pos_child = do
    on_locks (set_fd inserted_pos_child (pos 0))
    unlink_log path inserted_pos_parent txnid
    pure (finished (pos 1))

  unfoldable pub on_unlink_parent :
      (path : List ℕ) (inode_child : ℕ) (new_child inserted_pos_parent : Ptr) → Code Server Progress
  unfolding set_fd lock_file on_unlink_both
  on_unlink_parent path inode_child new_child inserted_pos_parent = do
    on_locks (set_fd inserted_pos_parent (pos 0))
    outcome ← lock_file inode_child 2 new_child
    then_locked outcome (on_unlink_both path inserted_pos_parent)

  unfoldable pub on_unlink : (path : List ℕ) (new_parent new_child : Ptr) → Code Server Progress
  unfolding lock_file on_unlink_parent
  on_unlink path new_parent new_child = if not (ltb (length path) 256) then crash else do
    buff_parent ← (o.stat) ((o.dirname path).0)
    (inode_parent, _) ← or_fault buff_parent
    buff_child ← (o.stat) path
    (inode_child, _) ← or_fault buff_child
    outcome ← lock_file inode_parent 2 new_parent
    then_locked outcome (on_unlink_parent path inode_child new_child)
