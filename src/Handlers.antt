-- ===== src/Handlers.antt =====
-- The life of a transaction in TxFS_Mam/server/TxFS_manager.c: `on_txn_beg`, `on_txn_commit` and
-- `on_txn_abort`, and the tests of TxFS_Mam/server/Update_manager.c before a read and a write. The
-- calls of YAFFS are parameters. The threads that a release wakes are not part of the results.
pub mod Ending
pub mod Abort
pub mod Commit
pub mod Begin
pub mod Possible
mod Tests
use backup_lfs.Base.{
  ℕ, zero, suc, Option, none, some, List, Bool, ◌==◌, ◌||◌, if◌then◌else◌, Code, pure, ◌>>=◌, ◌>>◌,
  get, put, crash, out_of_fuel,
}
use backup_lfs.Base.Int.{ℤ, pos, minus_one, eqb_ℤ}
use backup_lfs.Header.{Ptr, null, FileLock, TxnNode}
use backup_lfs.Txn.{new_txn_insert, txn_delete}
use backup_lfs.LockList.{Locks, load}
use backup_lfs.Server.{Server, on_locks}
use backup_lfs.Log.{log_txn_beg, log_txn_commit, log_txn_abort, log_txn_end, get_prev_log_lrn}
use backup_lfs.Redo.{delayed_update, delayed_write}
use backup_lfs.Release.{release_locks_on_success, release_locks_on_abort}

unfoldable pub insert_txn : (new_txn_id : ℕ) (log_rec_no : ℤ) → Code Server (Unit {0})
insert_txn new_txn_id log_rec_no s =
    put (record s { txns = new_txn_insert new_txn_id log_rec_no s.txns }) s

-- The walk of `txn_delete` faults where the transaction is not live.
unfoldable pub delete_txn : (txnid : ℕ) → Code Server (Unit {0})
delete_txn txnid s = elim (txn_delete txnid s.txns) [
  | none ↦ crash s
  | some ts ↦ put (record s { txns = ts }) s
]

unfoldable pub on_txn_beg : (txnid : ℕ) → Code Server ℤ
on_txn_beg txnid = do log_rec_no ← log_txn_beg txnid; insert_txn txnid log_rec_no; pure (pos txnid)

-- What a commit and an abort do last.
unfoldable pub finish_txn : (txnid : ℕ) → Code Server ℤ
finish_txn txnid = do
  prev_lrn ← get_prev_log_lrn txnid
  delete_txn txnid
  _ ← log_txn_end txnid prev_lrn
  pure (pos txnid)

-- The calls of YAFFS and of the kernel that a commit makes.
pub record Disk : Type 0 where
  pub rename_file : List ℕ → List ℕ → Code Server (Unit {0})
  pub tr_sync_file_to_disk : List ℕ → Code Server (Unit {0})
  pub unlink_file : List ℕ → Code Server (Unit {0})
  pub lseek : ℤ → ℤ → Code Server (Unit {0})
  pub write_bytes : ℤ → List ℕ → Code Server (Unit {0})
  pub tr_yaffs_close : ℤ → Code Server (Unit {0})

unfoldable pub on_txn_commit : Disk → (fuel txnid : ℕ) → Code Server ℤ
unfolding delayed_update delayed_write
on_txn_commit disk fuel txnid = do
  _ ← log_txn_commit txnid
  _ ←
      release_locks_on_success
        (delayed_update (disk.rename_file) (disk.tr_sync_file_to_disk) (disk.unlink_file) fuel)
        (delayed_write (disk.lseek) (disk.write_bytes)) (disk.tr_yaffs_close) fuel txnid
  finish_txn txnid

unfoldable pub on_txn_abort :
    (tr_yaffs_close_abort : ℤ → Code Server (Unit {0})) (fuel txnid : ℕ) → Code Server ℤ
on_txn_abort tr_yaffs_close_abort fuel txnid = do
  _ ← log_txn_abort txnid
  _ ← release_locks_on_abort tr_yaffs_close_abort fuel txnid
  finish_txn txnid

-- The walk to the node with the descriptor; at the end of the list it is `none`.
unfoldable pub find_fd : ℕ → ℤ → Ptr → Code Locks (Option FileLock)
unfolding load
find_fd zero fd p = λ _. out_of_fuel
find_fd (suc k) fd p =
    if p == null
    then pure none
    else do n ← load p; if eqb_ℤ (n.fd) fd then pure (some n) else find_fd k fd (n.next)

abbrev pub write_answer : Option FileLock → ℤ
write_answer none = minus_one
write_answer (some n) = if n.flags == 0 then minus_one else pos 1

unfoldable pub write_possible : ℕ → ℤ → Code Locks ℤ
unfolding find_fd
write_possible fuel fd = do s ← get; n ← find_fd fuel fd (s.head); pure (write_answer n)

-- A descriptor that no node has is followed to NULL.
unfoldable pub read_answer : Option FileLock → Code Locks ℤ
read_answer none = crash
read_answer (some n) = pure (if (n.flags == 1) || (n.flags == 3) then minus_one else pos 1)

unfoldable pub read_possible : ℕ → ℤ → Code Locks ℤ
unfolding find_fd read_answer
read_possible fuel fd = do s ← get; n ← find_fd fuel fd (s.head); read_answer n

-- `tr_file_write` returns the number of bytes written, or -1.
unfoldable pub on_write :
    (tr_file_write : ℤ → List ℕ → ℤ → ℕ → Code Server ℤ) (fuel : ℕ) (fd : ℤ) (buf : List ℕ)
    (nbyte : ℤ) (txnid : ℕ)
    → Code Server ℤ
unfolding write_possible
on_write tr_file_write fuel fd buf nbyte txnid = do
  possible ← on_locks (write_possible fuel fd)
  if eqb_ℤ possible minus_one then pure minus_one else tr_file_write fd buf nbyte txnid
