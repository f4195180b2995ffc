-- ===== src/Handlers/Commit.antt =====
-- What a commit leaves of the server.
use backup_lfs.Base.{ℕ, ◌<◌, ◌≡◌, ◌≢◌, sym, subst, some, List, All, length, ok}
use backup_lfs.Base.Int.{ℤ, pos}
use backup_lfs.Header.{Ptr, TxnNode}
use backup_lfs.Txn.{find_txn}
use backup_lfs.Txn.Order.{IsRising, IsNotLive}
use backup_lfs.LockList.Chain.{Cells, IsValid}
use backup_lfs.Server.{Server}
use backup_lfs.Locking.Owned.{Owns}
use backup_lfs.Log.{log_txn_commit, LogRecord, txn_commit}
use backup_lfs.Log.Chain.{with_record, next_number, log_txn_commit-Links}
use backup_lfs.LockList.{Locks}
use backup_lfs.Redo.{delayed_update, delayed_write}
use backup_lfs.Redo.Applied.{IsNoted, apply_writes-IsQuietAt}
use backup_lfs.Release.Survive.{noted_in}
use backup_lfs.Release.{apply_writes, release_locks_on_success}
use backup_lfs.Release.Exclusive.{IsQuiet}
use backup_lfs.Release.Held.{ExclusiveAt, IsDistinct, without_all}
use backup_lfs.Release.Loop.{IsQuietAt}
use backup_lfs.Release.Success.{release_locks_on_success-exclusive}
use backup_lfs.Handlers.{Disk, on_txn_commit}
use backup_lfs.Handlers.Ending.{linked_log, ended_log, ending-run}

-- A commit of a live transaction, the live transactions in order, whose locks are distinct and
-- exclusive, with a round of fuel for each of them and one more, whose last record stands in the log
-- where its node says, and whose locks note creations and removals only, the texts of which can be read
-- in the log with the commit's record; where the calls of YAFFS and of the kernel for these, and
-- `tr_yaffs_close`, end and leave the server's lists and the log alone: it answers the transaction's
-- number; the lock list is valid and without those locks; the transaction is live no more, the others
-- are in order and as they were; and the log has the records of the commit and of the end, each linked
-- with the one before it.
pub on_txn_commit-exclusive :
    (disk : Disk) (fuel txnid : ℕ) (s : Server) (t : TxnNode) (ps : List Ptr) (cs : Cells)
    (before after : List ℕ) (r : LogRecord) (old : ℤ)
    → IsQuiet disk.tr_sync_file_to_disk
    → IsQuiet disk.unlink_file
    → IsQuiet disk.tr_yaffs_close
    → find_txn txnid s.txns ≡ some t
    → IsRising s.txns
    → Owns s.locks t.file_rec_no ps
    → IsDistinct ps
    → All (λ (b : Ptr). ExclusiveAt b cs) ps
    → IsValid s.locks cs
    → All
        (λ (b : Ptr).
          All
            (IsNoted (linked_log txnid txn_commit before after r old))
            (noted_in (s.locks.cell b)))
        ps
    → length ps < fuel
    → t.last_lrn ≡ pos (length before)
    → s.event_log ≡ with_record before r old after
    → (s' : Server) × (on_txn_commit disk fuel txnid s ≡ ok (pos txnid, s'))
      × IsValid s'.locks (without_all ps cs)
      × IsRising s'.txns
      × IsNotLive txnid s'.txns
      × ((j : ℕ) → j ≢ txnid → find_txn j s'.txns ≡ find_txn j s.txns)
      × (s'.event_log ≡ ended_log txnid txn_commit before after r old)
unfolding on_txn_commit
on_txn_commit-exclusive disk fuel txnid s t ps cs before after r old quiet_sync quiet_unlink quiet
      live o own d xs v noted short last file =
    let update = delayed_update disk.rename_file disk.tr_sync_file_to_disk disk.unlink_file fuel in
    let store = delayed_write disk.lseek disk.write_bytes in
    let log = linked_log txnid txn_commit before after r old in
    ending-run txn_commit (log_txn_commit txnid)
      (release_locks_on_success update store disk.tr_yaffs_close fuel txnid) txnid s t
      (without_all ps cs) before after r old live o
      (log_txn_commit-Links txnid s t before after r old live last file)
      λ s1 live1 same is.
        release_locks_on_success-exclusive update store disk.tr_yaffs_close fuel txnid s1
          (record t { last_lrn = next_number before r old after }) ps cs (All (IsNoted log))
          (subst (λ l. IsQuietAt l (All (IsNoted log)) (apply_writes update store)) (sym is)
            (apply_writes-IsQuietAt disk.rename_file disk.tr_sync_file_to_disk disk.unlink_file
              quiet_sync quiet_unlink log fuel store))
          quiet live1 (subst (λ l. Owns l t.file_rec_no ps) (sym same) own) d xs
          (subst (λ l. IsValid l cs) (sym same) v)
          (subst (λ (l : Locks). All (λ (b : Ptr). All (IsNoted log) (noted_in (l.cell b))) ps)
            (sym same) noted)
          short
