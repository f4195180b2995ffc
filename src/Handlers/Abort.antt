-- ===== src/Handlers/Abort.antt =====
-- What an abort leaves of the server.
use backup_lfs.Base.{ℕ, ◌<◌, ◌≡◌, ◌≢◌, sym, subst, some, List, All, length, ok, Code}
use backup_lfs.Base.Int.{ℤ, pos}
use backup_lfs.Header.{Ptr, TxnNode}
use backup_lfs.Txn.{find_txn}
use backup_lfs.Txn.Order.{IsRising, IsNotLive}
use backup_lfs.LockList.Chain.{Cells, IsValid}
use backup_lfs.Server.{Server}
use backup_lfs.Locking.Owned.{Owns}
use backup_lfs.Log.{log_txn_abort, LogRecord, txn_abort}
use backup_lfs.Log.Chain.{with_record, next_number, log_txn_abort-Links}
use backup_lfs.Release.{release_locks_on_abort}
use backup_lfs.Release.Exclusive.{IsQuiet}
use backup_lfs.Release.Held.{ExclusiveAt, IsDistinct, without_all}
use backup_lfs.Release.Loop.{release_locks_on_abort-exclusive}
use backup_lfs.Handlers.{on_txn_abort}
use backup_lfs.Handlers.Ending.{ended_log, ending-run}

-- An abort of a live transaction, the live transactions in order, whose locks are distinct and
-- exclusive, with a round of fuel for each of them and one more, whose last record stands in the log
-- where its node says, and where `tr_yaffs_close_abort` ends and leaves the server's lists alone: it
-- answers the transaction's number; the lock list is valid and without those locks; the transaction
-- is live no more, the others are in order and as they were; and the log has the records of the
-- abort and of the end, each linked with the one before it.
pub on_txn_abort-exclusive :
    (tr_yaffs_close_abort : ℤ → Code Server (Unit {0})) (fuel txnid : ℕ) (s : Server) (t : TxnNode)
    (ps : List Ptr) (cs : Cells) (before after : List ℕ) (r : LogRecord) (old : ℤ)
    → IsQuiet tr_yaffs_close_abort
    → find_txn txnid s.txns ≡ some t
    → IsRising s.txns
    → Owns s.locks t.file_rec_no ps
    → IsDistinct ps
    → All (λ (b : Ptr). ExclusiveAt b cs) ps
    → IsValid s.locks cs
    → length ps < fuel
    → t.last_lrn ≡ pos (length before)
    → s.event_log ≡ with_record before r old after
    → (s' : Server) × (on_txn_abort tr_yaffs_close_abort fuel txnid s ≡ ok (pos txnid, s'))
      × IsValid s'.locks (without_all ps cs)
      × IsRising s'.txns
      × IsNotLive txnid s'.txns
      × ((j : ℕ) → j ≢ txnid → find_txn j s'.txns ≡ find_txn j s.txns)
      × (s'.event_log ≡ ended_log txnid txn_abort before after r old)
unfolding on_txn_abort
on_txn_abort-exclusive close fuel txnid s t ps cs before after r old quiet live o own d xs v short
      last file =
    ending-run txn_abort (log_txn_abort txnid) (release_locks_on_abort close fuel txnid) txnid s t
      (without_all ps cs) before after r old live o
      (log_txn_abort-Links txnid s t before after r old live last file)
      λ s1 live1 same is.
        release_locks_on_abort-exclusive close fuel txnid s1
          (record t { last_lrn = next_number before r old after }) ps cs quiet live1
          (subst (λ l. Owns l t.file_rec_no ps) (sym same) own) d xs
          (subst (λ l. IsValid l cs) (sym same) v) short
