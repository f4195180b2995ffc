-- ===== src/Release/Success.antt =====
-- The release of the locks of a transaction that commits, where they are exclusive.
use backup_lfs.Base.{ℕ, ◌<◌, ◌≡◌, refl, some, List, All, length, ok, Code, not}
use backup_lfs.Base.Int.{ℤ, pos, ltb_ℤ, eqb_ℤ}
use backup_lfs.Header.{Ptr, null, TxnNode, WriteRecord}
use backup_lfs.Txn.{find_txn, update_txn_node}
use backup_lfs.LockList.Chain.{Cells, IsValid}
use backup_lfs.Server.{Server}
use backup_lfs.Locking.Owned.{Owns}
use backup_lfs.Release.{apply_writes, release_locks_on_success}
use backup_lfs.Release.Exclusive.{IsQuiet}
use backup_lfs.Release.Survive.{noted_in}
use backup_lfs.Release.Held.{ExclusiveAt, IsDistinct, without_all}
use backup_lfs.Release.Loop.{IsQuietAt, release_locks-exclusive}

-- A commit of a live transaction whose locks are distinct and exclusive, with a round of fuel for each
-- of them and one more, where what applies the notes of a lock ends where they are good and of the
-- server's lists changes at most those notes, they are good at each of its locks, and `tr_yaffs_close`
-- ends and leaves the server's lists alone: the release ends without a fault, and leaves a valid list
-- without those locks; the transaction's node has none any more, and no more of the transactions and
-- nothing of the log changes.
pub release_locks_on_success-exclusive :
    (delayed_update delayed_write : Ptr → Code Server (Unit {0}))
    (tr_yaffs_close : ℤ → Code Server (Unit {0})) (fuel txnid : ℕ) (s : Server) (t : TxnNode)
    (ps : List Ptr) (cs : Cells) (Good : List WriteRecord → Type 0)
    → IsQuietAt s.event_log Good (apply_writes delayed_update delayed_write)
    → IsQuiet tr_yaffs_close
    → find_txn txnid s.txns ≡ some t
    → Owns s.locks t.file_rec_no ps
    → IsDistinct ps
    → All (λ (b : Ptr). ExclusiveAt b cs) ps
    → IsValid s.locks cs
    → All (λ (b : Ptr). Good (noted_in (s.locks.cell b))) ps
    → length ps < fuel
    → (woken : List ℕ) × (s' : Server) × (release_locks_on_success delayed_update delayed_write
          tr_yaffs_close fuel txnid s
        ≡ ok (woken, s'))
      × IsValid s'.locks (without_all ps cs)
      × (s'.txns ≡ update_txn_node txnid (λ u. record u { file_rec_no = null }) s.txns)
      × (s'.event_log ≡ s.event_log)
unfolding release_locks_on_success
release_locks_on_success-exclusive delayed_update delayed_write close fuel txnid s t ps cs Good
      quiet_at quiet live o d xs v good short =
    release_locks-exclusive (λ fd. ltb_ℤ (pos 0) fd) (λ fd. not (eqb_ℤ fd (pos 0))) close quiet
      s.event_log Good (apply_writes delayed_update delayed_write) quiet_at fuel txnid s t ps cs
      live o d xs v refl good short
