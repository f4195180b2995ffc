-- ===== src/Release/Loop.antt =====
-- The release of all locks of a transaction, where they are exclusive.
use backup_lfs.Base.{
  ℕ, zero, suc, ◌<◌, ◌≡◌, ◌≢◌, refl, sym, ◌∙◌, ap, subst, Bool, some, List, [], ◌∷◌, ◌++◌, arith,
  All, length, ok, Code, pure, ℕ_discrete, eq→==, ne→==,
}
use std.Path.{fun_ext}
use backup_lfs.Base.Int.{ℤ, pos, leb_ℤ}
use backup_lfs.Header.{Ptr, null, FileLock, TxnNode, WriteRecord}
use backup_lfs.Txn.{find_txn, update_txn_node}
use backup_lfs.LockList.{Locks, write, load, delete_file_list}
use backup_lfs.LockList.Chain.{Cells, IsValid}
use backup_lfs.LockList.Frame.{Keeps-run}
use backup_lfs.WaitList.{search_wait_list}
use backup_lfs.Server.{Server, load_txn, modify_txn}
use backup_lfs.Locking.Frame.{Kept-write}
use backup_lfs.Locking.Owned.{Owns, Owns-Kept, written-IsValid}
use backup_lfs.Release.{release_lock, release_loop, release_locks, release_locks_on_abort}
use backup_lfs.Release.Exclusive.{IsQuiet, woken_by, release_lock-exclusive}
use backup_lfs.Release.Survive.{
  Survives, Survives-Frame, noted_in, write-Survives, noted-Survives, delete_file_list-Survives,
  Owns-Survives,
}
use backup_lfs.Release.Held.{
  ExclusiveAt, without, without_all, IsDistinct, All-ExclusiveAt-without, IsValid-at,
}

pub write-at : (s : Locks) (a : Ptr) (n : FileLock) → (write s a (some n)).cell a ≡ some n
write-at s a n = rw (eq→== a a refl) refl

-- A node that is written as it is leaves the locks as they are.
pub write-same : (s : Locks) (a : Ptr) (n : FileLock) → s.cell a ≡ some n → s ≡ write s a (some n)
write-same s a n at = ap (λ cell. record s { cell = cell }) (fun_ext same)
  where
    same : (q : Ptr) → s.cell q ≡ (write s a (some n)).cell q
    same q = elim (ℕ_discrete a q) [
      | yes e ↦ rw (eq→== a q e) (ap s.cell (sym e) ∙ at)
      | no ne ↦ rw (ne→== a q ne) refl
    ]

-- What comes before the release of a lock ends, and of the server's lists changes at most the
-- writes that the node of the lock has, where the log is `log` and the writes are good.
abbrev pub IsQuietAt :
    (log : List ℕ) (Good : List WriteRecord → Type 0) → (Ptr → Code Server (Unit {0})) → Type 0
IsQuietAt log Good before =
    (p : Ptr) (n : FileLock) (s : Server)
    → p ≢ null
    → s.locks.cell p ≡ some n
    → s.event_log ≡ log
    → Good n.writes_at
    → (ws : List WriteRecord) × (s' : Server) × (before p s ≡ ok (tt, s'))
      × (s'.locks ≡ write s.locks p (some (record n { writes_at = ws })))
      × (s'.waits ≡ s.waits)
      × (s'.txns ≡ s.txns)
      × (s'.event_log ≡ s.event_log)

-- One round of the loop, by what its calls do.
release_loop-round :
    (closes_idle closes : ℤ → Bool) (close : ℤ → Code Server (Unit {0}))
    (before : Ptr → Code Server (Unit {0})) (k : ℕ) (s s0 s1 s2 : Server) (a : Ptr) (n : FileLock)
    (woken later : List ℕ)
    → a ≢ null
    → before a s ≡ ok (tt, s0)
    → s0.locks.cell a ≡ some n
    → release_lock closes_idle closes close a n (search_wait_list n.file_inode s0.waits) s0
      ≡ ok (woken, s1)
    → release_loop closes_idle closes close before k n.next_txn s1 ≡ ok (later, s2)
    → release_loop closes_idle closes close before (suc k) a s ≡ ok (woken ++ later, s2)
unfolding release_loop load
release_loop-round closes_idle closes close before k s s0 s1 s2 a n woken later ne done at released
      looped =
    rw (ne→== a null ne, done, ne→== a null ne, at, released, looped) refl

module _ (closes_idle closes : ℤ → Bool) (close : ℤ → Code Server (Unit {0}))
    (quiet : IsQuiet close) (log : List ℕ) (Good : List WriteRecord → Type 0)
    (before : Ptr → Code Server (Unit {0})) (quiet_at : IsQuietAt log Good before) where
  release_loop-exclusive :
      (k : ℕ) (s : Server) (p : Ptr) (ps : List Ptr) (cs : Cells)
      → Owns s.locks p ps
      → IsDistinct ps
      → All (λ (b : Ptr). ExclusiveAt b cs) ps
      → IsValid s.locks cs
      → s.event_log ≡ log
      → All (λ (b : Ptr). Good (noted_in (s.locks.cell b))) ps
      → length ps < k
      → (woken : List ℕ) × (s' : Server) × (release_loop closes_idle closes close before k p s
          ≡ ok (woken, s'))
        × IsValid s'.locks (without_all ps cs)
        × (s'.waits ≡ s.waits)
        × (s'.txns ≡ s.txns)
        × (s'.event_log ≡ s.event_log)
  unfolding release_loop load
  release_loop-exclusive zero s p ps cs o d xs v e good short = absurd (omega arith)
  release_loop-exclusive (suc k) s p [] cs o d xs v e good short =
      ([], s, rw (eq→== p null o) refl, v, refl, refl, refl)
  release_loop-exclusive (suc k) s p (a ∷ ps) cs (e, ne, n, at, rest) (apart, d) (x, xs) v is
        (here, good) short =
      let (ws, s0, done, locks0, waits0, txns0, log0) =
        quiet_at a n s ne at is (subst Good (ap noted_in at) here) in
      let n0 : FileLock = record n { writes_at = ws } in
      let v0 =
        subst (λ l. IsValid l cs) (sym locks0)
          (written-IsValid s.locks a n n0 at (refl, refl, refl, refl) cs v) in
      let kept = Kept-write a (λ m. record m { writes_at = ws }) (λ m. refl) s.locks n at in
      let at0 : s0.locks.cell a ≡ some n0 =
        ap (λ (l : Locks). l.cell a) locks0 ∙ write-at s.locks a n0 in
      let (pre, post, v', w, m) = IsValid-at s0.locks a n0 cs v0 x at0 in
      let (s1, released, v1, ran, waits, txns, log1) =
        release_lock-exclusive closes_idle closes close quiet s0 a n0 pre post v' m in
      let survive =
        Keeps-run (delete_file_list a) tt s0.locks s1.locks (delete_file_list-Survives a) ran in
      let from_start : Survives a s.locks s1.locks =
        (Survives-Frame a).trans s.locks s0.locks s1.locks
          (subst (Survives a s.locks) (sym locks0) (write-Survives a s.locks (some n0))) survive in
      let (woken, s2, looped, v2, waits', txns', log') =
        release_loop-exclusive k s1 n.next_txn ps (without a cs)
          (Owns-Survives a s0.locks s1.locks n.next_txn ps survive apart (
            subst (λ l. Owns l n.next_txn ps) (sym locks0)
              (Owns-Kept s.locks (write s.locks a (some n0)) n.next_txn ps kept rest)))
          d (All-ExclusiveAt-without a ps cs apart xs) (subst (IsValid s1.locks) (sym w) v1)
          (log1 ∙ log0 ∙ is)
          (noted-Survives a Good s.locks s1.locks n.next_txn ps from_start apart rest good)
          (omega arith) in
      (
        woken_by (search_wait_list n.file_inode s0.waits) n.file_inode ++ woken,
        s2,
        ap (λ q. release_loop closes_idle closes close before (suc k) q s) e
            ∙ release_loop-round closes_idle closes close before k s s0 s1 s2 a n0 _ woken ne done
                at0 released looped,
        v2,
        waits' ∙ waits ∙ waits0,
        txns' ∙ txns ∙ txns0,
        log' ∙ log1 ∙ log0,
      )

  -- The loop from the list that the transaction's node has.
  pub release_locks-exclusive :
      (fuel txnid : ℕ) (s : Server) (t : TxnNode) (ps : List Ptr) (cs : Cells)
      → find_txn txnid s.txns ≡ some t
      → Owns s.locks t.file_rec_no ps
      → IsDistinct ps
      → All (λ (b : Ptr). ExclusiveAt b cs) ps
      → IsValid s.locks cs
      → s.event_log ≡ log
      → All (λ (b : Ptr). Good (noted_in (s.locks.cell b))) ps
      → length ps < fuel
      → (woken : List ℕ) × (s' : Server) × (release_locks closes_idle closes close before fuel txnid
            s
          ≡ ok (woken, s'))
        × IsValid s'.locks (without_all ps cs)
        × (s'.txns ≡ update_txn_node txnid (λ u. record u { file_rec_no = null }) s.txns)
        × (s'.event_log ≡ s.event_log)
  unfolding release_locks load_txn modify_txn
  release_locks-exclusive fuel txnid s t ps cs live o d xs v is good short =
      let empty : TxnNode → TxnNode = λ u. record u { file_rec_no = null } in
      let s1 : Server = record s { txns = update_txn_node txnid empty s.txns } in
      let (woken, s', run, v', waits, txns, same) =
        release_loop-exclusive fuel s1 t.file_rec_no ps cs o d xs v is good short in
      (woken, s', rw (live, run) refl, v', txns, same)

All-Unit : (ps : List Ptr) → All (λ (b : Ptr). Unit {0}) ps
All-Unit [] = tt
All-Unit (p ∷ ps) = (tt, All-Unit ps)

-- An abort of a live transaction whose locks are distinct and exclusive, with a round of fuel for
-- each of them and one more, where `tr_yaffs_close_abort` ends and leaves the server's lists alone:
-- it ends without a fault, and leaves a valid list without those locks; the transaction's node has
-- none any more, and no more of the transactions and nothing of the log changes.
pub release_locks_on_abort-exclusive :
    (tr_yaffs_close_abort : ℤ → Code Server (Unit {0})) (fuel txnid : ℕ) (s : Server) (t : TxnNode)
    (ps : List Ptr) (cs : Cells)
    → IsQuiet tr_yaffs_close_abort
    → find_txn txnid s.txns ≡ some t
    → Owns s.locks t.file_rec_no ps
    → IsDistinct ps
    → All (λ (b : Ptr). ExclusiveAt b cs) ps
    → IsValid s.locks cs
    → length ps < fuel
    → (woken : List ℕ) × (s' : Server) × (release_locks_on_abort tr_yaffs_close_abort fuel txnid s
        ≡ ok (woken, s'))
      × IsValid s'.locks (without_all ps cs)
      × (s'.txns ≡ update_txn_node txnid (λ u. record u { file_rec_no = null }) s.txns)
      × (s'.event_log ≡ s.event_log)
unfolding release_locks_on_abort
release_locks_on_abort-exclusive close fuel txnid s t ps cs quiet live o d xs v short =
    release_locks-exclusive (λ fd. leb_ℤ (pos 0) fd) (λ fd. leb_ℤ (pos 0) fd) close quiet
      s.event_log (λ ws. Unit) (λ p. pure tt)
      (λ p n u ne at is good. (n.writes_at, u, refl, write-same u.locks p n at, refl, refl, refl))
      fuel txnid s t ps cs live o d xs v refl (All-Unit ps) short
