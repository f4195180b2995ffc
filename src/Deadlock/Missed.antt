-- ===== src/Deadlock/Missed.antt =====
-- The walk of the waiting transactions stays at the first lock of a file while its owner is not
-- among them.
use backup_lfs.Base.{
  ℕ, zero, suc, ◌<◌, ◌≡◌, ◌≢◌, refl, ap, some, List, [], ◌∷◌, arith, length, All, ok, ne→==,
}
use backup_lfs.Header.{Ptr, null}
use backup_lfs.LockList.{Locks, load}
use backup_lfs.LockList.Chain.{Lock, Cells, IsLockList}
use backup_lfs.Deadlock.{Name, scan_waiting, edges_of}
use backup_lfs.Deadlock.Holders.{first_lock, Held, find_holder-Held}

-- The transaction is not waiting.
abbrev pub IsBusy : ℕ → List Name → Type 0
IsBusy t names = All (λ (x : Name). x.1 ≢ t) names

module _ (s : Locks) where
  scan_waiting-IsBusy :
      (k : ℕ) (all rest : List Name) (a : Ptr) (l : Lock) (edges : List ℕ)
      → Held s a l
      → IsBusy l.owner rest
      → length rest < k
      → scan_waiting k all rest a edges s ≡ ok ((edges, a), s)
  unfolding scan_waiting load
  scan_waiting-IsBusy zero all rest a l edges held busy short = absurd (omega arith)
  scan_waiting-IsBusy (suc k) all [] a l edges held busy short = refl
  scan_waiting-IsBusy (suc k) all ((i, t) ∷ rest) a l edges (ne, n, at, lk) (other, busy) short =
      let owner : n.parent_txn ≡ l.owner = ap (λ (x : Lock). x.owner) lk in
      rw (ne→== a null ne, at, owner, ne→== t l.owner other)
        (scan_waiting-IsBusy k all rest a l edges (ne, n, at, lk) busy (omega arith))

  -- Where the owner of the first lock on a file is not waiting, a transaction that waits for the file
  -- gets no edge, whatever other shared locks on the file there are and whoever owns them; with a
  -- round of fuel for each lock and one more, and for each waiting transaction and one more.
  pub edges_of-IsBusy :
      (fuel f : ℕ) (before after : List Name) (cs : Cells) (a : Ptr) (l : Lock)
      → IsLockList s cs
      → first_lock f cs ≡ some (a, l)
      → IsBusy l.owner before
      → IsBusy l.owner after
      → length cs < fuel
      → length before < fuel
      → length after < fuel
      → edges_of fuel before after f s ≡ ok ([], s)
  unfolding edges_of
  edges_of-IsBusy fuel f before after cs a l c found b_busy a_busy short b_short a_short =
      let (run, held) = find_holder-Held s fuel f s.head s.head cs a l c found short in
      rw
        (
          run,
          scan_waiting-IsBusy fuel after after a l [] held a_busy a_short,
          scan_waiting-IsBusy fuel before before a l [] held b_busy b_short,
        )
        refl
