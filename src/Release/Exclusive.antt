-- ===== src/Release/Exclusive.antt =====
-- The release of a transaction's exclusive locks.
use backup_lfs.Base.{
  ℕ, ◌≡◌, refl, ◌∙◌, ap, inl, inr, Bool, false, Option, none, some, List, [], ◌∷◌, ◌++◌, arith,
  ◌==◌, ok, Code, pure, ◌>>◌, Bool-cases,
}
use backup_lfs.Base.Int.{ℤ}
use backup_lfs.Header.{Ptr, FileLock, WaitNode}
use backup_lfs.LockList.{delete_file_list}
use backup_lfs.LockList.Chain.{Lock, lock_of, Cells, IsValid}
use backup_lfs.WaitList.{search_wait_list}
use backup_lfs.Server.{Server, on_locks}
use backup_lfs.Release.{close_file, release_lock}
use backup_lfs.Release.Remove.{delete_file_list-IsValid, exclusive-IsAlone}

-- The files whose waiting threads a release wakes.
abbrev pub woken_by : Option WaitNode → ℕ → List ℕ
woken_by none f = []
woken_by (some w) f = f ∷ []

-- `close` ends, and leaves the locks, the wait list and the transactions alone.
abbrev pub IsQuiet : {A : Type 0} → (A → Code Server (Unit {0})) → Type 0
IsQuiet {A} close =
    (fd : A) (s : Server)
    → (s' : Server) × (close fd s ≡ ok (tt, s'))
      × (s'.locks ≡ s.locks)
      × (s'.waits ≡ s.waits)
      × (s'.txns ≡ s.txns)
      × (s'.event_log ≡ s.event_log)

module _ (closes_idle closes : ℤ → Bool) (close : ℤ → Code Server (Unit {0}))
    (quiet : IsQuiet close) where
  close_file-quiet :
      (test : ℤ → Bool) (fd : ℤ) (s : Server)
      → (s' : Server) × (close_file test close fd s ≡ ok (tt, s'))
        × (s'.locks ≡ s.locks)
        × (s'.waits ≡ s.waits)
        × (s'.txns ≡ s.txns)
        × (s'.event_log ≡ s.event_log)
  unfolding close_file
  close_file-quiet test fd s = elim (Bool-cases (test fd)) [
    | inl yes_close ↦ rw yes_close (quiet fd s)
    | inr open_not ↦ rw open_not (s, refl, refl, refl, refl, refl)
  ]

  -- Closing the file and taking out the node.
  close-delete :
      (test : ℤ → Bool) (fd : ℤ) (woken : List ℕ) (s : Server) (a : Ptr) (l : Lock)
      (pre post : Cells)
      → IsValid s.locks (pre ++ (a, l) ∷ post)
      → l.mode ≡ 1
      → (s' : Server) × ((do close_file test close fd; on_locks (delete_file_list a); pure woken) s
          ≡ ok (woken, s'))
        × IsValid s'.locks (pre ++ post)
        × (delete_file_list a s.locks ≡ ok (tt, s'.locks))
        × (s'.waits ≡ s.waits)
        × (s'.txns ≡ s.txns)
        × (s'.event_log ≡ s.event_log)
  close-delete test fd woken s a l pre post v e =
      let (s1, closed, locks, waits, txns, log) = close_file-quiet test fd s in
      let (l', run, v', gone) =
        delete_file_list-IsValid s.locks a l pre post v
          (exclusive-IsAlone pre a l post v.ordered e) in
      let run1 : delete_file_list a s1.locks ≡ ok (tt, l') = ap (delete_file_list a) locks ∙ run in
      (record s1 { locks = l' }, rw (closed, run1) refl, v', run, waits, txns, log)

  -- On a valid list, the release of an exclusive lock ends without a fault where `close` does,
  -- takes out that lock and leaves the list valid, and wakes the file's threads exactly if it has a
  -- wait node.
  pub release_lock-exclusive :
      (s : Server) (a : Ptr) (n : FileLock) (pre post : Cells)
      → IsValid s.locks (pre ++ (a, lock_of n) ∷ post)
      → n.file_mode ≡ 1
      → (s' : Server) × (release_lock closes_idle closes close a n
            (search_wait_list n.file_inode s.waits)
            s
          ≡ ok (woken_by (search_wait_list n.file_inode s.waits) n.file_inode, s'))
        × IsValid s'.locks (pre ++ post)
        × (delete_file_list a s.locks ≡ ok (tt, s'.locks))
        × (s'.waits ≡ s.waits)
        × (s'.txns ≡ s.txns)
        × (s'.event_log ≡ s.event_log)
  unfolding release_lock
  release_lock-exclusive s a n pre post v e = go (search_wait_list n.file_inode s.waits)
    where
      go :
          (o : Option WaitNode)
          → (s' : Server) × (release_lock closes_idle closes close a n o s
              ≡ ok (woken_by o n.file_inode, s'))
            × IsValid s'.locks (pre ++ post)
            × (delete_file_list a s.locks ≡ ok (tt, s'.locks))
            × (s'.waits ≡ s.waits)
            × (s'.txns ≡ s.txns)
            × (s'.event_log ≡ s.event_log)
      go none = close-delete closes_idle n.fd [] s a (lock_of n) pre post v e
      go (some w) =
          let writes : (n.file_mode == 0) ≡ false = ground (arith, e) in
          rw writes (close-delete closes n.fd (n.file_inode ∷ []) s a (lock_of n) pre post v e)
