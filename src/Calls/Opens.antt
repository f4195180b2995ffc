-- ===== src/Calls/Opens.antt =====
-- Opening a file, as a whole call.
use backup_lfs.Base.{
  ℕ, ◌<◌, length, lt→ltb, ◌≡◌, refl, sym, subst, ◌⊎◌, inl, inr, some, List, ok, false, ==_self,
}
use backup_lfs.Base.Int.{ℤ, pos, minus_one, eqb_ℤ}
use backup_lfs.Header.{Ptr, FileLock, TxnNode}
use backup_lfs.LockList.{write}
use backup_lfs.LockList.Chain.{Cells, IsValid}
use backup_lfs.Server.{Server}
use backup_lfs.Locking.{Outcome, granted, blocked, paused, aborted}
use backup_lfs.Locking.Same.{SameLog, LastKept, SameLog-trans, same-LastKept}
use backup_lfs.Locking.Answers.{OwnLock}
use backup_lfs.Calls.{
  Outside, Progress, finished, suspended, file_open_flags, open_mode, then_locked, on_open_locked,
  on_open,
}
use backup_lfs.Calls.Answer.{MayAsk, Held, lock_file-Held, set_fd-IsValid}

-- What a call that needs one lock ends with: it sleeps and the locks are as before, or it has ended
-- with the answer and the transaction has a lock on the file, of which `P` holds.
abbrev pub Ends :
    (f txnid : ℕ) (cs : Cells) (answer : ℤ) (P : Server → FileLock → Type 0)
    → Progress
    → Server
    → Cells
    → Type 0
Ends f txnid cs answer P p s' cs' =
    ((p ≡ suspended) × (cs' ≡ cs))
    ⊎ ((p ≡ finished answer)
        × (q : Ptr) × (n : FileLock) × OwnLock f txnid q cs'
        × (s'.locks.cell q ≡ some n)
        × P s' n)

on_open_locked-Ends :
    (o : Outside) (fuel txnid f k : ℕ) (path : List ℕ) (fd : ℤ) (s : Server) (cs cs' : Cells)
    (r : Outcome)
    → ((s' : Server) → o.tr_file_open_without_mode path (open_mode k) s' ≡ ok (fd, s'))
    → eqb_ℤ fd minus_one ≡ false
    → IsValid s.locks cs'
    → Held f txnid cs cs' r s.locks
    → (p : Progress) × (s' : Server) × (then_locked r (on_open_locked o fuel txnid path k) s
        ≡ ok (p, s'))
      × IsValid s'.locks cs'
      × (s'.event_log ≡ s.event_log)
      × (s'.txns ≡ s.txns)
      × Ends f txnid cs fd (λ s' n. (n.fd ≡ fd) × (n.file_offset ≡ pos 0)) p s' cs'
unfolding on_open_locked
on_open_locked-Ends o fuel txnid f k path fd s cs cs' (granted q) opens good v (own, n, ne, at) =
    let (run, v') = set_fd-IsValid s.locks q n fd cs' ne at v in
    let m = record n { fd = fd; file_offset = pos 0 } in
    (
      finished fd,
      record s { locks = write s.locks q (some m) },
      rw (opens s, good, run) refl,
      v',
      refl,
      refl,
      inr (refl, q, m, own, rw (==_self q) refl, (refl, refl)),
    )
on_open_locked-Ends o fuel txnid f k path fd s cs cs' blocked opens good v same =
    (suspended, s, refl, v, refl, refl, inl (refl, same))
on_open_locked-Ends o fuel txnid f k path fd s cs cs' paused opens good v h = absurd h
on_open_locked-Ends o fuel txnid f k path fd s cs cs' aborted opens good v h = absurd h

-- A live transaction that the backup lets through opens a file, with a path of at most 254 characters,
-- a text for the flags that the server knows, a fresh node and fuel for the locks, where YAFFS opens the file and both calls of it
-- leave the server alone: the call ends without a fault. It sleeps, with the locks as before, or
-- answers YAFFS's descriptor, and the transaction has a lock on the file with that descriptor, at the
-- offset 0. The lock list stays valid; the log and the transactions' last records are as before.
pub on_open-Ends :
    (o : Outside) (fuel txnid f k : ℕ) (path flags : List ℕ) (fd : ℤ) (s : Server) (t : TxnNode)
    (ps : List Ptr) (new : Ptr) (cs : Cells)
    → length path < 255
    → o.tr_object_id_from_path path s ≡ ok (f, s)
    → file_open_flags flags ≡ some k
    → ((s' : Server) → o.tr_file_open_without_mode path (open_mode k) s' ≡ ok (fd, s'))
    → eqb_ℤ fd minus_one ≡ false
    → MayAsk o fuel txnid s t ps new cs
    → (p : Progress) × (s' : Server) × (cs' : Cells) × (on_open o fuel txnid path flags new s
        ≡ ok (p, s'))
      × IsValid s'.locks cs'
      × SameLog s s'
      × Ends f txnid cs fd (λ s' n. (n.fd ≡ fd) × (n.file_offset ≡ pos 0)) p s' cs'
unfolding on_open
on_open-Ends o fuel txnid f k path flags fd s t ps new cs fits named known opens good may =
    let (r, s1, cs', asked, v, same, held) = lock_file-Held o fuel txnid f k s t ps new cs may in
    let (p, s2, run, v', same_log, same_txns, ends) =
      on_open_locked-Ends o fuel txnid f k path fd s1 cs cs' r opens good v held in
    (
      p,
      s2,
      cs',
      rw (lt→ltb (length path) 255 fits, named, known, asked) run,
      v',
      SameLog-trans s s1 s2 same
          (same_log, subst (LastKept s1.txns) (sym same_txns) (same-LastKept s1.txns)),
      ends,
    )
