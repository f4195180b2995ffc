-- ===== src/Calls/Creates.antt =====
-- Creating a file, as a whole call.
use backup_lfs.Base.{
  ℕ, ◌<◌, lt→ltb, ◌≡◌, refl, sym, ◌∙◌, ap, subst, inl, inr, some, List, [], ◌∷◌, ◌++◌, length, ok,
  ==_self,
}
use backup_lfs.Base.Int.{ℤ, pos, negsuc}
use backup_lfs.Header.{Ptr, FileLock, TxnNode, WriteRecord}
use backup_lfs.Txn.{find_txn}
use backup_lfs.LockList.{write}
use backup_lfs.LockList.Chain.{Cells, IsValid}
use backup_lfs.Server.{Server}
use backup_lfs.Locking.{Outcome, granted, blocked, paused, aborted}
use backup_lfs.Log.{LogRecord, creat}
use backup_lfs.Log.Chain.{with_record, next_number}
use backup_lfs.Log.Paths.{string_record_bytes}
use backup_lfs.Update.Points.{call_record, noted, logged, creat_log-unlink_log}
use backup_lfs.Calls.{
  Outside, Progress, finished, suspended, then_locked, on_creat_locked, on_creat,
}
use backup_lfs.Calls.Answer.{MayAsk, Held, lock_file-Held, set_fd-IsValid}
use backup_lfs.Calls.Opens.{Ends}

-- The log of a creation, and the note of it in the lock on the directory.
abbrev pub CreatNoted :
    (txnid : ℕ) (path mode before after : List ℕ) (e : LogRecord) (number : ℤ)
    → Server
    → FileLock
    → Type 0
CreatNoted txnid path mode before after e number s n =
    (s.event_log
      ≡ with_record before e number after
        ++ string_record_bytes number txnid (pos (length before)) creat path mode)
    × (ws : List WriteRecord) × (n.writes_at ≡ ws ++ call_record (negsuc 3) number ∷ [])

on_creat_locked-Ends :
    (o : Outside) (fuel txnid f : ℕ) (path mode before after : List ℕ) (e : LogRecord)
    (old inode : ℤ) (t : TxnNode) (s : Server) (cs cs' : Cells) (r : Outcome)
    → ((s' : Server) → o.tr_ext_creat_yaffs_creat path mode s' ≡ ok (inode, s'))
    → find_txn txnid s.txns ≡ some t
    → t.last_lrn ≡ pos (length before)
    → s.event_log ≡ with_record before e old after
    → IsValid s.locks cs'
    → Held f txnid cs cs' r s.locks
    → (p : Progress) × (s' : Server) × (then_locked r (on_creat_locked o fuel txnid path mode) s
        ≡ ok (p, s'))
      × IsValid s'.locks cs'
      × Ends f txnid cs inode
          (CreatNoted txnid path mode before after e (pos (length s.event_log)))
          p
          s'
          cs'
unfolding on_creat_locked
on_creat_locked-Ends o fuel txnid f path mode before after e old inode t s cs cs' (granted q)
      creates live last file v (own, n, ne, at) =
    let (run, v') = set_fd-IsValid s.locks q n (pos 0) cs' ne at v in
    let m = record n { fd = pos 0; file_offset = pos 0 } in
    let s1 : Server = record s { locks = write s.locks q (some m) } in
    let there : s1.locks.cell q ≡ some m = rw (==_self q) refl in
    let number = pos (length s.event_log) in
    let here : next_number before e old after ≡ number =
      ap (λ (bs : List ℕ). pos (length bs)) (sym file) in
    let (created, _, keeps) =
      creat_log-unlink_log txnid s1 t before after e old live last file path mode q m cs' ne there
        v' in
    let bytes = string_record_bytes number txnid (pos (length before)) creat path mode in
    let s2 =
      logged txnid s1 t before after e old live last file bytes
        (write s1.locks q (some (noted (negsuc 3) number m))) in
    (
      finished inode,
      s2,
      rw (run, created, creates s2) refl,
      keeps (negsuc 3) number,
      inr (
        refl,
        q,
        noted (negsuc 3) number m,
        own,
        rw (==_self q) refl,
        (ap (λ k. with_record before e k after ++ bytes) here, n.writes_at, refl),
      ),
    )
on_creat_locked-Ends o fuel txnid f path mode before after e old inode t s cs cs' blocked creates
      live last file v held =
    (suspended, s, refl, v, inl (refl, held))
on_creat_locked-Ends o fuel txnid f path mode before after e old inode t s cs cs' paused creates
      live last file v h =
    absurd h
on_creat_locked-Ends o fuel txnid f path mode before after e old inode t s cs cs' aborted creates
      live last file v h =
    absurd h

-- A live transaction that the backup lets through, whose last record stands in the log where its node
-- says, creates a file, with a path of at most 255 characters, a fresh node and fuel for the locks,
-- where YAFFS has an inode for the parent of what `dirname` leaves of the path, which is the directory
-- above the file's own one, and creates the file, and both calls of it leave the server alone: the call
-- ends without a fault. It sleeps, with the locks as before, or answers what YAFFS answers; then the
-- transaction has a lock on that inode, the log has the record of the creation at its end, linked with
-- the last one, and the lock notes the creation last, with the number of that record. The lock list
-- stays valid.
pub on_creat-Ends :
    (o : Outside) (fuel txnid f : ℕ) (path mode before after : List ℕ) (e : LogRecord)
    (old inode : ℤ) (s : Server) (t : TxnNode) (ps : List Ptr) (new : Ptr) (cs : Cells)
    → length path < 256
    → o.tr_object_id_parent_from_path (o.dirname path).1 s ≡ ok (f, s)
    → ((s' : Server) → o.tr_ext_creat_yaffs_creat path mode s' ≡ ok (inode, s'))
    → t.last_lrn ≡ pos (length before)
    → s.event_log ≡ with_record before e old after
    → MayAsk o fuel txnid s t ps new cs
    → (p : Progress) × (s' : Server) × (cs' : Cells) × (on_creat o fuel txnid path mode new s
        ≡ ok (p, s'))
      × IsValid s'.locks cs'
      × Ends f txnid cs inode
          (CreatNoted txnid path mode before after e (pos (length s.event_log)))
          p
          s'
          cs'
unfolding on_creat
on_creat-Ends o fuel txnid f path mode before after e old inode s t ps new cs fits named creates
      last file may =
    let (r, s1, cs', asked, v, (same_log, kept), held) =
      lock_file-Held o fuel txnid f 2 s t ps new cs may in
    let (t', live', same) = kept txnid t may.client.live in
    let (p, s2, run, v', ends) =
      on_creat_locked-Ends o fuel txnid f path mode before after e old inode t' s1 cs cs' r creates
        live' (same ∙ last) (same_log ∙ file) v held in
    (
      p,
      s2,
      cs',
      rw (lt→ltb (length path) 256 fits, named, asked) run,
      v',
      subst
          (λ (bs : List ℕ).
            Ends f txnid cs inode (CreatNoted txnid path mode before after e (pos (length bs))) p s2
              cs')
          same_log ends,
    )
