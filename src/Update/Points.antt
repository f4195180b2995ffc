-- ===== src/Update/Points.antt =====
-- What a transaction has done to a directory points to where the log says so.
use backup_lfs.Base.{ℕ, ◌≡◌, ◌≢◌, refl, ap, some, List, [], ◌∷◌, ◌++◌, length, ok, ne→==}
use backup_lfs.Base.Int.{ℤ, pos, negsuc, minus_one}
use backup_lfs.Header.{Ptr, null, FileLock, TxnNode, WriteRecord}
use backup_lfs.Txn.{find_txn, update_txn_node}
use backup_lfs.LockList.{Locks, write, load, modify}
use backup_lfs.LockList.Chain.{Cells, IsValid}
use backup_lfs.Server.{Server}
use backup_lfs.Locking.Owned.{written-IsValid}
use backup_lfs.Log.{LogRecord, rename, creat, unlink, na}
use backup_lfs.Log.Chain.{with_record, next_number}
use backup_lfs.Log.Paths.{string_record_bytes, log_rename-creat-unlink}
use backup_lfs.Update.{note_call, creat_log, unlink_log, rename_log}

abbrev pub call_record : (code lrn : ℤ) → WriteRecord
call_record code lrn = record { initial_off = pos 0; write_length = code; lrn = lrn }

-- The node with one more record.
abbrev pub noted : (code lrn : ℤ) → FileLock → FileLock
noted code lrn n = record n { writes_at = n.writes_at ++ call_record code lrn ∷ [] }

note_call-run :
    (l : Locks) (p : Ptr) (n : FileLock) (code lrn : ℤ)
    → p ≢ null
    → l.cell p ≡ some n
    → note_call p code lrn l ≡ ok (tt, write l p (some (noted code lrn n)))
unfolding note_call modify load
note_call-run l p n code lrn ne at = rw (ne→== p null ne, at) refl

module _ (txnid : ℕ) (s : Server) (t : TxnNode) (before after : List ℕ) (r : LogRecord) (old : ℤ)
    (live : find_txn txnid s.txns ≡ some t) (last : t.last_lrn ≡ pos (length before))
    (file : s.event_log ≡ with_record before r old after) where
  -- The server with a new record in its log, and with the locks.
  abbrev pub logged : (bs : List ℕ) → Locks → Server
  logged bs l =
      let lrn = next_number before r old after in
      record s {
        locks = l;
        txns = update_txn_node txnid (λ u. record u { last_lrn = lrn }) s.txns;
        event_log = with_record before r lrn after ++ bs;
      }

  -- A creation or a removal by a live transaction whose last record stands in the log where its node
  -- says, and that has a lock on the directory: the record is put at the end of the log, and the lock
  -- notes what was done and the number at which the record stands; nothing else changes, and the list
  -- of locks stays valid.
  pub creat_log-unlink_log :
      (path mode : List ℕ) (p : Ptr) (n : FileLock) (cs : Cells)
      → p ≢ null
      → s.locks.cell p ≡ some n
      → IsValid s.locks cs
      → (creat_log path mode p txnid s
          ≡ ok (
            tt,
            logged
                (string_record_bytes
                  (pos (length s.event_log))
                  txnid
                  (pos (length before))
                  creat
                  path
                  mode)
                (write s.locks p (some (noted (negsuc 3) (pos (length s.event_log)) n))),
          ))
        × (unlink_log path p txnid s
            ≡ ok (
              tt,
              logged
                  (string_record_bytes
                    (pos (length s.event_log))
                    txnid
                    (pos (length before))
                    unlink
                    path
                    na)
                  (write s.locks p (some (noted (negsuc 4) (pos (length s.event_log)) n))),
            ))
        × ((code lrn : ℤ) → IsValid (write s.locks p (some (noted code lrn n))) cs)
  unfolding creat_log unlink_log
  creat_log-unlink_log path mode p n cs ne at v =
      let (renamed, created, unlinked) =
        log_rename-creat-unlink txnid s t before after r old live last file path mode in
      let number = next_number before r old after in
      let here : pos (length s.event_log) ≡ number = ap (λ bytes. pos (length bytes)) file in
      (
        rw (here, created, note_call-run s.locks p n (negsuc 3) number ne at) refl,
        rw (here, unlinked, note_call-run s.locks p n (negsuc 4) number ne at) refl,
        λ code lrn. written-IsValid s.locks p n (noted code lrn n) at (refl, refl, refl, refl) cs v,
      )

  -- A rename between two directories by such a transaction with a lock on each: both locks note the
  -- number at which the record stands, as the old and the new end; a rename within one directory is
  -- noted once, as both.
  pub rename_log-both :
      (path path' : List ℕ) (p q : Ptr) (n m : FileLock)
      → p ≢ null
      → q ≢ null
      → p ≢ q
      → s.locks.cell p ≡ some n
      → s.locks.cell q ≡ some m
      → (rename_log path path' p q txnid s
          ≡ ok (
            tt,
            logged
                (string_record_bytes
                  (pos (length s.event_log))
                  txnid
                  (pos (length before))
                  rename
                  path
                  path')
                (write
                  (write s.locks p (some (noted minus_one (pos (length s.event_log)) n)))
                  q
                  (some (noted (negsuc 1) (pos (length s.event_log)) m))),
          ))
        × (rename_log path path' p null txnid s
            ≡ ok (
              tt,
              logged
                  (string_record_bytes
                    (pos (length s.event_log))
                    txnid
                    (pos (length before))
                    rename
                    path
                    path')
                  (write s.locks p (some (noted (negsuc 2) (pos (length s.event_log)) n))),
            ))
  unfolding rename_log
  rename_log-both path path' p q n m ne ne' apart at at' =
      let (renamed, created, unlinked) =
        log_rename-creat-unlink txnid s t before after r old live last file path path' in
      let number = next_number before r old after in
      let here : pos (length s.event_log) ≡ number = ap (λ bytes. pos (length bytes)) file in
      let l = write s.locks p (some (noted minus_one number n)) in
      let there : l.cell q ≡ some m = rw (ne→== p q apart) at' in
      (
        rw
            (
              here,
              renamed,
              ne→== q null ne',
              note_call-run s.locks p n minus_one number ne at,
              note_call-run l q m (negsuc 1) number ne' there,
            )
            refl,
        rw (here, renamed, note_call-run s.locks p n (negsuc 2) number ne at) refl,
      )
