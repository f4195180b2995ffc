-- ===== src/Update/Runs.antt =====
-- What a write does, at whatever offset.
use backup_lfs.Base.{
  ℕ, zero, suc, ◌<◌, ◌≡◌, ◌≢◌, refl, sym, ◌∙◌, ap, Option, none, some, List, [], ◌∷◌, ◌++◌, arith,
  length, ok, Code, ne→==, ==_self, if◌then◌else◌, Bool-cases, inl, inr,
}
use backup_lfs.Base.Int.{ℤ, pos, eqb_ℤ}
use backup_lfs.Header.{Ptr, null, FileLock, TxnNode, WriteRecord}
use backup_lfs.Txn.{find_txn}
use backup_lfs.LockList.{Locks, write, load, modify}
use backup_lfs.LockList.Chain.{Cells, Linked, IsValid}
use backup_lfs.Server.{Server}
use backup_lfs.Locking.Owned.{written-IsValid}
use backup_lfs.Log.{LogRecord, string_bytes}
use backup_lfs.Log.Chain.{with_record, next_number, update_record, new_bytes, log_write-Links}
use backup_lfs.Update.{seek_fd, write_offset, noted_write, set_last_lrn, write_log}
use backup_lfs.Update.Points.{logged}

abbrev or_pointer : ℤ → Ptr → Option FileLock → Option Ptr → Option Ptr
or_pointer fd a none further = none
or_pointer fd a (some n) further = if eqb_ℤ n.fd fd then some a else further

-- The address of the first node of the list with the descriptor.
abbrev pub pointer_with : ℤ → (Ptr → Option FileLock) → Cells → Option Ptr
pointer_with fd h [] = none
pointer_with fd h ((a, l) ∷ cs) = or_pointer fd a (h a) (pointer_with fd h cs)

pub seek_fd-pointer_with :
    (fuel : ℕ) (fd : ℤ) (before p q : Ptr) (cs : Cells) (s : Locks)
    → Linked s.cell before p cs
    → length cs < fuel
    → pointer_with fd s.cell cs ≡ some q
    → (seek_fd fuel fd p s ≡ ok (q, s)) × (q ≢ null)
unfolding seek_fd load
seek_fd-pointer_with zero fd before p q cs s c short found = absurd (omega arith)
seek_fd-pointer_with (suc k) fd before p q [] s e short found = absurd (ground (arith, found))
seek_fd-pointer_with (suc k) fd before p q ((a, l) ∷ cs) s (n, e, ne, at, lk, pv, out, rest) short
      found =
    elim (Bool-cases (eqb_ℤ n.fd fd)) [
      | inl hit ↦
          let same : a ≡ q = ground (arith, found, at, hit) in
          (rw (e, ne→== a null ne, at, hit, same) refl, λ z. ne (same ∙ z))
      | inr miss ↦
          let (run, there) =
            seek_fd-pointer_with k fd a n.next q cs s rest (omega arith)
              (ground (arith, found, at, miss)) in
          (rw (e, ne→== a null ne, at, miss, run) refl, there)
    ]

set_last-append :
    (lrn : ℤ) (ws : List WriteRecord) (w : WriteRecord)
    → set_last_lrn lrn (ws ++ w ∷ []) ≡ ws ++ record w { lrn = lrn } ∷ []
set_last-append lrn [] w = refl
set_last-append lrn (v ∷ []) w = refl
set_last-append lrn (v ∷ u ∷ ws) w = ap (λ zs. v ∷ zs) (set_last-append lrn (u ∷ ws) w)

-- The node behind a write of `write_length` bytes at `offset`, with the number of its log record.
abbrev pub written_node : (offset : ℤ) (write_length : ℕ) (lrn : ℤ) → FileLock → FileLock
written_node offset write_length lrn n = record (noted_write offset write_length n) {
  writes_at =
      n.writes_at
      ++ record { initial_off = offset; write_length = pos write_length; lrn = lrn } ∷ [];
}

pub load-run :
    (l : Locks) (p : Ptr) (n : FileLock) → p ≢ null → l.cell p ≡ some n → load p l ≡ ok (n, l)
unfolding load
load-run l p n ne at = rw (ne→== p null ne, at) refl

pub modify-run :
    (l : Locks) (p : Ptr) (n : FileLock) (f : FileLock → FileLock)
    → p ≢ null
    → l.cell p ≡ some n
    → modify p f l ≡ ok (tt, write l p (some (f n)))
unfolding modify load
modify-run l p n f ne at = rw (ne→== p null ne, at) refl

number-run :
    (l : Locks) (p : Ptr) (offset : ℤ) (write_length : ℕ) (lrn : ℤ) (n : FileLock)
    → p ≢ null
    → l.cell p ≡ some (noted_write offset write_length n)
    → modify p (λ m. record m { writes_at = set_last_lrn lrn (m.writes_at) }) l
      ≡ ok (tt, write l p (some (written_node offset write_length lrn n)))
number-run l p offset write_length lrn n ne at =
    modify-run l p (noted_write offset write_length n) _ ne at
    ∙ ap
        (λ ws.
          ok (tt, write l p (some (record (noted_write offset write_length n) { writes_at = ws }))))
        (set_last-append lrn n.writes_at _)

module _ (txnid : ℕ) (s : Server) (t : TxnNode) (before after : List ℕ) (r : LogRecord) (old : ℤ)
    (live : find_txn txnid s.txns ≡ some t) (last : t.last_lrn ≡ pos (length before))
    (file : s.event_log ≡ with_record before r old after) where
  -- A write at whatever offset.
  pub write_log-run :
      (lseek_end : ℤ → Code Server ℤ) (fuel : ℕ) (fd offset : ℤ) (text written : List ℕ)
      (write_length : ℕ) (p : Ptr) (n : FileLock) (cs : Cells)
      → write_offset lseek_end fd n s ≡ ok (offset, s)
      → IsValid s.locks cs
      → length cs < fuel
      → pointer_with fd s.locks.cell cs ≡ some p
      → s.locks.cell p ≡ some n
      → string_bytes write_length text ≡ some written
      → let number = pos (length s.event_log) in
        let node = written_node offset write_length number n in
        (l : Locks) × (write_log lseek_end fuel fd text write_length txnid s
          ≡ ok (
            pos write_length,
            logged txnid s t before after r old live last file
                (new_bytes written
                  (update_record number txnid (pos (length before)) fd offset write_length text))
                l,
          ))
        × (l.cell p ≡ some node)
        × ((a : Ptr) → a ≢ p → l.cell a ≡ s.locks.cell a)
        × IsValid l cs
  unfolding write_log
  write_log-run lseek_end fuel fd offset text written write_length p n cs place v short found at
        fits =
      let number = next_number before r old after in
      let here : pos (length s.event_log) ≡ number = ap (λ bytes. pos (length bytes)) file in
      let (seek, ne) =
        seek_fd-pointer_with fuel fd s.locks.head s.locks.head p cs s.locks v.linked short found in
      let unnumbered = noted_write offset write_length n in
      let l = write s.locks p (some unnumbered) in
      let node = written_node offset write_length number n in
      let noted : l.cell p ≡ some unnumbered = rw (==_self p) refl in
      (
        write l p (some node),
        rw
            (
              seek,
              load-run s.locks p n ne at,
              place,
              modify-run s.locks p n (noted_write offset write_length) ne at,
              log_write-Links txnid (record s { locks = l }) t before after r old live last file fd
                  offset write_length text written fits,
              number-run l p offset write_length number n ne noted,
              here,
            )
            refl,
        rw (==_self p, here) refl,
        λ a other. rw (ne→== p a (λ e. other (sym e))) refl,
        written-IsValid l p unnumbered node noted (refl, refl, refl, refl) cs
            (written-IsValid s.locks p n unnumbered at (refl, refl, refl, refl) cs v),
      )
