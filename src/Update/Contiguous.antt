-- ===== src/Update/Contiguous.antt =====
-- A write to a file that was opened to append: its place, its record and its log.
use backup_lfs.Base.{
  ℕ, ◌<◌, ◌≡◌, ◌≢◌, refl, some, List, [], ◌∷◌, ◌++◌, ◌||◌, length, ok, Code, ◌==◌, true,
}
use backup_lfs.Base.Int.{ℤ, pos, ◌+ℤ◌}
use backup_lfs.Header.{Ptr, FileLock, TxnNode, WriteRecord}
use backup_lfs.Txn.{find_txn}
use backup_lfs.LockList.{Locks}
use backup_lfs.LockList.Chain.{Cells, IsValid}
use backup_lfs.Server.{Server}
use backup_lfs.Log.{LogRecord, string_bytes}
use backup_lfs.Log.Chain.{with_record, update_record, new_bytes}
use backup_lfs.Update.{end_of_writes, append_offset, write_offset, write_log}
use backup_lfs.Update.Points.{logged}
use backup_lfs.Update.Runs.{pointer_with, written_node, write_log-run}

-- Each write begins where the one before ends.
abbrev pub IsContiguous : List WriteRecord → Type 0
IsContiguous [] = Unit
IsContiguous (w ∷ []) = Unit
IsContiguous (w ∷ v ∷ ws) =
    (v.initial_off ≡ w.initial_off +ℤ w.write_length) × IsContiguous (v ∷ ws)

-- Where the next write goes, in a file of `size` bytes of which none are the transaction's.
abbrev pub next_offset : (size : ℤ) → List WriteRecord → ℤ
next_offset size [] = size
next_offset size (w ∷ []) = w.initial_off +ℤ w.write_length
next_offset size (w ∷ v ∷ ws) = next_offset size (v ∷ ws)

append_offset-run :
    (lseek_end : ℤ → Code Server ℤ) (fd size : ℤ) (ws : List WriteRecord) (s : Server)
    → lseek_end fd s ≡ ok (size, s)
    → append_offset lseek_end fd (end_of_writes ws) s ≡ ok (next_offset size ws, s)
append_offset-run lseek_end fd size [] s quiet = quiet
append_offset-run lseek_end fd size (w ∷ []) s quiet = refl
append_offset-run lseek_end fd size (w ∷ v ∷ ws) s quiet =
    append_offset-run lseek_end fd size (v ∷ ws) s quiet

append-IsContiguous :
    (size length lrn : ℤ) (ws : List WriteRecord)
    → IsContiguous ws
    → IsContiguous
        (ws ++ record { initial_off = next_offset size ws; write_length = length; lrn = lrn } ∷ [])
append-IsContiguous size length lrn [] c = tt
append-IsContiguous size length lrn (w ∷ []) c = (refl, tt)
append-IsContiguous size length lrn (w ∷ v ∷ ws) (e, c) =
    (e, append-IsContiguous size length lrn (v ∷ ws) c)

write_offset-run :
    (lseek_end : ℤ → Code Server ℤ) (fd size : ℤ) (n : FileLock) (s : Server)
    → ((n.flags == 3) || (n.flags == 4)) ≡ true
    → lseek_end fd s ≡ ok (size, s)
    → write_offset lseek_end fd n s ≡ ok (next_offset size (n.writes_at), s)
unfolding write_offset
write_offset-run lseek_end fd size n s appending quiet =
    rw (appending) (append_offset-run lseek_end fd size (n.writes_at) s quiet)

module _ (txnid : ℕ) (s : Server) (t : TxnNode) (before after : List ℕ) (r : LogRecord) (old : ℤ)
    (live : find_txn txnid s.txns ≡ some t) (last : t.last_lrn ≡ pos (length before))
    (file : s.event_log ≡ with_record before r old after) where
  -- Of `write_log`, which the server's `on_write` does not call any more: a write by a live transaction
  -- whose last record stands in the log where its node says, to a file
  -- that it opened to append and whose writes lie end to end: with a round of fuel for each lock and
  -- one more it returns its length; the log has one more record, of the data at the offset where the
  -- last write ended, or at the end of the file when there was none; only the node of the file
  -- changes, where the new write is noted with the number of that record and the offset behind it is
  -- kept; the writes still lie end to end, and the list of locks stays valid.
  pub write_log-IsContiguous :
      (lseek_end : ℤ → Code Server ℤ) (fuel : ℕ) (fd size : ℤ) (text written : List ℕ)
      (write_length : ℕ) (p : Ptr) (n : FileLock) (cs : Cells)
      → lseek_end fd s ≡ ok (size, s)
      → IsValid s.locks cs
      → length cs < fuel
      → pointer_with fd s.locks.cell cs ≡ some p
      → s.locks.cell p ≡ some n
      → ((n.flags == 3) || (n.flags == 4)) ≡ true
      → IsContiguous n.writes_at
      → string_bytes write_length text ≡ some written
      → let offset = next_offset size n.writes_at in
        let number = pos (length s.event_log) in
        let node = written_node offset write_length number n in
        (l : Locks) × (write_log lseek_end fuel fd text write_length txnid s
          ≡ ok (
            pos write_length,
            logged txnid s t before after r old live last file
                (new_bytes written
                  (update_record number txnid (pos (length before)) fd offset write_length text))
                l,
          ))
        × (l.cell p ≡ some node)
        × ((a : Ptr) → a ≢ p → l.cell a ≡ s.locks.cell a)
        × IsContiguous node.writes_at
        × IsValid l cs
  write_log-IsContiguous lseek_end fuel fd size text written write_length p n cs quiet v short found
        at appending c fits =
      let (l, run, node, others, v') =
        write_log-run txnid s t before after r old live last file lseek_end fuel fd
          (next_offset size n.writes_at) text written write_length p n cs
          (write_offset-run lseek_end fd size n s appending quiet) v short found at fits in
      (
        l,
        run,
        node,
        others,
        append-IsContiguous size (pos write_length) (pos (length s.event_log)) n.writes_at c,
        v',
      )
