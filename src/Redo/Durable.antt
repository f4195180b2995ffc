-- ===== src/Redo/Durable.antt =====
-- A write that is logged is applied as it was made, also behind the record of the commit.
use backup_lfs.Base.{
  ℕ, ◌^◌, ◌<◌, ◌≡◌, ◌≢◌, refl, ◌∙◌, sym, ap, some, List, [], ◌∷◌, ◌++◌, ok, length, Code, ◌>>=◌,
  ==_self,
}
use backup_lfs.Base.Int.{ℤ, pos, minus_one}
use backup_lfs.Header.{Ptr, FileLock, TxnNode, WriteRecord}
use backup_lfs.Txn.{find_txn}
use backup_lfs.Txn.Order.{update_txn_node-find}
use backup_lfs.LockList.Chain.{Cells, IsValid}
use backup_lfs.Server.{Server}
use backup_lfs.Log.{na, string_bytes, rest_bytes, plain_record, txn_commit, log_txn_commit}
use backup_lfs.Log.Chain.{next_number, log_txn_commit-Links}
use backup_lfs.Update.{write_offset, write_log}
use backup_lfs.Update.Runs.{pointer_with}
use backup_lfs.Redo.{Redone, delayed_write}
use backup_lfs.Redo.Decode.{Fits}
use backup_lfs.Redo.Entries.{Entry, log_bytes, linked_to}
use backup_lfs.Redo.Commits.{
  linked, log_bytes-middle, linked-bytes, Matches-linked, length-linked, write_log-Matches,
}
use backup_lfs.Redo.Writes.{Matches, KeepsLog, in_place, delayed_write-in_place}

abbrev commit_entry : (lrn : ℤ) (txnid : ℕ) (prev : ℤ) → Entry
commit_entry lrn txnid prev = record {
  content = plain_record lrn txnid prev txn_commit;
  next = minus_one;
  text = na;
  text1 = na;
}

log_txn_commit-Matches :
    (txnid : ℕ) (s : Server) (t : TxnNode) (es fs : List Entry) (e : Entry) (ws : List WriteRecord)
    (rs : List Redone)
    → find_txn txnid s.txns ≡ some t
    → t.last_lrn ≡ pos (length (log_bytes es))
    → s.event_log ≡ log_bytes (es ++ e ∷ fs)
    → Matches (es ++ e ∷ fs) ws rs
    → (lrn : ℤ) × (s' : Server) × (after : List Entry) × (log_txn_commit txnid s ≡ ok (lrn, s'))
      × (s'.locks ≡ s.locks)
      × (s'.event_log ≡ log_bytes after)
      × Matches after ws rs
log_txn_commit-Matches txnid s t es fs e ws rs live last file m =
    let rest = rest_bytes e.text e.text1 e.content ++ log_bytes fs in
    let lrn = next_number (log_bytes es) e.content e.next rest in
    let new = commit_entry lrn txnid (pos (length (log_bytes es))) in
    (
      lrn,
      _,
      linked es e fs lrn new,
      log_txn_commit-Links txnid s t (log_bytes es) rest e.content e.next live last
          (file ∙ log_bytes-middle es fs e),
      refl,
      linked-bytes es fs e new lrn,
      Matches-linked es fs e new lrn ws rs m,
    )

module _ (lseek : ℤ → ℤ → Code Server (Unit {0})) (write : ℤ → List ℕ → Code Server (Unit {0}))
    (lseek-KeepsLog : (fd offset : ℤ) → KeepsLog (lseek fd offset))
    (write-KeepsLog : (fd : ℤ) (text : List ℕ) → KeepsLog (write fd text)) where
  -- Of `write_log`, which the server's `on_write` does not call any more, with `log_txn_commit` and
  -- `delayed_write`: the first logs a write of a live transaction, whose last record stands in the log
  -- where its node says, to a file that it has a lock on, under a number of fuel above that of the
  -- locks, and the second its commit; the numbers of the write are in the range of the log's, its data
  -- with the zero at its end has the bytes to be written, and the earlier writes of the file are in the
  -- log. Both end, and what `delayed_write` then applies in place are the earlier writes and behind
  -- them this one, with its descriptor, its offset and its data, where `lseek` and `write` end and
  -- leave the log alone.
  pub write_log-delayed_write :
      (txnid : ℕ) (s : Server) (t : TxnNode) (es fs : List Entry) (e : Entry)
      (lseek_end : ℤ → Code Server ℤ) (fuel : ℕ) (fd offset : ℤ) (text written : List ℕ)
      (write_length : ℕ) (p : Ptr) (n : FileLock) (cs : Cells) (rs : List Redone)
      → find_txn txnid s.txns ≡ some t
      → t.last_lrn ≡ pos (length (log_bytes es))
      → s.event_log ≡ log_bytes (es ++ e ∷ fs)
      → write_offset lseek_end fd n s ≡ ok (offset, s)
      → IsValid s.locks cs
      → length cs < fuel
      → pointer_with fd s.locks.cell cs ≡ some p
      → p ≢ 0
      → s.locks.cell p ≡ some n
      → string_bytes write_length text ≡ some written
      → write_length < 256 ^ 8
      → Fits (2 ^ 31) fd
      → Fits (2 ^ 63) offset
      → Matches (es ++ e ∷ fs) n.writes_at rs
      → (lrn : ℤ) × (s' : Server) × ((do
        _ ← write_log lseek_end fuel fd text write_length txnid
        log_txn_commit txnid)
            s
          ≡ ok (lrn, s'))
        × (delayed_write lseek write p s'
            ≡ in_place lseek write
                (rs ++ record { fd = fd; offset = offset; text = written } ∷ [])
                s')
  write_log-delayed_write txnid s t es fs e lseek_end fuel fd offset text written write_length p n
        cs rs live last file place v short found ne at fits small fd_fits offset_fits m =
      let number = pos (length s.event_log) in
      let (s1, wrote, node, file1, txns1, m1) =
        write_log-Matches txnid s t es fs e live last file lseek_end fuel fd offset text written
          write_length p n cs rs place v short found at fits small fd_fits offset_fits m in
      let live1 : find_txn txnid s1.txns ≡ some (record t { last_lrn = number }) =
        ap (find_txn txnid) txns1
        ∙ update_txn_node-find txnid txnid (λ u. record u { last_lrn = number }) s.txns t
            (λ u. refl) live
        ∙ rw (==_self txnid) refl in
      let all = es ++ linked_to number e ∷ fs in
      let here : number ≡ pos (length (log_bytes all)) =
        ap pos (sym (length-linked es fs e number s file)) in
      let (lrn, s2, after, committed, same, file2, m2) =
        log_txn_commit-Matches txnid s1 (record t { last_lrn = number }) all [] _ _ _ live1 here
          file1 m1 in
      (
        lrn,
        s2,
        rw wrote committed,
        delayed_write-in_place lseek write lseek-KeepsLog write-KeepsLog after p _ _ s2 ne
            (ap (λ l. l.cell p) same ∙ node) file2 m2,
      )
