-- ===== src/Log/Chain.antt =====
-- A new record of a transaction is linked to the one before.
use backup_lfs.Base.{
  ℕ, ◌+◌, ◌≡◌, refl, ap, sym, ◌∙◌, some, List, ◌++◌, arith, length, length-append, ok, Code,
  append_assoc,
}
use backup_lfs.Base.Int.{ℤ, pos, minus_one}
use backup_lfs.Header.{TxnNode}
use backup_lfs.Txn.{find_txn, update_txn_node}
use backup_lfs.Server.{Server, load_txn, modify_txn}
use backup_lfs.Log.{
  put_long, LogRecord, LogType, update, txn_commit, txn_abort, txn_end, na, plain_record,
  front_bytes, rest_bytes, record_bytes, write_at, string_bytes, extract_record_no, patch_next,
  update_txn, append_record, get_prev_log_lrn, log_linked, log_txn_commit, log_txn_abort,
  log_txn_end, log_write,
}
use backup_lfs.Log.Bytes.{length-put_long, length-front_bytes, write_at-middle}

-- The file with a record in it: what stands before, the record's first fields, its `next_LRN`, and
-- all behind.
abbrev pub with_record : List ℕ → LogRecord → ℤ → List ℕ → List ℕ
with_record before r next after = before ++ (front_bytes r ++ (put_long next ++ after))

patched :
    (before after : List ℕ) (r : LogRecord) (old new : ℤ)
    → write_at (length before + (8 + 4 + 8)) (put_long new) (with_record before r old after)
      ≡ with_record before r new after
patched before after r old new =
    let front = front_bytes r in
    let at : length (before ++ front) ≡ length before + (8 + 4 + 8) =
      omega (arith, length-append before front, length-front_bytes r) in
    let middle =
      write_at-middle (before ++ front) (put_long new) (put_long old) after
        (length-put_long old ∙ sym (length-put_long new)) in
    ap (λ k. write_at k (put_long new) (with_record before r old after)) (sym at)
    ∙ ap (write_at (length (before ++ front)) (put_long new))
        (sym (append_assoc before front (put_long old ++ after)))
    ∙ middle
    ∙ append_assoc before front (put_long new ++ after)

patch-run :
    (before after : List ℕ) (r : LogRecord) (old new : ℤ) (s : Server)
    → s.event_log ≡ with_record before r old after
    → patch_next (pos (length before)) new s
      ≡ ok (tt, record s { event_log = with_record before r new after })
unfolding patch_next
patch-run before after r old new s file =
    ap (λ bytes. ok (tt, record s { event_log = bytes }))
      (ap (write_at (length before + (8 + 4 + 8)) (put_long new)) file
        ∙ patched before after r old new)

pub record-run :
    (number : ℤ) (s : Server)
    → number ≡ pos (length s.event_log)
    → extract_record_no s ≡ ok (number, s)
unfolding extract_record_no
record-run number s e = ap (λ k. ok (k, s)) (sym e)

-- What a new record of the transaction leaves: its bytes at the end of the file, where its number
-- points, the number in the record before and in the transaction's node, and all else as it was.
abbrev pub Links :
    (ntid : ℕ) (before : List ℕ) (r : LogRecord) (old : ℤ) (after bs : List ℕ)
    → Code Server ℤ
    → Server
    → Type 0
Links ntid before r old after bs c s =
    let lrn = pos (length (with_record before r old after)) in
    c s
    ≡ ok (
      lrn,
      record s {
        txns = update_txn_node ntid (λ u. record u { last_lrn = lrn }) s.txns;
        event_log = with_record before r lrn after ++ bs;
      },
    )

pub log_linked-Links :
    (ntid : ℕ) (new : ℤ → LogRecord) (s : Server) (t : TxnNode) (before after bs : List ℕ)
    (r : LogRecord) (old : ℤ)
    → find_txn ntid s.txns ≡ some t
    → s.event_log ≡ with_record before r old after
    → record_bytes (new (pos (length (with_record before r old after)))) ≡ some bs
    → Links ntid before r old after bs (log_linked ntid (pos (length before)) new) s
unfolding log_linked update_txn append_record load_txn modify_txn
log_linked-Links ntid new s t before after bs r old live file encoded =
    let lrn = pos (length (with_record before r old after)) in
    rw
      (
        record-run lrn s (ap (λ bytes. pos (length bytes)) (sym file)),
        patch-run before after r old lrn s file,
        live,
        append_record,
        encoded,
      )
      refl

pub get_prev-run :
    (ntid : ℕ) (s : Server) (t : TxnNode)
    → find_txn ntid s.txns ≡ some t
    → get_prev_log_lrn ntid s ≡ ok (t.last_lrn, s)
unfolding get_prev_log_lrn load_txn
get_prev-run ntid s t live = rw live refl

na_bytes : string_bytes 3 na ≡ some na
unfolding string_bytes
na_bytes = refl

pub plain-bytes :
    (lrn : ℤ) (ntid : ℕ) (prev : ℤ) (type : LogType)
    → record_bytes (plain_record lrn ntid prev type)
      ≡ some (
          front_bytes (plain_record lrn ntid prev type)
          ++ (put_long minus_one ++ rest_bytes na na (plain_record lrn ntid prev type)))
unfolding record_bytes string_bytes
plain-bytes lrn ntid prev type = refl

-- The number of the next record.
abbrev pub next_number : (before : List ℕ) (r : LogRecord) (old : ℤ) (after : List ℕ) → ℤ
next_number before r old after = pos (length (with_record before r old after))

abbrev pub update_record :
    (number : ℤ) (txnid : ℕ) (prev fd offset : ℤ) (write_length : ℕ) (text : List ℕ) → LogRecord
update_record number txnid prev fd offset write_length text = record {
  lrn = number;
  txn_id = txnid;
  prev_lrn = prev;
  next_lrn = minus_one;
  record_type = update;
  fd = fd;
  offset = offset;
  write_length = write_length;
  text = text;
  write_length1 = 3;
  text1 = na;
}

-- The bytes of a new record, with what is written of its data.
abbrev pub new_bytes : (written : List ℕ) → LogRecord → List ℕ
new_bytes written r = front_bytes r ++ (put_long minus_one ++ rest_bytes written na r)

module _ (ntid : ℕ) (s : Server) (t : TxnNode) (before after : List ℕ) (r : LogRecord) (old : ℤ)
    (live : find_txn ntid s.txns ≡ some t) (last : t.last_lrn ≡ pos (length before))
    (file : s.event_log ≡ with_record before r old after) where
  -- A commit of a live transaction whose last record stands in the log where its node says: the
  -- commit record, which refers back to that record, is put at the end of the log, that record and
  -- the transaction's node refer to it, and no other byte of the log changes.
  pub log_txn_commit-Links :
      Links ntid before r old after
        (new_bytes na
          (plain_record (next_number before r old after) ntid (pos (length before)) txn_commit))
        (log_txn_commit ntid)
        s
  unfolding log_txn_commit
  log_txn_commit-Links =
      rw (get_prev-run ntid s t live, last)
        (log_linked-Links ntid (λ lrn. plain_record lrn ntid (pos (length before)) txn_commit) s t
          before after _ r old live file
          (plain-bytes (next_number before r old after) ntid (pos (length before)) txn_commit))

  -- A write of a live transaction whose last record stands in the log where its node says, and whose
  -- data, with the zero at its end, has the bytes to be written: the record with those bytes, which
  -- refers back to the last record, is put at the end of the log, the last record and the
  -- transaction's node refer to it, and no other byte of the log changes.
  pub log_write-Links :
      (fd offset : ℤ) (write_length : ℕ) (text written : List ℕ)
      → string_bytes write_length text ≡ some written
      → Links ntid before r old after
          (new_bytes written (
            update_record
              (next_number before r old after)
              ntid
              (pos (length before))
              fd
              offset
              write_length
              text))
          (log_write ntid fd offset write_length text)
          s
  unfolding log_write record_bytes
  log_write-Links fd offset write_length text written fits =
      rw (get_prev-run ntid s t live, last)
        (log_linked-Links ntid
          (λ lrn. update_record lrn ntid (pos (length before)) fd offset write_length text) s t
          before after _ r old live file (rw (fits, na_bytes) refl))

  -- What a commit does to the log, an abort does with its record.
  pub log_txn_abort-Links :
      Links ntid before r old after
        (new_bytes na
          (plain_record (next_number before r old after) ntid (pos (length before)) txn_abort))
        (log_txn_abort ntid)
        s
  unfolding log_txn_abort
  log_txn_abort-Links =
      rw (get_prev-run ntid s t live, last)
        (log_linked-Links ntid (λ lrn. plain_record lrn ntid (pos (length before)) txn_abort) s t
          before after _ r old live file
          (plain-bytes (next_number before r old after) ntid (pos (length before)) txn_abort))

pub append-run :
    (r : LogRecord) (bs : List ℕ) (s : Server)
    → record_bytes r ≡ some bs
    → append_record r s ≡ ok (tt, record s { event_log = s.event_log ++ bs })
unfolding append_record
append-run r bs s e = rw (e, append_record) refl

-- The record of an end is linked to the one before, and no node is written.
pub log_txn_end-Links :
    (ntid : ℕ) (s : Server) (before after : List ℕ) (r : LogRecord) (old : ℤ)
    → s.event_log ≡ with_record before r old after
    → log_txn_end ntid (pos (length before)) s
      ≡ ok (
        next_number before r old after,
        record s {
          event_log =
              with_record before r (next_number before r old after) after
              ++ new_bytes na (
                  plain_record (next_number before r old after) ntid (pos (length before)) txn_end);
        },
      )
unfolding log_txn_end
log_txn_end-Links ntid s before after r old file =
    let lrn = next_number before r old after in
    rw
      (
        record-run lrn s (ap (λ bytes. pos (length bytes)) (sym file)),
        patch-run before after r old lrn s file,
        append-run (plain_record lrn ntid (pos (length before)) txn_end) _
            (record s { event_log = with_record before r lrn after })
            (plain-bytes lrn ntid (pos (length before)) txn_end),
      )
      refl
