-- ===== src/Handlers/Begin.antt =====
-- What `on_txn_beg` of TxFS_Mam/server/TxFS_manager.c leaves, which `on_txn_abort` takes back.
use backup_lfs.Base.{
  ℕ, ◌^◌, ◌<◌, ◌≡◌, ◌≢◌, refl, sym, ◌∙◌, ap, subst, some, List, [], arith, length, ok, Code, ◌>>=◌,
  ◌==◌, inl, inr, Bool-cases,
}
use backup_lfs.Base.Int.{ℤ, pos, minus_one, to_int, to_int-small}
use backup_lfs.Header.{null, TxnNode}
use backup_lfs.Txn.{get_txn_node, new_txn_insert, find_txn}
use backup_lfs.Txn.Order.{IsRising, IsNotLive, new_txn_insert-IsRising}
use backup_lfs.LockList.Chain.{Cells, IsValid}
use backup_lfs.Server.{Server}
use backup_lfs.Log.{LogRecord, txn_beg, txn_abort, na, plain_record, rest_bytes, log_txn_beg}
use backup_lfs.Log.Chain.{with_record, record-run, append-run, plain-bytes}
use backup_lfs.Release.Exclusive.{IsQuiet}
use backup_lfs.Handlers.{insert_txn, on_txn_beg, on_txn_abort}
use backup_lfs.Handlers.Ending.{ended_log}
use backup_lfs.Handlers.Abort.{on_txn_abort-exclusive}

-- The record of a begin, at the end of the log.
abbrev pub begin_record : ℕ → List ℕ → LogRecord
begin_record txnid event_log = plain_record (pos (length event_log)) txnid minus_one txn_beg

abbrev pub begin_rest : ℕ → List ℕ → List ℕ
begin_rest txnid event_log = rest_bytes na na (begin_record txnid event_log)

-- A begin with an id that no live transaction has, the live transactions in order and the log shorter
-- than 2^31 bytes: it answers the
-- id; the transactions are in order, the new one is found with no locks, its last record stands in
-- the log where its node says, and the others are as they were; the locks are as they were.
pub on_txn_beg-IsRising :
    (txnid : ℕ) (s : Server)
    → IsRising s.txns
    → IsNotLive txnid s.txns
    → length s.event_log < 2 ^ 31
    → (s' : Server) × (t : TxnNode) × (on_txn_beg txnid s ≡ ok (pos txnid, s'))
      × IsRising s'.txns
      × (find_txn txnid s'.txns ≡ some t)
      × (t.file_rec_no ≡ null)
      × (t.last_lrn ≡ pos (length s.event_log))
      × ((j : ℕ) → j ≢ txnid → find_txn j s'.txns ≡ find_txn j s.txns)
      × (s'.locks ≡ s.locks)
      × (s'.event_log
          ≡ with_record s.event_log
              (begin_record txnid s.event_log)
              minus_one
              (begin_rest txnid s.event_log))
unfolding on_txn_beg insert_txn log_txn_beg get_txn_node
on_txn_beg-IsRising txnid s o free small =
    let lrn = pos (length s.event_log) in
    let (o', here, gone) = new_txn_insert-IsRising txnid lrn s.txns o free in
    (
      record s {
        txns = new_txn_insert txnid lrn s.txns;
        event_log =
            with_record s.event_log (begin_record txnid s.event_log) minus_one
              (begin_rest txnid s.event_log);
      },
      get_txn_node txnid (to_int lrn),
      rw
          (
            record-run lrn s refl,
            append-run (begin_record txnid s.event_log) _ s
                (plain-bytes lrn txnid minus_one txn_beg),
          )
          refl,
      o',
      ground (arith, here txnid),
      refl,
      to_int-small (length s.event_log) small,
      λ j ne. ground (arith, here j),
      refl,
      refl,
    )

-- A transaction that begins under an id that no live transaction has, the live transactions in order,
-- the log shorter than 2^31 bytes and the lock list valid, and is aborted at once with one round of fuel or more: the answer is its
-- number; every live transaction is as before the begin, and so is the id, which is live no more;
-- the same locks are held; and the log has the records of the begin, the abort and the end.
pub on_txn_beg-abort :
    (tr_yaffs_close_abort : ℤ → Code Server (Unit {0})) (fuel txnid : ℕ) (s : Server) (cs : Cells)
    → IsQuiet tr_yaffs_close_abort
    → IsRising s.txns
    → IsNotLive txnid s.txns
    → length s.event_log < 2 ^ 31
    → IsValid s.locks cs
    → 0 < fuel
    → (s' : Server) × ((do _ ← on_txn_beg txnid; on_txn_abort tr_yaffs_close_abort fuel txnid) s
        ≡ ok (pos txnid, s'))
      × IsValid s'.locks cs
      × IsRising s'.txns
      × ((j : ℕ) → find_txn j s'.txns ≡ find_txn j s.txns)
      × (s'.event_log
          ≡ ended_log txnid txn_abort s.event_log
              (begin_rest txnid s.event_log)
              (begin_record txnid s.event_log)
              minus_one)
on_txn_beg-abort close fuel txnid s cs quiet o free small v some_fuel =
    let (s1, t, begun, o1, live, none_held, last, others1, locks1, log1) =
      on_txn_beg-IsRising txnid s o free small in
    let (s2, aborted, v2, o2, gone, others2, log2) =
      on_txn_abort-exclusive close fuel txnid s1 t [] cs s.event_log (begin_rest txnid s.event_log)
        (begin_record txnid s.event_log) minus_one quiet live o1 none_held tt tt
        (subst (λ l. IsValid l cs) (sym locks1) v) some_fuel last log1 in
    (
      s2,
      rw (begun, aborted) refl,
      v2,
      o2,
      λ j. elim (Bool-cases (j == txnid)) [
        | inl same ↦
            ap (λ i. find_txn i s2.txns) (ground (arith, same))
            ∙ gone
            ∙ sym free
            ∙ ap (λ i. find_txn i s.txns) (ground (arith, same))
        | inr apart ↦ others2 j (ground (arith, apart)) ∙ others1 j (ground (arith, apart))
      ],
      log2,
    )
