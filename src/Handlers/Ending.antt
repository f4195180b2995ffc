-- ===== src/Handlers/Ending.antt =====
-- What a commit and an abort of TxFS_Mam/server/TxFS_manager.c do alike.
use backup_lfs.Base.{
  ℕ, ◌≡◌, ◌≢◌, refl, ap, sym, ◌∙◌, subst, none, some, List, ◌++◌, arith, length, length-append, ok,
  Code, ◌>>=◌, Option-cases, inl, inr,
}
use backup_lfs.Base.Int.{ℤ, pos, minus_one}
use backup_lfs.Header.{null, TxnNode}
use backup_lfs.Txn.{find_txn, update_txn_node, txn_delete}
use backup_lfs.Txn.Order.{
  IsRising, IsNotLive, Deletes, txn_delete-Deletes, update_txn_node-find, update_txn_node-IsRising,
}
use backup_lfs.LockList.Chain.{Cells, IsValid}
use backup_lfs.Server.{Server}
use backup_lfs.Log.{
  put_long, LogRecord, LogType, txn_end, na, plain_record, front_bytes, rest_bytes,
}
use backup_lfs.Log.Chain.{
  Links, with_record, new_bytes, next_number, log_txn_end-Links, get_prev-run,
}
use backup_lfs.Log.Bytes.{length-put_long}
use backup_lfs.Handlers.{delete_txn, finish_txn}

length-with_record :
    (before after : List ℕ) (r : LogRecord) (old new : ℤ)
    → length (with_record before r old after) ≡ length (with_record before r new after)
length-with_record before after r old new =
    let front = front_bytes r in
    omega (
      arith,
      length-append before (front ++ (put_long old ++ after)),
      length-append before (front ++ (put_long new ++ after)),
      length-append front (put_long old ++ after),
      length-append front (put_long new ++ after),
      length-append (put_long old) after,
      length-append (put_long new) after,
      length-put_long old,
      length-put_long new,
    )

-- A live transaction is taken out of the list in order.
delete-live :
    (i : ℕ) (ts : List TxnNode) (t : TxnNode)
    → IsRising ts
    → find_txn i ts ≡ some t
    → (us : List TxnNode) × (txn_delete i ts ≡ some us)
      × IsRising us
      × IsNotLive i us
      × ((j : ℕ) → j ≢ i → find_txn j us ≡ find_txn j ts)
delete-live i ts t o live = elim (Option-cases (txn_delete i ts)) [
  | inl gone ↦
      let free : IsNotLive i ts = subst (Deletes i ts) gone (txn_delete-Deletes i ts o) in
      absurd (none≢some (sym free ∙ live))
  | inr (us, e) ↦
      let (o', free, others, _) = subst (Deletes i ts) e (txn_delete-Deletes i ts o) in
      (us, e, o', free, λ j ne. others j ne)
]
  where
    none≢some : {u : TxnNode} → none ≡ some u → ⊥
    none≢some e = absurd cc

-- The log with a new record of the transaction at its end, to which the one before it refers.
abbrev pub linked_log : ℕ → LogType → (before after : List ℕ) (r : LogRecord) (old : ℤ) → List ℕ
linked_log txnid type before after r old =
    let lrn = next_number before r old after in
    with_record before r lrn after
    ++ new_bytes na (plain_record lrn txnid (pos (length before)) type)

-- The log that ends in the record of a commit or an abort and that of an end.
abbrev pub ended_log : ℕ → LogType → (before after : List ℕ) (r : LogRecord) (old : ℤ) → List ℕ
ended_log txnid type before after r old =
    let lrn = next_number before r old after in
    let a = plain_record lrn txnid (pos (length before)) type in
    linked_log txnid txn_end (with_record before r lrn after) (rest_bytes na na a) a minus_one

-- The end of a transaction whose last record stands in the log where its node says.
finish_txn-run :
    (txnid : ℕ) (s : Server) (t : TxnNode) (before after : List ℕ) (r : LogRecord) (old : ℤ)
    → IsRising s.txns
    → find_txn txnid s.txns ≡ some t
    → t.last_lrn ≡ pos (length before)
    → s.event_log ≡ with_record before r old after
    → (s' : Server) × (finish_txn txnid s ≡ ok (pos txnid, s'))
      × (s'.locks ≡ s.locks)
      × IsRising s'.txns
      × IsNotLive txnid s'.txns
      × ((j : ℕ) → j ≢ txnid → find_txn j s'.txns ≡ find_txn j s.txns)
      × (s'.event_log ≡ linked_log txnid txn_end before after r old)
unfolding finish_txn delete_txn
finish_txn-run txnid s t before after r old o live last file =
    let (us, deleted, o', free, others) = delete-live txnid s.txns t o live in
    let ended = log_txn_end-Links txnid (record s { txns = us }) before after r old file in
    (
      record s {
        txns = us;
        event_log =
            with_record before r (next_number before r old after) after
            ++ new_bytes na
                (plain_record (next_number before r old after) txnid (pos (length before)) txn_end);
      },
      rw (get_prev-run txnid s t live, last, delete_txn, deleted, ended) refl,
      refl,
      o',
      free,
      others,
      refl,
    )

-- A changed node is found changed, and the others as they were.
found :
    (i : ℕ) (f : TxnNode → TxnNode) (ts : List TxnNode) (t : TxnNode)
    → ((u : TxnNode) → (f u).txn_id ≡ u.txn_id)
    → find_txn i ts ≡ some t
    → (find_txn i (update_txn_node i f ts) ≡ some (f t))
      × ((j : ℕ) → j ≢ i → find_txn j (update_txn_node i f ts) ≡ find_txn j ts)
found i f ts t keeps live = (
  ground (arith, update_txn_node-find i i f ts t keeps live),
  λ j ne. ground (arith, update_txn_node-find i j f ts t keeps live),
)

-- What a commit and an abort leave, by what their record and their release do.
pub ending-run :
    (type : LogType) (log_it : Code Server ℤ) (release : Code Server (List ℕ)) (txnid : ℕ)
    (s : Server) (t : TxnNode) (cs : Cells) (before after : List ℕ) (r : LogRecord) (old : ℤ)
    → find_txn txnid s.txns ≡ some t
    → IsRising s.txns
    → Links txnid before r old after
        (new_bytes na
          (plain_record (next_number before r old after) txnid (pos (length before)) type))
        log_it
        s
    → ((s1 : Server)
        → find_txn txnid s1.txns ≡ some (record t { last_lrn = next_number before r old after })
        → s1.locks ≡ s.locks
        → s1.event_log ≡ linked_log txnid type before after r old
        → (woken : List ℕ) × (s2 : Server) × (release s1 ≡ ok (woken, s2))
          × IsValid s2.locks cs
          × (s2.txns ≡ update_txn_node txnid (λ u. record u { file_rec_no = null }) s1.txns)
          × (s2.event_log ≡ s1.event_log))
    → (s' : Server) × ((do _ ← log_it; _ ← release; finish_txn txnid) s ≡ ok (pos txnid, s'))
      × IsValid s'.locks cs
      × IsRising s'.txns
      × IsNotLive txnid s'.txns
      × ((j : ℕ) → j ≢ txnid → find_txn j s'.txns ≡ find_txn j s.txns)
      × (s'.event_log ≡ ended_log txnid type before after r old)
ending-run type log_it release txnid s t cs before after r old live o logged frees =
    let lrn = next_number before r old after in
    let a = plain_record lrn txnid (pos (length before)) type in
    let linked : TxnNode → TxnNode = λ u. record u { last_lrn = lrn } in
    let empty : TxnNode → TxnNode = λ u. record u { file_rec_no = null } in
    let s1 : Server = record s {
      txns = update_txn_node txnid linked s.txns;
      event_log = linked_log txnid type before after r old;
    } in
    let (live1, others1) = found txnid linked s.txns t (λ u. refl) live in
    let (woken, s2, released, v2, txns2, log2) = frees s1 live1 refl refl in
    let (live2, others2) = found txnid empty s1.txns (linked t) (λ u. refl) live1 in
    let o2 =
      update_txn_node-IsRising txnid empty s1.txns (λ u. refl)
        (update_txn_node-IsRising txnid linked s.txns (λ u. refl) o) in
    let (s3, finished, locks3, o3, free, others3, log3) =
      finish_txn-run txnid s2 (empty (linked t)) (with_record before r lrn after)
        (rest_bytes na na a) a minus_one (subst IsRising (sym txns2) o2)
        (ap (find_txn txnid) txns2 ∙ live2) (ap pos (length-with_record before after r old lrn))
        log2 in
    (
      s3,
      rw (logged, released, finished) refl,
      subst (λ l. IsValid l cs) (sym locks3) v2,
      o3,
      free,
      λ j ne. others3 j ne ∙ ap (find_txn j) txns2 ∙ others2 j ne ∙ others1 j ne,
      log3,
    )
