-- ===== src/Log/Paths.antt =====
-- The records that TxFS_Mam/server/Log_manager.c writes of a file that is renamed, created or
-- removed.
use backup_lfs.Base.{ℕ, suc, ◌≡◌, refl, ap, some, List, [], ◌∷◌, ◌++◌, length, Code, ◌>>=◌}
use backup_lfs.Base.Int.{ℤ, pos, minus_one}
use backup_lfs.Header.{TxnNode}
use backup_lfs.Txn.{find_txn}
use backup_lfs.Server.{Server}
use backup_lfs.Log.{
  LogRecord, LogType, rename, creat, unlink, na, put_long, front_bytes, rest_bytes, string_bytes,
  record_bytes, put_before, get_prev_log_lrn, log_linked,
}
use backup_lfs.Log.Chain.{with_record, Links, next_number, log_linked-Links, get_prev-run}

-- A record with two strings, each with the zero that ends it.
abbrev pub string_record :
    (number : ℤ) (txnid : ℕ) (prev : ℤ) → LogType → (text text1 : List ℕ) → LogRecord
string_record number txnid prev type text text1 = record {
  lrn = number;
  txn_id = txnid;
  prev_lrn = prev;
  next_lrn = minus_one;
  record_type = type;
  fd = minus_one;
  offset = minus_one;
  write_length = suc (length text);
  text = text;
  write_length1 = suc (length text1);
  text1 = text1;
}

-- `incall[1]` and `incall[2]` are the old path and the new one.
unfoldable pub log_rename : (txnid : ℕ) (oldpath newpath : List ℕ) → Code Server ℤ
log_rename txnid oldpath newpath = do
  prev ← get_prev_log_lrn txnid
  log_linked txnid prev (λ lrn. string_record lrn txnid prev rename oldpath newpath)

-- `incall[1]` and `incall[2]` are the path and the mode.
unfoldable pub log_creat : (txnid : ℕ) (path mode : List ℕ) → Code Server ℤ
log_creat txnid path mode = do
  prev ← get_prev_log_lrn txnid
  log_linked txnid prev (λ lrn. string_record lrn txnid prev creat path mode)

unfoldable pub log_unlink : (txnid : ℕ) (path : List ℕ) → Code Server ℤ
log_unlink txnid path = do
  prev ← get_prev_log_lrn txnid
  log_linked txnid prev (λ lrn. string_record lrn txnid prev unlink path na)

string_bytes-whole : (cs : List ℕ) → string_bytes (suc (length cs)) cs ≡ some (cs ++ 0 ∷ [])
unfolding string_bytes
string_bytes-whole [] = refl
string_bytes-whole (c ∷ cs) = ap (put_before c) (string_bytes-whole cs)

string_bytes-both :
    (r : LogRecord) (text text1 : List ℕ)
    → string_bytes r.write_length r.text ≡ some text
    → string_bytes r.write_length1 r.text1 ≡ some text1
    → record_bytes r ≡ some (front_bytes r ++ (put_long r.next_lrn ++ rest_bytes text text1 r))
unfolding record_bytes
string_bytes-both r text text1 e e1 = rw (e, e1) refl

-- The bytes of a record with two strings.
abbrev pub string_record_bytes :
    (number : ℤ) (txnid : ℕ) (prev : ℤ) → LogType → (text text1 : List ℕ) → List ℕ
string_record_bytes number txnid prev type text text1 =
    let r = string_record number txnid prev type text text1 in
    front_bytes r ++ (put_long minus_one ++ rest_bytes (text ++ 0 ∷ []) (text1 ++ 0 ∷ []) r)

string_record-bytes :
    (number : ℤ) (txnid : ℕ) (prev : ℤ) (type : LogType) (text text1 : List ℕ)
    → record_bytes (string_record number txnid prev type text text1)
      ≡ some (string_record_bytes number txnid prev type text text1)
string_record-bytes number txnid prev type text text1 =
    string_bytes-both (string_record number txnid prev type text text1) (text ++ 0 ∷ [])
      (text1 ++ 0 ∷ []) (string_bytes-whole text) (string_bytes-whole text1)

module _ (txnid : ℕ) (s : Server) (t : TxnNode) (before after : List ℕ) (r : LogRecord) (old : ℤ)
    (live : find_txn txnid s.txns ≡ some t) (last : t.last_lrn ≡ pos (length before))
    (file : s.event_log ≡ with_record before r old after) where
  string_record-Links :
      (type : LogType) (text text1 : List ℕ)
      → Links txnid before r old after
          (string_record_bytes
            (next_number before r old after)
            txnid
            (pos (length before))
            type
            text
            text1)
          (log_linked txnid
            (pos (length before))
            (λ lrn. string_record lrn txnid (pos (length before)) type text text1))
          s
  string_record-Links type text text1 =
      log_linked-Links txnid (λ lrn. string_record lrn txnid (pos (length before)) type text text1)
        s t before after _ r old live file
        (string_record-bytes (next_number before r old after) txnid (pos (length before)) type text
          text1)

  abbrev pub NamedLinks : LogType → (text text1 : List ℕ) → Code Server ℤ → Type 0
  NamedLinks type text text1 c =
      Links txnid before r old after
        (string_record_bytes (next_number before r old after) txnid (pos (length before)) type text
          text1)
        c s

  -- The rename, the creation and the removal of a file by a live transaction whose last record stands
  -- in the log where its node says: the record, with the two paths, the path and the mode, or the path
  -- and "NA", each up to and with the zero that ends it, is put at the end of the log, the last record
  -- and the transaction's node refer to it, and no other byte of the log changes.
  pub log_rename-creat-unlink :
      (path second : List ℕ)
      → NamedLinks rename path second (log_rename txnid path second)
        × NamedLinks creat path second (log_creat txnid path second)
        × NamedLinks unlink path na (log_unlink txnid path)
  unfolding log_rename log_creat log_unlink
  log_rename-creat-unlink path second = (
    rw (get_prev-run txnid s t live, last) (string_record-Links rename path second),
    rw (get_prev-run txnid s t live, last) (string_record-Links creat path second),
    rw (get_prev-run txnid s t live, last) (string_record-Links unlink path na),
  )
