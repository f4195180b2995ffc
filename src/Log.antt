-- ===== src/Log.antt =====
-- The log of TxFS_Mam/server/Log_manager.c, as the bytes of its file. `long` has eight bytes and
-- `int` four, the lowest first. The file grows as far as it is written, so that `fwrite` does not
-- fail; `log_mutex` is held through each function.
pub mod Bytes
pub mod Chain
pub mod Paths
mod Tests
use backup_lfs.Base.{
  ℕ, zero, suc, ◌+◌, ◌-◌, ◌*◌, Option, none, some, List, [], ◌∷◌, ◌++◌, Bool, length, Code, pure,
  ◌>>=◌, ◌>>◌, get, put, crash, if◌then◌else◌, ltb, ◌/◌, ◌%◌, ◌^◌,
}
use backup_lfs.Base.Int.{ℤ, pos, negsuc, minus_one}
use backup_lfs.Header.{TxnNode}
use backup_lfs.Server.{Server, load_txn, modify_txn}

-- What `fwrite` writes of a number, the lowest byte first.
unfoldable pub bytes_of : (width n : ℕ) → List ℕ
bytes_of zero n = []
bytes_of (suc w) n = n % 256 ∷ bytes_of w (n / 256)

-- Two's complement.
unfoldable pub word_of : (width : ℕ) → ℤ → ℕ
word_of w (pos n) = n % (256 ^ w)
word_of w (negsuc n) = 256 ^ w - 1 - n % (256 ^ w)

unfoldable pub put_long : ℤ → List ℕ
unfolding bytes_of word_of
put_long z = bytes_of 8 (word_of 8 z)

unfoldable pub put_int : ℤ → List ℕ
unfolding bytes_of word_of
put_int z = bytes_of 4 (word_of 4 z)

pub data LogType : Type 0 where
  txn_beg update rename creat unlink txn_commit txn_abort txn_end : LogType

unfoldable pub type_number : LogType → ℕ
type_number txn_beg = 1
type_number update = 2
type_number rename = 3
type_number creat = 4
type_number unlink = 5
type_number txn_commit = 6
type_number txn_abort = 7
type_number txn_end = 8

-- `text` and `text1` are `data` and `data1` of the source.
pub record LogRecord : Type 0 where
  pub lrn : ℤ
  pub txn_id : ℕ
  pub prev_lrn : ℤ
  pub next_lrn : ℤ
  pub record_type : LogType
  pub fd : ℤ
  pub offset : ℤ
  pub write_length : ℕ
  pub text : List ℕ
  pub write_length1 : ℕ
  pub text1 : List ℕ

abbrev pub put_before : ℕ → Option (List ℕ) → Option (List ℕ)
put_before c none = none
put_before c (some bs) = some (c ∷ bs)

-- The first `n` bytes of a C string of the characters `cs`, with the zero that ends it; there are
-- no more to write.
unfoldable pub string_bytes : ℕ → List ℕ → Option (List ℕ)
string_bytes zero cs = some []
string_bytes (suc zero) [] = some (0 ∷ [])
string_bytes (suc (suc n)) [] = none
string_bytes (suc n) (c ∷ cs) = put_before c (string_bytes n cs)

-- The fields before `next_LRN`, and those behind it.
unfoldable pub front_bytes : LogRecord → List ℕ
unfolding put_long put_int
front_bytes r = put_long r.lrn ++ (put_int (pos r.txn_id) ++ put_long r.prev_lrn)

unfoldable pub rest_bytes : (text text1 : List ℕ) → LogRecord → List ℕ
unfolding put_long put_int type_number
rest_bytes text text1 r =
    put_int (pos (type_number r.record_type))
    ++ (put_int r.fd
        ++ (put_long r.offset
            ++ (put_long (pos r.write_length)
                ++ (text ++ (put_long (pos r.write_length1) ++ text1)))))

abbrev pub bytes_with : LogRecord → (text text1 : Option (List ℕ)) → Option (List ℕ)
bytes_with r none text1 = none
bytes_with r (some text) none = none
bytes_with r (some text) (some text1) =
    some (front_bytes r ++ (put_long r.next_lrn ++ rest_bytes text text1 r))

-- The eleven calls of `fwrite` for a record.
unfoldable pub record_bytes : LogRecord → Option (List ℕ)
record_bytes r =
    bytes_with r (string_bytes r.write_length r.text) (string_bytes r.write_length1 r.text1)

-- "NA\n"
abbrev pub na : List ℕ
na = 78 ∷ 65 ∷ 10 ∷ []

-- `fwrite` at an offset of the file.
unfoldable pub write_at : ℕ → List ℕ → List ℕ → List ℕ
write_at zero [] file = file
write_at zero (b ∷ bs) [] = b ∷ write_at zero bs []
write_at zero (b ∷ bs) (x ∷ file) = b ∷ write_at zero bs file
write_at (suc o) bs [] = 0 ∷ write_at o bs []
write_at (suc o) bs (x ∷ file) = x ∷ write_at o bs file

unfoldable pub extract_record_no : Code Server ℤ
extract_record_no s = pure (pos (length s.event_log)) s

unfoldable pub get_prev_log_lrn : (ntid : ℕ) → Code Server ℤ
unfolding load_txn
get_prev_log_lrn ntid = do t ← load_txn ntid; pure (t.last_lrn)

unfoldable pub update_txn : (ntid : ℕ) (last_lrn : ℤ) → Code Server (Unit {0})
unfolding load_txn modify_txn
update_txn ntid last_lrn = do
  _ ← load_txn ntid
  modify_txn ntid (λ t. record t { last_lrn = last_lrn })

unfoldable pub append_record : LogRecord → Code Server (Unit {0})
unfolding record_bytes
append_record r s = elim (record_bytes r) [
  | none ↦ crash s
  | some bs ↦ put (record s { event_log = s.event_log ++ bs }) s
]

-- The `next_LRN` field of an earlier record. An offset that is negative is a fault.
unfoldable pub patch_next : (prev_log_lrn log_lrn : ℤ) → Code Server (Unit {0})
unfolding write_at put_long
patch_next (pos o) log_lrn s =
    put (record s { event_log = write_at (o + (8 + 4 + 8)) (put_long log_lrn) s.event_log }) s
patch_next (negsuc n) log_lrn s = crash s

abbrev pub plain_record : (log_lrn : ℤ) (ntid : ℕ) (prev_log_lrn : ℤ) → LogType → LogRecord
plain_record log_lrn ntid prev_log_lrn type = record {
  lrn = log_lrn;
  txn_id = ntid;
  prev_lrn = prev_log_lrn;
  next_lrn = minus_one;
  record_type = type;
  fd = minus_one;
  offset = minus_one;
  write_length = 3;
  text = na;
  write_length1 = 3;
  text1 = na;
}

unfoldable pub log_txn_beg : (ntid : ℕ) → Code Server ℤ
log_txn_beg ntid = do
  log_lrn ← extract_record_no
  append_record (plain_record log_lrn ntid minus_one txn_beg)
  pure log_lrn

-- The steps that a commit, an abort and a write share: the record before is linked to the new one,
-- which is appended.
unfoldable pub log_linked : (ntid : ℕ) (prev_log_lrn : ℤ) → (ℤ → LogRecord) → Code Server ℤ
log_linked ntid prev_log_lrn new = do
  log_lrn ← extract_record_no
  patch_next prev_log_lrn log_lrn
  update_txn ntid log_lrn
  append_record (new log_lrn)
  pure log_lrn

unfoldable pub log_txn_commit : (ntid : ℕ) → Code Server ℤ
log_txn_commit ntid = do
  prev ← get_prev_log_lrn ntid
  log_linked ntid prev (λ lrn. plain_record lrn ntid prev txn_commit)

unfoldable pub log_txn_abort : (ntid : ℕ) → Code Server ℤ
log_txn_abort ntid = do
  prev ← get_prev_log_lrn ntid
  log_linked ntid prev (λ lrn. plain_record lrn ntid prev txn_abort)

-- The transaction's node is gone already, so that nothing is written to it.
unfoldable pub log_txn_end : (ntid : ℕ) (prev_log_lrn : ℤ) → Code Server ℤ
log_txn_end ntid prev_log_lrn = do
  log_lrn ← extract_record_no
  patch_next prev_log_lrn log_lrn
  append_record (plain_record log_lrn ntid prev_log_lrn txn_end)
  pure log_lrn

-- `text` is a C string without the zero that ends it; more than that zero cannot be written.
unfoldable pub log_write :
    (txnid : ℕ) (fd offset : ℤ) (write_length : ℕ) (text : List ℕ) → Code Server ℤ
log_write txnid fd offset write_length text = do
  prev ← get_prev_log_lrn txnid
  log_linked txnid prev (λ lrn. record {
    lrn = lrn;
    txn_id = txnid;
    prev_lrn = prev;
    next_lrn = minus_one;
    record_type = update;
    fd = fd;
    offset = offset;
    write_length = write_length;
    text = text;
    write_length1 = 3;
    text1 = na;
  })
