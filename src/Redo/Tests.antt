-- ===== src/Redo/Tests.antt =====
-- Transaction 1 has begun, and has an open file and a lock on a directory.
use backup_lfs.Base.{
  ℕ, ◌≡◌, refl, none, some, List, [], ◌∷◌, ◌++◌, ok, arith, Code, pure, ◌>>=◌, inl,
}
use backup_lfs.Base.Int.{ℤ, pos, minus_one}
use backup_lfs.Header.{WriteRecord, FileLock, TxnNode}
use backup_lfs.Txn.{get_txn_node, find_txn}
use backup_lfs.LockList.{write, file_node}
use backup_lfs.LockList.Chain.{lock_of, Cells, IsValid}
use backup_lfs.Server.{Server, global_init}
use backup_lfs.Log.{LogRecord, txn_beg, na, plain_record, rest_bytes, string_bytes, log_txn_commit}
use backup_lfs.Log.Chain.{with_record, update_record}
use backup_lfs.Update.{write_log, write_offset}
use backup_lfs.Redo.{Redone, delayed_write}
use backup_lfs.Redo.Entries.{Entry, log_bytes, Says}
use backup_lfs.Redo.Writes.{KeepsLog, in_place, delayed_write-in_place}
use backup_lfs.Redo.Durable.{write_log-delayed_write}

abbrev hi : List ℕ
hi = 104 ∷ 105 ∷ []

hi_fits : string_bytes 2 hi ≡ some hi
unfolding string_bytes
hi_fits = refl

abbrev begin_entry : Entry
begin_entry = record {
  content = plain_record (pos 0) 1 minus_one txn_beg;
  next = minus_one;
  text = na;
  text1 = na;
}

abbrev write_entry : Entry
write_entry = record {
  content = update_record (pos 0) 1 minus_one (pos 3) (pos 7) 2 hi;
  next = minus_one;
  text = hi;
  text1 = na;
}

abbrev redone : Redone
redone = record { fd = pos 3; offset = pos 7; text = hi }

redone-Says : Says write_entry redone
redone-Says = record {
  same_fd = refl;
  same_offset = refl;
  same_text = refl;
  plain = refl;
  size = refl;
  small = omega arith;
  fd_fits = (omega arith, omega arith);
  offset_fits = (omega arith, omega arith);
}

abbrev noted_write : WriteRecord
noted_write = record { initial_off = pos 7; write_length = pos 2; lrn = pos 0 }

-- The file is open to be written, without a write so far.
abbrev file_lock : FileLock
file_lock = record (file_node 5 (pos 9) 1 1) { prev = 10; fd = pos 3; file_offset = pos 7 }

abbrev cells : Cells
cells = (10, lock_of file_lock) ∷ []

abbrev client : TxnNode
client = record (get_txn_node 1 (pos 0)) { file_rec_no = 10 }

abbrev server_with : (n : FileLock) (event_log : List ℕ) → Server
server_with n event_log = record (global_init event_log) {
  locks = write (record { cell = λ _. none; head = 10 }) 10 (some n);
  txns = client ∷ [];
}

abbrev server : Server
server = server_with file_lock (log_bytes (begin_entry ∷ []))

cells-IsValid : IsValid server.locks cells
cells-IsValid = record {
  linked = (file_lock, refl, omega arith, refl, refl, refl, refl, refl);
  ordered = ground arith;
  chained = (λ n at. ground arith, tt);
}

live : find_txn 1 server.txns ≡ some client
unfolding find_txn get_txn_node
live = refl

last : client.last_lrn ≡ pos 0
unfolding get_txn_node
last = refl

file : (n : FileLock) (bytes : List ℕ) → (server_with n bytes).event_log ≡ bytes
unfolding global_init
file n bytes = refl

abbrev seeks : ℤ → ℤ → Code Server (Unit {0})
seeks fd offset = pure tt

abbrev writes : ℤ → List ℕ → Code Server (Unit {0})
writes fd text = pure tt

seeks-KeepsLog : (fd offset : ℤ) → KeepsLog (seeks fd offset)
seeks-KeepsLog fd offset s = (s, refl, refl)

writes-KeepsLog : (fd : ℤ) (text : List ℕ) → KeepsLog (writes fd text)
writes-KeepsLog fd text s = (s, refl, refl)

abbrev written_lock : FileLock
written_lock = record file_lock { writes_at = noted_write ∷ [] }

abbrev written_server : Server
written_server = server_with written_lock (log_bytes (write_entry ∷ []))

delayed_write-in_place_example :
    delayed_write seeks writes 10 written_server
    ≡ in_place seeks writes (redone ∷ []) written_server
delayed_write-in_place_example =
    delayed_write-in_place seeks writes seeks-KeepsLog writes-KeepsLog (write_entry ∷ []) 10
      written_lock (redone ∷ []) written_server (omega arith) refl
      (file written_lock (log_bytes (write_entry ∷ []))) (inl (refl, redone-Says), tt)

abbrev no_seek : ℤ → Code Server ℤ
no_seek fd = pure (pos 9)

here : write_offset no_seek (pos 3) file_lock server ≡ ok (pos 7, server)
unfolding write_offset
here = refl

write_log-delayed_write_example :
    (lrn : ℤ) × (s' : Server) × ((do _ ← write_log no_seek 2 (pos 3) hi 2 1; log_txn_commit 1)
        server
      ≡ ok (lrn, s'))
    × (delayed_write seeks writes 10 s' ≡ in_place seeks writes ([] ++ redone ∷ []) s')
write_log-delayed_write_example =
    write_log-delayed_write seeks writes seeks-KeepsLog writes-KeepsLog 1 server client [] []
      begin_entry no_seek 2 (pos 3) (pos 7) hi hi 2 10 file_lock cells [] live last
      (file file_lock (log_bytes (begin_entry ∷ []))) here cells-IsValid (omega arith) refl
      (omega arith) refl hi_fits (omega arith) (omega arith, omega arith) (omega arith, omega arith)
      tt

abbrev first_record : LogRecord
first_record = plain_record (pos 0) 1 minus_one txn_beg

abbrev tail : List ℕ
tail = rest_bytes na na first_record

abbrev begun : Server
begun = server_with file_lock (with_record [] first_record minus_one tail)

-- "256"
abbrev mode : List ℕ
mode = 50 ∷ 53 ∷ 54 ∷ []

abbrev to_name : List ℕ → Code Server (Unit {0})
to_name name = pure tt
