-- ===== src/Update/Tests.antt =====
-- Transaction 1 has begun, and has a lock on a file that it appends to and one on a directory.
use backup_lfs.Base.{
  ℕ, ◌≡◌, ◌≢◌, refl, none, some, List, [], ◌∷◌, ok, arith, length, Code, pure, inl,
}
use backup_lfs.Base.Int.{ℤ, pos, negsuc, minus_one}
use backup_lfs.Header.{WriteRecord, Ptr, null, FileLock, TxnNode}
use backup_lfs.Txn.{get_txn_node, find_txn}
use backup_lfs.LockList.{Locks, write, file_node}
use backup_lfs.LockList.Chain.{lock_of, Cells, IsValid}
use backup_lfs.Server.{Server, global_init}
use backup_lfs.Log.{
  LogRecord, rename, creat, unlink, txn_beg, na, plain_record, rest_bytes, string_bytes,
}
use backup_lfs.Log.Chain.{with_record, new_bytes, update_record}
use backup_lfs.Log.Paths.{string_record_bytes}
use backup_lfs.Update.{creat_log, unlink_log, rename_log, write_log}
use backup_lfs.Update.Points.{noted, logged, creat_log-unlink_log, rename_log-both}
use backup_lfs.Update.Contiguous.{IsContiguous, next_offset, write_log-IsContiguous}
use backup_lfs.Update.Runs.{written_node}

abbrev first_record : LogRecord
first_record = plain_record (pos 0) 1 minus_one txn_beg

abbrev tail : List ℕ
tail = rest_bytes na na first_record

abbrev first_write : WriteRecord
first_write = record { initial_off = pos 7; write_length = pos 2; lrn = pos 0 }

abbrev file_lock : FileLock
file_lock = record (file_node 5 (pos 9) 3 1) {
  prev = 10;
  next = 20;
  next_txn = 20;
  fd = pos 3;
  writes_at = first_write ∷ [];
}

abbrev directory : FileLock
directory = record (file_node 8 (pos 0) 2 1) { prev = 10 }

abbrev cells : Cells
cells = (10, lock_of file_lock) ∷ (20, lock_of directory) ∷ []

abbrev client : TxnNode
client = record (get_txn_node 1 (pos 0)) { file_rec_no = 10 }

abbrev locks : Locks
locks =
    write (write (record { cell = λ _. none; head = 10 }) 20 (some directory)) 10 (some file_lock)

abbrev server : Server
server = record (global_init (with_record [] first_record minus_one tail)) {
  locks = locks;
  txns = client ∷ [];
}

cells-IsValid : IsValid locks cells
cells-IsValid = record {
  linked = (
    file_lock,
    refl,
    omega arith,
    refl,
    refl,
    refl,
    refl,
    (directory, refl, omega arith, refl, refl, refl, refl, refl),
  );
  ordered = ((inl (omega arith), tt), (tt, tt));
  chained = (λ n at. ground arith, (λ n at. ground arith, tt));
}

live : find_txn 1 server.txns ≡ some client
unfolding find_txn get_txn_node
live = refl

last : client.last_lrn ≡ pos 0
unfolding get_txn_node
last = refl

file : server.event_log ≡ with_record [] first_record minus_one tail
unfolding global_init
file = refl

abbrev hi : List ℕ
hi = 104 ∷ 105 ∷ []

hi_fits : string_bytes 2 hi ≡ some hi
unfolding string_bytes
hi_fits = refl

abbrev number : ℤ
number = pos (length server.event_log)

abbrev then_logged : List ℕ → Locks → Server
then_logged = logged 1 server client [] tail first_record minus_one live last file

creat_log-unlink_log_example :
    (creat_log hi na 20 1 server
      ≡ ok (
        tt,
        then_logged
            (string_record_bytes number 1 (pos 0) creat hi na)
            (write locks 20 (some (noted (negsuc 3) number directory))),
      ))
    × (unlink_log hi 20 1 server
        ≡ ok (
          tt,
          then_logged
              (string_record_bytes number 1 (pos 0) unlink hi na)
              (write locks 20 (some (noted (negsuc 4) number directory))),
        ))
    × ((code lrn : ℤ) → IsValid (write locks 20 (some (noted code lrn directory))) cells)
creat_log-unlink_log_example =
    creat_log-unlink_log 1 server client [] tail first_record minus_one live last file hi na 20
      directory cells (omega arith) refl cells-IsValid

rename_log-both_example :
    (rename_log hi na 20 10 1 server
      ≡ ok (
        tt,
        then_logged (string_record_bytes number 1 (pos 0) rename hi na) (
            write
              (write locks 20 (some (noted minus_one number directory)))
              10
              (some (noted (negsuc 1) number file_lock))),
      ))
    × (rename_log hi na 20 null 1 server
        ≡ ok (
          tt,
          then_logged
              (string_record_bytes number 1 (pos 0) rename hi na)
              (write locks 20 (some (noted (negsuc 2) number directory))),
        ))
rename_log-both_example =
    rename_log-both 1 server client [] tail first_record minus_one live last file hi na 20 10
      directory file_lock (omega arith) (omega arith) (omega arith) refl refl

abbrev no_seek : ℤ → Code Server ℤ
no_seek fd = pure (pos 9)

write_log-IsContiguous_example :
    let node = written_node (next_offset (pos 9) (first_write ∷ [])) 2 number file_lock in
    (l : Locks) × (write_log no_seek 3 (pos 3) hi 2 1 server
      ≡ ok (
        pos 2,
        then_logged
            (new_bytes hi (
              update_record number 1 (pos 0) (pos 3) (next_offset (pos 9) (first_write ∷ [])) 2 hi))
            l,
      ))
    × (l.cell 10 ≡ some node)
    × ((a : Ptr) → a ≢ 10 → l.cell a ≡ locks.cell a)
    × IsContiguous node.writes_at
    × IsValid l cells
write_log-IsContiguous_example =
    write_log-IsContiguous 1 server client [] tail first_record minus_one live last file no_seek 3
      (pos 3) (pos 9) hi hi 2 10 file_lock cells refl cells-IsValid (omega arith) refl refl refl tt
      hi_fits
