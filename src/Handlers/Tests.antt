-- ===== src/Handlers/Tests.antt =====
-- Transaction 1 begins, writes file 5 under an exclusive lock, and is aborted.
use backup_lfs.Base.{
  ◌++◌, ℕ, ◌<◌, ◌^◌, ◌≡◌, ◌≢◌, refl, none, some, List, [], ◌∷◌, ok, inl, arith, length, Code, pure,
  ◌>>=◌,
}
use backup_lfs.Base.Int.{negsuc, ℤ, pos, minus_one}
use backup_lfs.Header.{WriteRecord, FileLock, TxnNode, null}
use backup_lfs.Txn.{get_txn_node, find_txn}
use backup_lfs.Txn.Order.{IsRising, IsNotLive}
use backup_lfs.LockList.{write, file_node}
use backup_lfs.LockList.Chain.{lock_of, Cells, IsValid}
use backup_lfs.Server.{Server, global_init}
use backup_lfs.Log.{
  creat, put_long, put_int, bytes_of, word_of, type_number, LogRecord, txn_beg, txn_abort,
  txn_commit, na, plain_record, front_bytes, rest_bytes,
}
use backup_lfs.Log.Paths.{string_record}
use backup_lfs.Update.Points.{call_record}
use backup_lfs.Redo.{read_texts, fseek, fread, number_of, split_at}
use backup_lfs.Log.Chain.{with_record}
use backup_lfs.Release.Exclusive.{IsQuiet}
use backup_lfs.Release.Held.{without_all}
use backup_lfs.Handlers.{
  Disk, on_txn_beg, on_txn_abort, on_txn_commit, write_possible, read_possible,
}
use backup_lfs.Handlers.Possible.{MayWrite, MayRead, node_with, possible-node_with}
use backup_lfs.Handlers.Ending.{linked_log, ended_log}
use backup_lfs.Handlers.Abort.{on_txn_abort-exclusive}
use backup_lfs.Handlers.Commit.{on_txn_commit-exclusive}
use backup_lfs.Handlers.Begin.{begin_record, begin_rest, on_txn_beg-IsRising, on_txn_beg-abort}

abbrev first_record : LogRecord
first_record = plain_record (pos 0) 1 minus_one txn_beg

abbrev tail : List ℕ
tail = rest_bytes na na first_record

abbrev written : WriteRecord
written = record { initial_off = pos 0; write_length = pos 2; lrn = pos 0 }

abbrev lock : FileLock
lock = record (file_node 5 (pos 0) 2 1) { prev = 10; fd = pos 3; writes_at = written ∷ [] }

abbrev cells : Cells
cells = (10, lock_of lock) ∷ []

abbrev client : TxnNode
client = record (get_txn_node 1 (pos 0)) { file_rec_no = 10 }

abbrev server : Server
server = record (global_init (with_record [] first_record minus_one tail)) {
  locks = write (record { cell = λ _. none; head = 10 }) 10 (some lock);
  txns = client ∷ [];
}

cells-IsValid : IsValid server.locks cells
cells-IsValid = record {
  linked = (lock, refl, omega arith, refl, refl, refl, refl, refl);
  ordered = ground arith;
  chained = (λ n at. ground arith, tt);
}

abbrev no_close : ℤ → Code Server (Unit {0})
no_close fd = pure tt

no_close-IsQuiet : IsQuiet no_close
no_close-IsQuiet fd s = (s, refl, refl, refl, refl, refl)

live : find_txn 1 server.txns ≡ some client
unfolding find_txn get_txn_node
live = refl

last : client.last_lrn ≡ pos 0
unfolding get_txn_node
last = refl

file : server.event_log ≡ with_record [] first_record minus_one tail
unfolding global_init
file = refl

on_txn_abort-exclusive_example :
    (s' : Server) × (on_txn_abort no_close 2 1 server ≡ ok (pos 1, s'))
    × IsValid s'.locks (without_all (10 ∷ []) cells)
    × IsRising s'.txns
    × IsNotLive 1 s'.txns
    × ((j : ℕ) → j ≢ 1 → find_txn j s'.txns ≡ find_txn j server.txns)
    × (s'.event_log ≡ ended_log 1 txn_abort [] tail first_record minus_one)
on_txn_abort-exclusive_example =
    on_txn_abort-exclusive no_close 2 1 server client (10 ∷ []) cells [] tail first_record minus_one
      no_close-IsQuiet live (tt, tt) (refl, omega arith, lock, refl, refl) (tt, tt)
      (inl (refl, refl), tt) cells-IsValid (omega arith) last file

two_free : IsNotLive 2 server.txns
unfolding find_txn get_txn_node
two_free = refl

log_small : length server.event_log < 2 ^ 31
unfolding global_init front_bytes rest_bytes
log_small = omega arith

on_txn_beg-IsRising_example :
    (s' : Server) × (t : TxnNode) × (on_txn_beg 2 server ≡ ok (pos 2, s'))
    × IsRising s'.txns
    × (find_txn 2 s'.txns ≡ some t)
    × (t.file_rec_no ≡ null)
    × (t.last_lrn ≡ pos (length server.event_log))
    × ((j : ℕ) → j ≢ 2 → find_txn j s'.txns ≡ find_txn j server.txns)
    × (s'.locks ≡ server.locks)
    × (s'.event_log
        ≡ with_record server.event_log
            (begin_record 2 server.event_log)
            minus_one
            (begin_rest 2 server.event_log))
on_txn_beg-IsRising_example = on_txn_beg-IsRising 2 server (tt, tt) two_free log_small

on_txn_beg-abort_example :
    (s' : Server) × ((do _ ← on_txn_beg 2; on_txn_abort no_close 1 2) server ≡ ok (pos 2, s'))
    × IsValid s'.locks cells
    × IsRising s'.txns
    × ((j : ℕ) → find_txn j s'.txns ≡ find_txn j server.txns)
    × (s'.event_log
        ≡ ended_log 2 txn_abort server.event_log
            (begin_rest 2 server.event_log)
            (begin_record 2 server.event_log)
            minus_one)
on_txn_beg-abort_example =
    on_txn_beg-abort no_close 1 2 server cells no_close-IsQuiet (tt, tt) two_free log_small
      cells-IsValid (omega arith)

possible-node_with_example :
    ((r : ℤ) × (write_possible 2 (pos 3) server.locks ≡ ok (r, server.locks))
      × MayWrite (node_with (pos 3) server.locks.cell cells) r)
    × MayRead
        (node_with (pos 3) server.locks.cell cells)
        (read_possible 2 (pos 3) server.locks)
        server.locks
possible-node_with_example =
    possible-node_with 2 (pos 3) cells server.locks cells-IsValid.linked (omega arith)

-- Transaction 1 has created "/a" in directory 5, and commits.
abbrev path : List ℕ
path = 47 ∷ 97 ∷ []

abbrev mode : List ℕ
mode = 50 ∷ 53 ∷ 54 ∷ []

abbrev creat_record : LogRecord
creat_record = string_record (pos 0) 1 minus_one creat path mode

abbrev creat_tail : List ℕ
creat_tail = rest_bytes (path ++ 0 ∷ []) (mode ++ 0 ∷ []) creat_record

abbrev directory : FileLock
directory = record lock { writes_at = call_record (negsuc 3) (pos 0) ∷ [] }

abbrev created : Server
created = record (global_init (with_record [] creat_record minus_one creat_tail)) {
  locks = write (record { cell = λ _. none; head = 10 }) 10 (some directory);
  txns = client ∷ [];
}

created-IsValid : IsValid created.locks cells
created-IsValid = record {
  linked = (directory, refl, omega arith, refl, refl, refl, refl, refl);
  ordered = ground arith;
  chained = (λ n at. ground arith, tt);
}

created_file : created.event_log ≡ with_record [] creat_record minus_one creat_tail
unfolding global_init
created_file = refl

created_live : find_txn 1 created.txns ≡ some client
unfolding find_txn get_txn_node
created_live = refl

abbrev committed_log : List ℕ
committed_log = linked_log 1 txn_commit [] creat_tail creat_record minus_one

reads_back :
    (s : Server)
    → s.event_log ≡ committed_log
    → read_texts (pos 0) s ≡ ok ((path ++ 0 ∷ [], mode ++ 0 ∷ []), s)
unfolding read_texts fseek fread number_of split_at front_bytes rest_bytes put_long put_int bytes_of
    word_of type_number
reads_back s is = rw is refl

abbrev quiet_disk : Disk
quiet_disk = record {
  rename_file = λ old new. pure tt;
  tr_sync_file_to_disk = λ file. pure tt;
  unlink_file = λ file. pure tt;
  lseek = λ fd offset. pure tt;
  write_bytes = λ fd bytes. pure tt;
  tr_yaffs_close = no_close;
}

on_txn_commit-exclusive_example :
    (s' : Server) × (on_txn_commit quiet_disk 2 1 created ≡ ok (pos 1, s'))
    × IsValid s'.locks (without_all (10 ∷ []) cells)
    × IsRising s'.txns
    × IsNotLive 1 s'.txns
    × ((j : ℕ) → j ≢ 1 → find_txn j s'.txns ≡ find_txn j created.txns)
    × (s'.event_log ≡ ended_log 1 txn_commit [] creat_tail creat_record minus_one)
on_txn_commit-exclusive_example =
    on_txn_commit-exclusive quiet_disk 2 1 created client (10 ∷ []) cells [] creat_tail creat_record
      minus_one (λ file s. (s, refl, refl, refl, refl, refl))
      (λ file s. (s, refl, refl, refl, refl, refl)) no_close-IsQuiet created_live (tt, tt)
      (refl, omega arith, directory, refl, refl) (tt, tt) (inl (refl, refl), tt) created-IsValid
      ((inl (refl, (path ++ 0 ∷ [], mode ++ 0 ∷ []), reads_back), tt), tt) (omega arith) last
      created_file
