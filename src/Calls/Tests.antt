-- ===== src/Calls/Tests.antt =====
-- Transaction 4, which has no lock, opens file 8, which transaction 2 reads, and creates one in
-- directory 9.
use backup_lfs.Base.{
  ℕ, ◌≡◌, refl, none, some, List, [], ◌∷◌, ok, inl, inr, arith, pure, true, false, length,
}
use backup_lfs.Base.Int.{pos, minus_one}
use backup_lfs.Header.{FileLock}
use backup_lfs.Txn.{get_txn_node, find_txn}
use backup_lfs.LockList.{write, file_node}
use backup_lfs.LockList.Chain.{lock_of, Cells, IsValid}
use backup_lfs.Server.{Server, global_init}
use backup_lfs.Locking.Grant.{IsClient}
use backup_lfs.Locking.Same.{SameLog}
use backup_lfs.Log.{LogRecord, txn_beg, na, plain_record, rest_bytes}
use backup_lfs.Log.Chain.{with_record}
use backup_lfs.Calls.{Outside, Progress, same_text, file_open_flags, on_open, on_creat}
use backup_lfs.Calls.Answer.{MayAsk}
use backup_lfs.Calls.Opens.{Ends, on_open-Ends}
use backup_lfs.Calls.Creates.{CreatNoted, on_creat-Ends}

abbrev reader : FileLock
reader = record (file_node 8 (pos 0) 0 2) { prev = 20 }

abbrev cells : Cells
cells = (20, lock_of reader) ∷ []

abbrev begin_record : LogRecord
begin_record = plain_record (pos 0) 4 minus_one txn_beg

abbrev tail : List ℕ
tail = rest_bytes na na begin_record

abbrev server : Server
server = record (global_init (with_record [] begin_record minus_one tail)) {
  locks = write (record { cell = λ _. none; head = 20 }) 20 (some reader);
  txns = get_txn_node 4 (pos 0) ∷ [];
}

cells-IsValid : IsValid server.locks cells
cells-IsValid = record {
  linked = (reader, refl, omega arith, refl, refl, refl, refl, refl);
  ordered = ground arith;
  chained = (λ n at. ground arith, tt);
}

abbrev outside : Outside
outside = record {
  tr_yaffs_close_abort = λ fd. pure tt;
  tr_object_id_from_path = λ path. pure 8;
  tr_object_id_parent_from_path = λ path. pure 9;
  tr_file_open_without_mode = λ path flags. pure (pos 3);
  tr_yaffs_stat = λ path. pure (some (pos 8));
  tr_ext_creat_yaffs_creat = λ path mode. pure (pos 77);
  tr_lseek = λ fd offset whence. pure offset;
  tr_file_read = λ fd nbytes. pure (pos 0, []);
  access = λ path. pure true;
  stat = λ path. pure (some (8, false));
  dirname = λ path. ([], []);
  read_bit = 0;
}

client : IsClient server 4 2 (get_txn_node 4 (pos 0)) []
unfolding find_txn get_txn_node global_init
client = record { live = refl; owns = refl; enough = omega arith; room = omega arith }

may : MayAsk outside 2 4 server (get_txn_node 4 (pos 0)) [] 40 cells
unfolding get_txn_node
may = record {
  client = client;
  pass = inr (omega arith, inl refl);
  ne = omega arith;
  fresh = refl;
  valid = cells-IsValid;
  modes = (omega arith, tt);
  enough = omega arith;
}

reads : file_open_flags (48 ∷ []) ≡ some 0
unfolding file_open_flags same_text
reads = refl

on_open-Ends_example :
    (p : Progress) × (s' : Server) × (cs' : Cells) × (on_open outside 2 4
        (47 ∷ 97 ∷ [])
        (48 ∷ [])
        40
        server
      ≡ ok (p, s'))
    × IsValid s'.locks cs'
    × SameLog server s'
    × Ends 8 4 cells (pos 3) (λ s' n. (n.fd ≡ pos 3) × (n.file_offset ≡ pos 0)) p s' cs'
on_open-Ends_example =
    on_open-Ends outside 2 4 8 0 (47 ∷ 97 ∷ []) (48 ∷ []) (pos 3) server (get_txn_node 4 (pos 0)) []
      40 cells (omega arith) refl reads (λ s'. refl) refl may

last : (get_txn_node 4 (pos 0)).last_lrn ≡ pos 0
unfolding get_txn_node
last = refl

file : server.event_log ≡ with_record [] begin_record minus_one tail
unfolding global_init
file = refl

on_creat-Ends_example :
    (p : Progress) × (s' : Server) × (cs' : Cells) × (on_creat outside 2 4
        (47 ∷ 97 ∷ [])
        na
        40
        server
      ≡ ok (p, s'))
    × IsValid s'.locks cs'
    × Ends 9 4 cells
        (pos 77)
        (CreatNoted 4 (47 ∷ 97 ∷ []) na [] tail begin_record (pos (length server.event_log)))
        p
        s'
        cs'
on_creat-Ends_example =
    on_creat-Ends outside 2 4 9 (47 ∷ 97 ∷ []) na [] tail begin_record minus_one (pos 77) server
      (get_txn_node 4 (pos 0)) [] 40 cells (omega arith) refl (λ s'. refl) last file may
