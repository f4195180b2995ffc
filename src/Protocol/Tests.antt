-- ===== src/Protocol/Tests.antt =====
-- A file is opened, read and closed with the transaction.
use backup_lfs.Base.{some, true, false, ◌++◌, fault, pure, ℕ, ◌≡◌, refl, List, [], ◌∷◌}
use backup_lfs.Protocol.{
  Request, open_call, read_call, txn_beg, stat_call, txn_commit, quit, no_of_arg, strings_read,
}
use backup_lfs.Base.Int.{pos}
use backup_lfs.Server.{global_init}
use backup_lfs.Calls.{Outside}
use backup_lfs.Protocol.Dispatch.{Session, Around, dispatch}
use backup_lfs.Protocol.Strings.{dispatch-strings_read}

abbrev one_byte : ℕ → ℕ
one_byte i = 1

abbrev session : List Request
session =
    record { call = open_call; sizes = one_byte; bytes_read = 0 }
    ∷ record { call = read_call; sizes = one_byte; bytes_read = 7 }
    ∷ record { call = txn_commit; sizes = one_byte; bytes_read = 0 }
    ∷ record { call = quit; sizes = one_byte; bytes_read = 0 }
    ∷ []

abbrev outside : Outside
outside = record {
  tr_yaffs_close_abort = λ fd. pure tt;
  tr_object_id_from_path = λ path. pure 8;
  tr_object_id_parent_from_path = λ path. pure 9;
  tr_file_open_without_mode = λ path flags. pure (pos 3);
  tr_yaffs_stat = λ path. pure (some (pos 8));
  tr_ext_creat_yaffs_creat = λ path mode. pure (pos 77);
  tr_lseek = λ fd offset whence. pure offset;
  tr_file_read = λ fd nbytes. pure (pos 0, []);
  access = λ path. pure true;
  stat = λ path. pure (some (8, false));
  dirname = λ path. ([], []);
  read_bit = 0;
}

abbrev around : Around
around = record {
  atoi = λ text. pos 3;
  number = λ text. 3;
  decimal = λ z. 51 ∷ [];
  tr_file_write = λ fd buf offset n. pure (pos n);
  disk = record {
    rename_file = λ old new. pure tt;
    tr_sync_file_to_disk = λ path. pure tt;
    unlink_file = λ path. pure tt;
    lseek = λ fd offset. pure tt;
    write_bytes = λ fd bytes. pure tt;
    tr_yaffs_close = λ fd. pure tt;
  };
  on_bck_beg = λ root destination. pure tt;
  set_transaction_id = λ id. pure tt;
  new_first = 40;
  new_second = 50;
  new_third = 60;
  tree = [];
}

abbrev begins : Session
begins = record { server = global_init []; txnid = 0; str = [] }

-- "stat" with a path, and what the client sends besides.
abbrev stat_text : List (List ℕ)
stat_text = (115 ∷ 116 ∷ 97 ∷ 116 ∷ []) ∷ (47 ∷ 97 ∷ []) ∷ []

abbrev besides : List (List ℕ)
besides = (98 ∷ 117 ∷ 102 ∷ []) ∷ []

-- "txn_beg"
abbrev begin_text : List (List ℕ)
begin_text = (116 ∷ 120 ∷ 110 ∷ 95 ∷ 98 ∷ 101 ∷ 103 ∷ []) ∷ []

dispatch-strings_read_example :
    (dispatch outside around 2 stat_call (stat_text ++ besides) begins
      ≡ dispatch outside around 2 stat_call stat_text begins)
    × (dispatch outside around 2 txn_beg begin_text begins ≡ fault)
unfolding strings_read no_of_arg
dispatch-strings_read_example =
    dispatch-strings_read outside around 2 stat_call stat_text besides begins 0 begin_text refl refl
