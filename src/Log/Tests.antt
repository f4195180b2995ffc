-- ===== src/Log/Tests.antt =====
-- Transaction 1 begins, and then commits or writes the two bytes "hi".
use backup_lfs.Base.{ℕ, ◌≡◌, refl, some, List, [], ◌∷◌, ok}
use backup_lfs.Base.Int.{pos, minus_one}
use backup_lfs.Header.{TxnNode}
use backup_lfs.Txn.{get_txn_node, find_txn}
use backup_lfs.Server.{Server, global_init}
use backup_lfs.Log.{
  LogRecord, rename, creat, unlink, txn_beg, txn_commit, na, plain_record, rest_bytes, string_bytes,
  log_txn_beg, extract_record_no, append_record, log_txn_commit, log_write,
}
use backup_lfs.Log.Paths.{log_rename, log_creat, log_unlink, NamedLinks, log_rename-creat-unlink}
use backup_lfs.Log.Chain.{
  with_record, Links, new_bytes, next_number, update_record, log_txn_commit-Links, log_write-Links,
}

abbrev begin_record : LogRecord
begin_record = plain_record (pos 0) 1 minus_one txn_beg

abbrev begun : List ℕ
begun = with_record [] begin_record minus_one (rest_bytes na na begin_record)

abbrev client : TxnNode
client = get_txn_node 1 (pos 0)

abbrev server : Server
server = record (global_init begun) { txns = client ∷ [] }

-- The log after the begin of the transaction.
begins : log_txn_beg 1 (global_init []) ≡ ok (pos 0, global_init begun)
unfolding log_txn_beg global_init extract_record_no append_record string_bytes
begins = refl

live : find_txn 1 server.txns ≡ some client
unfolding find_txn get_txn_node
live = refl

last : client.last_lrn ≡ pos 0
unfolding get_txn_node
last = refl

file : server.event_log ≡ begun
unfolding global_init
file = refl

abbrev tail : List ℕ
tail = rest_bytes na na begin_record

log_txn_commit-Links_example :
    Links 1 [] begin_record minus_one tail
      (new_bytes na
        (plain_record (next_number [] begin_record minus_one tail) 1 (pos 0) txn_commit))
      (log_txn_commit 1)
      server
log_txn_commit-Links_example =
    log_txn_commit-Links 1 server client [] tail begin_record minus_one live last file

abbrev hi : List ℕ
hi = 104 ∷ 105 ∷ []

hi_fits : string_bytes 2 hi ≡ some hi
unfolding string_bytes
hi_fits = refl

log_write-Links_example :
    Links 1 [] begin_record minus_one tail
      (new_bytes hi
        (update_record (next_number [] begin_record minus_one tail) 1 (pos 0) (pos 3) (pos 0) 2 hi))
      (log_write 1 (pos 3) (pos 0) 2 hi)
      server
log_write-Links_example =
    log_write-Links 1 server client [] tail begin_record minus_one live last file (pos 3) (pos 0) 2
      hi hi hi_fits

log_rename-creat-unlink_example :
    NamedLinks 1 server client [] tail begin_record minus_one live last file rename hi na
      (log_rename 1 hi na)
    × NamedLinks 1 server client [] tail begin_record minus_one live last file creat hi na
        (log_creat 1 hi na)
    × NamedLinks 1 server client [] tail begin_record minus_one live last file unlink hi na
        (log_unlink 1 hi)
log_rename-creat-unlink_example =
    log_rename-creat-unlink 1 server client [] tail begin_record minus_one live last file hi na
