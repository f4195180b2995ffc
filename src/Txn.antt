-- ===== src/Txn.antt =====
-- The list of live transactions, TxFS_Mam/server/Txn_manager.c. Each walk of the source from
-- `head_txn_list` to the node of a transaction is `find_txn`; it leaves the list where the
-- transaction is not live, which is a fault in the callers.
pub mod Order
mod Tests
use backup_lfs.Base.{ℕ, ◌+◌, Option, none, some, List, [], ◌∷◌, ltb, ◌==◌, if◌then◌else◌}
use backup_lfs.Base.Int.{ℤ, minus_one, to_int}
use backup_lfs.Header.{null, TxnNode, running}

unfoldable pub get_txn_node : (new_txn_id : ℕ) (log_rec_no : ℤ) → TxnNode
get_txn_node new_txn_id log_rec_no = record {
  txn_id = new_txn_id;
  cur_state = running;
  first_lrn = log_rec_no;
  last_lrn = log_rec_no;
  file_rec_no = null;
  wait_mode = minus_one;
  waiting_for_inode = 0;
  before_after = 0;
}

-- `txn_id = txn_id+1` under `txnid_mutex`; the id is the number after it.
pub assign_new_txnid : (txn_id : ℕ) → ℕ × ℕ
assign_new_txnid txn_id = (txn_id + 1, txn_id + 1)

-- Before the first node of a larger id.
pub insert_txn_node : TxnNode → List TxnNode → List TxnNode
insert_txn_node new [] = new ∷ []
insert_txn_node new (t ∷ ts) =
    if ltb new.txn_id t.txn_id then new ∷ t ∷ ts else t ∷ insert_txn_node new ts

-- The record number, a `long` of the caller, is taken as an `int`.
unfoldable pub new_txn_insert : (new_txn_id : ℕ) (log_rec_no : ℤ) → List TxnNode → List TxnNode
unfolding insert_txn_node get_txn_node to_int
new_txn_insert new_txn_id log_rec_no ts =
    insert_txn_node (get_txn_node new_txn_id (to_int log_rec_no)) ts

unfoldable pub find_txn : ℕ → List TxnNode → Option TxnNode
find_txn txnid [] = none
find_txn txnid (t ∷ ts) = if t.txn_id == txnid then some t else find_txn txnid ts

-- A write through the pointer that the walk found.
unfoldable pub update_txn_node : ℕ → (TxnNode → TxnNode) → List TxnNode → List TxnNode
update_txn_node txnid f [] = []
update_txn_node txnid f (t ∷ ts) =
    if t.txn_id == txnid then f t ∷ ts else t ∷ update_txn_node txnid f ts

abbrev keep : TxnNode → Option (List TxnNode) → Option (List TxnNode)
keep t none = none
keep t (some ts) = some (t ∷ ts)

-- `none`: the walk leaves the list.
unfoldable pub txn_delete : ℕ → List TxnNode → Option (List TxnNode)
txn_delete txnid [] = none
txn_delete txnid (t ∷ ts) = if t.txn_id == txnid then some ts else keep t (txn_delete txnid ts)
