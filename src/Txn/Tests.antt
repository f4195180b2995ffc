-- ===== src/Txn/Tests.antt =====
-- The theorems on the live transactions at a small list.
use backup_lfs.Base.{◌≡◌, refl, none, some, [], ◌∷◌, List, arith, ◌==◌, if◌then◌else◌, ℕ}
use backup_lfs.Base.Int.{to_int, pos}
use backup_lfs.Header.{TxnNode}
use backup_lfs.Txn.{get_txn_node, new_txn_insert, find_txn, txn_delete}
use backup_lfs.Txn.Order.{IsRising, Deletes, new_txn_insert-IsRising, txn_delete-Deletes}

abbrev live : List TxnNode
live = get_txn_node 2 (pos 0) ∷ get_txn_node 6 (pos 66) ∷ []

live-IsRising : IsRising live
unfolding get_txn_node
live-IsRising = omega arith

new_txn_insert-IsRising_example :
    IsRising (new_txn_insert 4 (pos 132) live)
    × ((i : ℕ)
        → find_txn i (new_txn_insert 4 (pos 132) live)
          ≡ (if 4 == i then some (get_txn_node 4 (pos 132)) else find_txn i live))
    × (txn_delete 4 (new_txn_insert 4 (pos 132) live) ≡ some live)
unfolding find_txn get_txn_node to_int
new_txn_insert-IsRising_example = new_txn_insert-IsRising 4 (pos 132) live live-IsRising refl

txn_delete-Deletes_example : Deletes 6 live (txn_delete 6 live)
txn_delete-Deletes_example = txn_delete-Deletes 6 live live-IsRising

delete_not_live : txn_delete 5 live ≡ none
unfolding txn_delete get_txn_node
delete_not_live = refl
