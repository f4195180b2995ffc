-- ===== src/Release/Tests.antt =====
-- Transaction 1 writes file 5, another waits for it, and transaction 2 reads file 8.
use backup_lfs.Base.{ℕ, ◌≡◌, refl, none, some, List, [], ◌∷◌, ok, inl, arith, Code, pure}
use backup_lfs.Base.Int.{ℤ, pos}
use backup_lfs.Header.{FileLock, TxnNode, null}
use backup_lfs.Txn.{get_txn_node, find_txn, update_txn_node}
use backup_lfs.LockList.{write, file_node}
use backup_lfs.LockList.Chain.{lock_of, Cells, IsValid}
use backup_lfs.WaitList.{begin_wait_list, search_wait_list}
use backup_lfs.Server.{Server, global_init}
use backup_lfs.Release.{release_locks_on_abort}
use backup_lfs.Release.Exclusive.{IsQuiet, woken_by}
use backup_lfs.Release.Held.{without_all}
use backup_lfs.Release.Loop.{release_locks_on_abort-exclusive}

abbrev first : FileLock
first = record (file_node 5 (pos 0) 2 1) { next = 20; prev = 10; fd = pos 3 }

abbrev second : FileLock
second = record (file_node 8 (pos 0) 0 2) { prev = 10 }

abbrev cells : Cells
cells = (10, lock_of first) ∷ (20, lock_of second) ∷ []

abbrev writer : TxnNode
writer = record (get_txn_node 1 (pos 0)) { file_rec_no = 10 }

abbrev server : Server
server = record (global_init []) {
  locks = write (write (record { cell = λ _. none; head = 10 }) 10 (some first)) 20 (some second);
  txns = writer ∷ [];
  waits = begin_wait_list 5 [];
}

cells-IsValid : IsValid server.locks cells
cells-IsValid = record {
  linked = (
    first,
    refl,
    omega arith,
    refl,
    refl,
    refl,
    refl,
    (second, refl, omega arith, refl, refl, refl, refl, refl),
  );
  ordered = ground arith;
  chained = (λ n at. ground arith, (λ n at. ground arith, tt));
}

abbrev no_close : ℤ → Code Server (Unit {0})
no_close fd = pure tt

no_close-IsQuiet : IsQuiet no_close
no_close-IsQuiet fd s = (s, refl, refl, refl, refl, refl)

live : find_txn 1 server.txns ≡ some writer
unfolding find_txn get_txn_node
live = refl

release_locks_on_abort-exclusive_example :
    (woken : List ℕ) × (s' : Server) × (release_locks_on_abort no_close 2 1 server ≡ ok (woken, s'))
    × IsValid s'.locks (without_all (10 ∷ []) cells)
    × (s'.txns ≡ update_txn_node 1 (λ u. record u { file_rec_no = null }) server.txns)
    × (s'.event_log ≡ server.event_log)
release_locks_on_abort-exclusive_example =
    release_locks_on_abort-exclusive no_close 2 1 server writer (10 ∷ []) cells no_close-IsQuiet
      live (refl, omega arith, first, refl, refl) (tt, tt) (inl (refl, refl), tt) cells-IsValid
      (omega arith)

-- The waiting thread is woken.
wakes_waiter : woken_by (search_wait_list 5 server.waits) 5 ≡ 5 ∷ []
unfolding begin_wait_list search_wait_list
wakes_waiter = refl
