-- ===== src/Deadlock/Tests.antt =====
-- Transaction 1 owns file 5 and transaction 2 file 8; the one waits for the other's file, or each
-- for the other's.
use backup_lfs.Base.{
  ℕ, zero, suc, ◌≡◌, ◌<◌, length, subst, sym, refl, ◌↔◌, none, some, List, [], ◌∷◌, fault, ok,
  arith,
}
use backup_lfs.Base.Int.{pos}
use backup_lfs.Header.{FileLock, TxnNode, waiting}
use backup_lfs.Txn.{get_txn_node}
use backup_lfs.LockList.{Locks, write, file_node}
use backup_lfs.LockList.Chain.{lock_of, Cells, IsLockList}
use backup_lfs.Server.{Server, global_init}
use backup_lfs.Deadlock.{
  GraphNode, Name, waiting_nodes, edges_of, search_graph, detection_round, dfs_visit, dfs_edges,
  cycle,
}
use backup_lfs.Deadlock.Walk.{In, Edge, one, more, IsAcyclic}
use backup_lfs.Deadlock.Verdict.{search_graph-IsAcyclic}
use backup_lfs.Deadlock.Holders.{edges_answer, first_lock, edges_of-matching}
use backup_lfs.Deadlock.Build.{IsHeld, graph_of, graph_of-IsGraph, detection_round-IsAcyclic}
use backup_lfs.Deadlock.Missed.{edges_of-IsBusy}

abbrev first : FileLock
first = record (file_node 5 (pos 0) 2 1) { next = 20; prev = 10 }

abbrev second : FileLock
second = record (file_node 8 (pos 0) 2 2) { prev = 10 }

abbrev cells : Cells
cells = (10, lock_of first) ∷ (20, lock_of second) ∷ []

abbrev locks : Locks
locks = write (write (record { cell = λ _. none; head = 10 }) 10 (some first)) 20 (some second)

cells-IsLockList : IsLockList locks cells
cells-IsLockList = (
  first,
  refl,
  omega arith,
  refl,
  refl,
  refl,
  refl,
  (second, refl, omega arith, refl, refl, refl, refl, refl),
)

abbrev node : ℕ → ℕ → List ℕ → GraphNode
node t f es = record { txn_id = t; inode = f; edge = es }

-- Transaction 1 waits for file 8.
abbrev waiter : TxnNode
waiter = record (get_txn_node 1 (pos 0)) { cur_state = waiting; waiting_for_inode = 8 }

abbrev server : Server
server = record (global_init []) { locks = locks; txns = waiter ∷ get_txn_node 2 (pos 0) ∷ [] }

abbrev alone : List GraphNode
alone = node 1 8 [] ∷ []

waits_alone : graph_of cells [] 0 (waiting_nodes server.txns) ≡ alone
unfolding waiting_nodes get_txn_node
waits_alone = refl

alone-Edge : (i j : ℕ) → ¬ Edge alone i j
alone-Edge zero j (n, at, m) =
    let same : n ≡ node 1 8 [] = ground (arith, at) in subst (λ (k : GraphNode). In j k.edge) same m
alone-Edge (suc i) j (n, at, m) = absurd cc

alone-IsAcyclic : IsAcyclic alone
alone-IsAcyclic i (one _ j e) = alone-Edge i j e
alone-IsAcyclic i (more _ j _ e w) = alone-Edge i j e

held : IsHeld cells (waiting_nodes server.txns)
unfolding waiting_nodes get_txn_node
held = (λ e. absurd cc, tt)

enough : length (waiting_nodes server.txns) < 3
unfolding waiting_nodes get_txn_node
enough = omega arith

detection_round-IsAcyclic_example : detection_round 3 server ≡ ok (tt, server)
detection_round-IsAcyclic_example =
    detection_round-IsAcyclic server 3 cells cells-IsLockList (refl, (refl, tt)) (omega arith) held
      enough (subst IsAcyclic (sym waits_alone) alone-IsAcyclic)

-- Each of the two transactions waits for the other's file.
abbrev waiting_both : List GraphNode
waiting_both = node 1 8 [] ∷ node 2 5 [] ∷ []

abbrev both : List GraphNode
both = graph_of cells [] 0 waiting_both

search_graph-IsAcyclic_example : (search_graph both server ≡ ok ([], server)) ↔ IsAcyclic both
search_graph-IsAcyclic_example =
    search_graph-IsAcyclic both server (graph_of-IsGraph cells waiting_both)

names_both : search_graph both server ≡ ok ((1, 8) ∷ (2, 5) ∷ [], server)
unfolding search_graph dfs_visit dfs_edges cycle
names_both = refl

-- Two cycles that overlap: `cycle` goes round the inner one and never returns to where it began.
overlapping :
    search_graph
      (node 1 11 (2 ∷ []) ∷ node 2 12 (2 ∷ 3 ∷ []) ∷ node 3 13 (1 ∷ []) ∷ node 4 14 (0 ∷ []) ∷ [])
      server
    ≡ fault
unfolding search_graph dfs_visit dfs_edges cycle
overlapping = refl

abbrev other : List Name
other = (1, 2) ∷ []

edges_of-matching_example :
    edges_of 3 [] other 8 locks ≡ edges_answer locks [] other (first_lock 8 cells)
edges_of-matching_example =
    edges_of-matching locks 3 8 [] other cells cells-IsLockList (refl, (refl, tt)) (omega arith)
      (omega arith) (omega arith)

-- Transactions 1 and 2 read file 5, and 3 waits to write it; only 2 waits for a file.
abbrev reader : FileLock
reader = record (file_node 5 (pos 0) 0 1) { next = 20; next_shared_rec = 20; prev = 10 }

abbrev reader2 : FileLock
reader2 = record (file_node 5 (pos 0) 0 2) { prev = 10; prev_shared_rec = 10 }

abbrev readers : Locks
readers = write (write (record { cell = λ _. none; head = 10 }) 10 (some reader)) 20 (some reader2)

abbrev reading : Cells
reading = (10, lock_of reader) ∷ (20, lock_of reader2) ∷ []

readers-IsLockList : IsLockList readers reading
readers-IsLockList = (
  reader,
  refl,
  omega arith,
  refl,
  refl,
  refl,
  refl,
  (reader2, refl, omega arith, refl, refl, refl, refl, refl),
)

edges_of-IsBusy_example : edges_of 3 other [] 5 readers ≡ ok ([], readers)
edges_of-IsBusy_example =
    edges_of-IsBusy readers 3 5 other [] reading 10 (lock_of reader) readers-IsLockList refl
      (omega arith, tt) tt (omega arith) (omega arith) (omega arith)
