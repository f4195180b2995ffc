-- ===== src/Deadlock.antt =====
-- The detection of deadlocks, TxFS_Mam/server/deadlock.c: the wait-for graph of the waiting
-- transactions, the depth-first search for cycles in it, and one round of `deadlock_detection`. A
-- pointer to a node of the graph is its position in the list, and an edge is that of its target. The
-- `visited` fields of the nodes stand together in the state of the search. The arrays `in_deadlock`
-- and `in_cycle` have 50 entries; a write behind them is a fault.
pub mod Walk
pub mod White
pub mod Alarm
pub mod Visit
pub mod Blacken
pub mod Verdict
pub mod Holders
pub mod Build
pub mod Missed
mod Tests
use backup_lfs.Base.{
  ℕ, zero, suc, ◌+◌, Option, none, some, List, [], ◌∷◌, ◌++◌, Bool, true, false, leb, ◌==◌,
  if◌then◌else◌, length, get_elem?, Code, pure, ◌>>=◌, ◌>>◌, get, put, crash, or_fault, out_of_fuel,
  and_then, ok,
}
use backup_lfs.Header.{Ptr, null, TxnState, running, waiting, aborting, commit, TxnNode}
use backup_lfs.LockList.{Locks, load}
use backup_lfs.WaitList.{doom}
use backup_lfs.Server.{Server, on_locks, on_waits, count_up}

-- `struct wait_graph_node`, its list of edges with it.
pub record GraphNode : Type 0 where
  pub txn_id : ℕ
  pub inode : ℕ
  pub edge : List ℕ

abbrev pub is_waiting : TxnState → Bool
is_waiting running = false
is_waiting waiting = true
is_waiting aborting = false
is_waiting commit = false

-- The list of the waiting transactions, with no edges yet.
unfoldable pub waiting_nodes : List TxnNode → List GraphNode
waiting_nodes [] = []
waiting_nodes (t ∷ ts) =
    let rest = waiting_nodes ts in
    if is_waiting t.cur_state
    then record { txn_id = t.txn_id; inode = t.waiting_for_inode; edge = [] } ∷ rest
    else rest

-- `while(ptr_file->file_inode != ptr_wait->inode)`
unfoldable pub find_holder : ℕ → ℕ → Ptr → Code Locks Ptr
unfolding load
find_holder zero inode p = λ _. out_of_fuel
find_holder (suc k) inode p = do
  n ← load p
  if n.file_inode == inode then pure p else find_holder k inode (n.next)

-- A node's position and its transaction.
abbrev pub Name : Type 0
Name = ℕ × ℕ

-- The loop over `foll_wait`, which walks `all` and starts again for the next shared lock of the
-- file. Behind an exclusive lock it goes on, since `foll_wait == NULL` assigns nothing. The results
-- are the edges and `ptr_file`.
unfoldable pub scan_waiting :
    ℕ → (all rest : List Name) (ptr_file : Ptr) (edges : List ℕ) → Code Locks (List ℕ × Ptr)
unfolding load
scan_waiting zero all rest p edges = λ _. out_of_fuel
scan_waiting (suc k) all [] p edges = pure (edges, p)
scan_waiting (suc k) all ((i, t) ∷ rest) p edges = do
  n ← load p
  if t == n.parent_txn
      then (if n.file_mode == 0
          then (if n.next_shared_rec == null
              then pure (edges ++ i ∷ [], p)
              else scan_waiting k all all (n.next_shared_rec) (edges ++ i ∷ []))
          else scan_waiting k all rest p (edges ++ i ∷ []))
      else scan_waiting k all rest p edges

abbrev pub names_from : ℕ → List GraphNode → List Name
names_from i [] = []
names_from i (w ∷ ws) = (i, w.txn_id) ∷ names_from (suc i) ws

-- The edges of one node: first to the nodes behind it, then to those before it.
unfoldable pub edges_of : (fuel : ℕ) (before after : List Name) (inode : ℕ) → Code Locks (List ℕ)
unfolding find_holder scan_waiting
edges_of fuel before after inode = do
  s ← get
  p ← find_holder fuel inode (s.head)
  (behind, q) ← scan_waiting fuel after after p []
  (edges, _) ← scan_waiting fuel before before q behind
  pure edges

unfoldable pub add_edges :
    (fuel : ℕ) (before : List Name) (i : ℕ) → List GraphNode → Code Locks (List GraphNode)
unfolding edges_of
add_edges fuel before i [] = pure []
add_edges fuel before i (w ∷ ws) = do
  edges ← edges_of fuel before (names_from (suc i) ws) (w.inode)
  rest ← add_edges fuel (before ++ (i, w.txn_id) ∷ []) (suc i) ws
  pure (record w { edge = edges } ∷ rest)

unfoldable pub construct_wait_for_graph : (fuel : ℕ) → Code Server (List GraphNode)
unfolding waiting_nodes add_edges
construct_wait_for_graph fuel = do s ← get; on_locks (add_edges fuel [] 0 (waiting_nodes (s.txns)))

-- `visited` is 0 for white, 1 for grey and 2 for black; `in_deadlock` has `in_deadlock_index`
-- entries.
pub record Search : Type 0 where
  pub visited : ℕ → ℕ
  pub in_deadlock : List (ℕ × ℕ)

abbrev pub painted : (ℕ → ℕ) → ℕ → ℕ → ℕ → ℕ
painted visited i colour j = if i == j then colour else visited j

abbrev pub paint : ℕ → ℕ → Code Search (Unit {0})
paint i colour s = put (record s { visited = painted s.visited i colour }) s

-- The target of the first edge to a grey node.
abbrev pub first_grey : (ℕ → ℕ) → List ℕ → Option ℕ
first_grey visited [] = none
first_grey visited (j ∷ js) =
    let rest = first_grey visited js in if visited j == 1 then some j else rest

-- `in_deadlock[in_deadlock_index] = …; in_deadlock_index++`
unfoldable pub note_deadlock : GraphNode → Code Search (Unit {0})
note_deadlock n s =
    if leb 50 (length s.in_deadlock)
    then crash s
    else put (record s { in_deadlock = s.in_deadlock ++ (n.txn_id, n.inode) ∷ [] }) s

-- The inner loop follows the first edge before it looks for the end of the list.
abbrev pub look_again : (edge : List ℕ) → Code Search (Unit {0}) → Code Search (Unit {0})
look_again [] again = crash
look_again (j ∷ js) again = again

module _ (g : List GraphNode) where
  -- What follows the inner loop: it noted `n` and goes on at the grey node, or found no grey node and
  -- looks again.
  abbrev pub cycle_next :
      (again : Code Search (Unit {0})) (on : ℕ → Code Search (Unit {0})) (ptr_cycle i : ℕ)
      (n : GraphNode)
      → Option ℕ
      → Code Search (Unit {0})
  cycle_next again on ptr_cycle i n none = look_again (n.edge) again
  cycle_next again on ptr_cycle i n (some v) = do
    note_deadlock n
    if leb 50 (suc i) then crash else if v == ptr_cycle then pure tt else on v

  -- The loop of `cycle`, with `in_cycle[i]`.
  unfoldable pub cycle_loop : ℕ → (ptr_cycle i current : ℕ) → Code Search (Unit {0})
  unfolding note_deadlock
  cycle_loop zero ptr_cycle i current = λ _. out_of_fuel
  cycle_loop (suc k) ptr_cycle i current = do
    n ← or_fault (get_elem? g current)
    s ← get
    cycle_next (cycle_loop k ptr_cycle i current) (cycle_loop k ptr_cycle (suc i)) ptr_cycle i n
        (first_grey (s.visited) (n.edge))

  -- A round for each entry of `in_cycle`.
  unfoldable pub cycle : (ptr_cycle : ℕ) → Code Search (Unit {0})
  unfolding cycle_loop
  cycle ptr_cycle = cycle_loop 50 ptr_cycle 0 ptr_cycle

  -- The loop of `dfs_visit` over the edges.
  unfoldable pub dfs_edges : (visit : ℕ → Code Search (Unit {0})) → List ℕ → Code Search (Unit {0})
  dfs_edges visit [] = pure tt
  dfs_edges visit (c ∷ cs) = do
    s ← get
    if s.visited c == 1 then cycle c else pure tt
    s' ← get
    if s'.visited c == 0 then visit c else pure tt
    dfs_edges visit cs

  unfoldable pub dfs_visit : ℕ → ℕ → Code Search (Unit {0})
  dfs_visit zero i = λ _. out_of_fuel
  dfs_visit (suc k) i = do
    n ← or_fault (get_elem? g i)
    paint i 1
    dfs_edges (dfs_visit k) (n.edge)
    paint i 2

  -- The loop over the nodes from `i` on.
  unfoldable pub detect_from : (fuel rounds i : ℕ) → Code Search (Unit {0})
  detect_from fuel zero i = pure tt
  detect_from fuel (suc rounds) i = do
    s ← get
    if s.visited i == 0 then dfs_visit fuel i else pure tt
    detect_from fuel rounds (suc i)

  -- The recursion is at most as deep as there are nodes.
  unfoldable pub detect_cycles : Code Search (Unit {0})
  unfolding detect_from
  detect_cycles = detect_from (length g) (length g) 0

abbrev pub blank : Search
blank = record { visited = λ _. 0; in_deadlock = [] }

-- The victim is the first transaction that was noted.
abbrev pub name_victim : List (ℕ × ℕ) → Code Server (Unit {0})
name_victim [] = pure tt
name_victim ((txnid, inode) ∷ _) = do
  count_up (λ c. record c { abrt_on_dead = c.abrt_on_dead + 1 })
  on_waits (doom inode txnid)

unfoldable pub search_graph : List GraphNode → Code Server (List (ℕ × ℕ))
unfolding detect_cycles
search_graph g s = and_then (detect_cycles g blank) (λ r. ok (r.1.in_deadlock, s))

-- One round of the loop of `deadlock_detection`.
unfoldable pub detection_round : (fuel : ℕ) → Code Server (Unit {0})
unfolding construct_wait_for_graph search_graph count_up doom
detection_round fuel = do
  g ← construct_wait_for_graph fuel
  found ← search_graph g
  name_victim found
