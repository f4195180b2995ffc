-- ===== src/Deadlock/Build.antt =====
-- The whole wait-for graph, where all locks are exclusive, and one round of the detection.
use backup_lfs.Base.{
  ℕ, zero, suc, ◌+◌, ◌<◌, ◌≤◌, ◌≡◌, ◌≢◌, refl, subst, inl, inr, Option, none, some, List, [], ◌∷◌,
  ◌++◌, arith, ◌==◌, length, length-append, get_elem?, All, ok, Bool-cases, Option-cases,
}
use backup_lfs.LockList.{Locks}
use backup_lfs.LockList.Chain.{Cell, Cells, IsLockList}
use backup_lfs.Server.{Server}
use backup_lfs.Deadlock.{
  GraphNode, Name, names_from, waiting_nodes, add_edges, construct_wait_for_graph, detection_round,
}
use backup_lfs.Deadlock.Walk.{In, IsAcyclic, IsGraph}
use backup_lfs.Deadlock.Verdict.{search_graph-IsAcyclic}
use backup_lfs.Deadlock.Holders.{first_lock, matching, edges_of-matching}

-- A reference construction: each waiting transaction has an edge to each other one that owns the
-- first lock on the file it waits for.
abbrev pub edges_for : Option Cell → (before after : List Name) → List ℕ
edges_for none before after = []
edges_for (some (a, l)) before after = matching l.owner after ++ matching l.owner before

abbrev pub graph_of : Cells → List Name → ℕ → List GraphNode → List GraphNode
graph_of cs before i [] = []
graph_of cs before i (w ∷ ws) =
    record w { edge = edges_for (first_lock w.inode cs) before (names_from (suc i) ws) }
    ∷ graph_of cs (before ++ (i, w.txn_id) ∷ []) (suc i) ws

-- Somebody has a lock on each file that is waited for.
abbrev pub IsHeld : Cells → List GraphNode → Type 0
IsHeld cs ws = All (λ (w : GraphNode). first_lock w.inode cs ≢ none) ws

length-names_from : (i : ℕ) (ws : List GraphNode) → length (names_from i ws) ≡ length ws
length-names_from i [] = refl
length-names_from i (w ∷ ws) = omega (arith, length-names_from (suc i) ws)

length-graph_of :
    (cs : Cells) (before : List Name) (i : ℕ) (ws : List GraphNode)
    → length (graph_of cs before i ws) ≡ length ws
length-graph_of cs before i [] = refl
length-graph_of cs before i (w ∷ ws) =
    omega (arith, length-graph_of cs (before ++ (i, w.txn_id) ∷ []) (suc i) ws)

module _ (s : Locks) (fuel : ℕ) (cs : Cells) (list : IsLockList s cs)
    (modes : All (λ (c : Cell). c.1.mode ≡ 1) cs) (short : length cs < fuel) where
  add_edges-graph_of :
      (before : List Name) (i : ℕ) (ws : List GraphNode)
      → IsHeld cs ws
      → length before + length ws < fuel
      → add_edges fuel before i ws s ≡ ok (graph_of cs before i ws, s)
  unfolding add_edges
  add_edges-graph_of before i [] held enough = refl
  add_edges-graph_of before i (w ∷ ws) (here, held) enough =
      let after = names_from (suc i) ws in
      let edges =
        edges_of-matching s fuel w.inode before after cs list modes short (omega arith)
          (omega (arith, length-names_from (suc i) ws)) in
      let rest =
        add_edges-graph_of (before ++ (i, w.txn_id) ∷ []) (suc i) ws held
          (omega (arith, length-append before ((i, w.txn_id) ∷ []))) in
      elim (Option-cases (first_lock w.inode cs)) [
        | inl free ↦ absurd (here free)
        | inr ((a, l), found) ↦ rw (edges, found, rest) refl
      ]

-- Positions of nodes.
abbrev Within : ℕ → List ℕ → Type 0
Within n js = (j : ℕ) → In j js → j < n

Within-append : (n : ℕ) (xs ys : List ℕ) → Within n xs → Within n ys → Within n (xs ++ ys)
Within-append n [] ys p q j m = q j m
Within-append n (x ∷ xs) ys p q j (inl e) = p j (inl e)
Within-append n (x ∷ xs) ys p q j (inr m) = Within-append n xs ys (λ k h. p k (inr h)) q j m

abbrev Names : ℕ → List Name → Type 0
Names n names = All (λ (x : Name). x.0 < n) names

Names-append : (n : ℕ) (xs ys : List Name) → Names n xs → Names n ys → Names n (xs ++ ys)
Names-append n [] ys p q = q
Names-append n (x ∷ xs) ys (here, p) q = (here, Names-append n xs ys p q)

names_from-Names : (n i : ℕ) (ws : List GraphNode) → i + length ws ≤ n → Names n (names_from i ws)
names_from-Names n i [] le = tt
names_from-Names n i (w ∷ ws) le = (omega arith, names_from-Names n (suc i) ws (omega arith))

matching-Within : (n o : ℕ) (names : List Name) → Names n names → Within n (matching o names)
matching-Within n o [] p j m = absurd m
matching-Within n o ((i, t) ∷ names) (lt, p) j m =
    let later = λ (h : In j (matching o names)). matching-Within n o names p j h in
    elim (Bool-cases (t == o)) [
      | inl hit ↦ elim (let m' : In j (i ∷ matching o names) = rw hit at m in m') [
        | inl e ↦ subst (λ k. k < n) e lt
        | inr h ↦ later h
      ]
      | inr miss ↦ later (rw miss at m)
    ]

edges_for-Within :
    (n : ℕ) (o : Option Cell) (before after : List Name)
    → Names n before
    → Names n after
    → Within n (edges_for o before after)
edges_for-Within n none before after p q = λ j m. absurd m
edges_for-Within n (some (a, l)) before after p q =
    Within-append n (matching l.owner after) (matching l.owner before)
      (matching-Within n l.owner after q) (matching-Within n l.owner before p)

graph_of-Within :
    (n : ℕ) (cs : Cells) (before : List Name) (i : ℕ) (ws : List GraphNode)
    → Names n before
    → i + length ws ≤ n
    → (k j : ℕ) (v : GraphNode) → get_elem? (graph_of cs before i ws) k ≡ some v
    → In j v.edge
    → j < n
graph_of-Within n cs before i [] p le k j v at m = absurd cc
graph_of-Within n cs before i (w ∷ ws) p le zero j v at m =
    let q = names_from-Names n (suc i) ws (omega arith) in
    edges_for-Within n (first_lock w.inode cs) before (names_from (suc i) ws) p q j (
      let same : v
          ≡ record w { edge = edges_for (first_lock w.inode cs) before (names_from (suc i) ws) } =
        ground (arith, at) in
      subst (λ (u : GraphNode). In j u.edge) same m)
graph_of-Within n cs before i (w ∷ ws) p le (suc k) j v at m =
    graph_of-Within n cs (before ++ (i, w.txn_id) ∷ []) (suc i) ws
      (Names-append n before ((i, w.txn_id) ∷ []) p (omega arith, tt)) (omega arith) k j v at m

pub graph_of-IsGraph : (cs : Cells) (ws : List GraphNode) → IsGraph (graph_of cs [] 0 ws)
graph_of-IsGraph cs ws i j (v, at, m) =
    let lt = graph_of-Within (length ws) cs [] 0 ws tt (omega arith) i j v at m in
    omega (arith, length-graph_of cs [] 0 ws)

module _ (s : Server) (fuel : ℕ) (cs : Cells) (list : IsLockList s.locks cs)
    (modes : All (λ (c : Cell). c.1.mode ≡ 1) cs) (short : length cs < fuel)
    (held : IsHeld cs (waiting_nodes s.txns)) (enough : length (waiting_nodes s.txns) < fuel) where
  pub construct-graph_of :
      construct_wait_for_graph fuel s ≡ ok (graph_of cs [] 0 (waiting_nodes s.txns), s)
  unfolding construct_wait_for_graph
  construct-graph_of =
      rw
        (add_edges-graph_of s.locks fuel cs list modes short [] 0 (waiting_nodes s.txns) held
          (omega (arith, enough)))
        refl

  -- Where all locks are exclusive, somebody has a lock on each file that is waited for, and there is
  -- a round of fuel for each lock and for each waiting transaction and one more: a round of the
  -- detection changes nothing if no transaction waits for itself through the owners of the files.
  pub detection_round-IsAcyclic :
      IsAcyclic (graph_of cs [] 0 (waiting_nodes s.txns)) → detection_round fuel s ≡ ok (tt, s)
  unfolding detection_round
  detection_round-IsAcyclic acyclic =
      let g = graph_of cs [] 0 (waiting_nodes s.txns) in
      let found =
        (search_graph-IsAcyclic g s (graph_of-IsGraph cs (waiting_nodes s.txns))).1 acyclic in
      rw (construct-graph_of, found) refl
