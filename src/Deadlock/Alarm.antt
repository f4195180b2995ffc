-- ===== src/Deadlock/Alarm.antt =====
-- A transaction that the search has noted stays noted.
use backup_lfs.Base.{
  ℕ, zero, suc, ◌≡◌, ◌≢◌, Bool, true, false, Option, none, some, List, [], ◌∷◌, ◌++◌, leb, ◌==◌,
  length, get_elem?, Run, ok, fault, out_of_fuel, Code, pure, and_then, or_fault, crash,
  if◌then◌else◌, Bool-cases, inl, inr, Option-cases,
}
use backup_lfs.Deadlock.{
  GraphNode, Search, first_grey, note_deadlock, look_again, cycle_next, cycle_loop, cycle,
  dfs_edges, dfs_visit, detect_from, paint,
}

-- Where the code ends, a transaction has been noted.
abbrev pub Alarm : {A : Type 0} → Run (A × Search) → Type 0
Alarm (ok (_, s)) = s.in_deadlock ≢ []
Alarm fault = Unit
Alarm out_of_fuel = Unit

abbrev pub Persists : {A : Type 0} → Code Search A → Type 0
Persists c = (s : Search) → s.in_deadlock ≢ [] → Alarm (c s)

pub Alarm-bind :
    {A B : Type 0} (m : Run (A × Search)) (k : A → Code Search B)
    → Alarm m
    → ((a : A) → Persists (k a))
    → Alarm (and_then m (λ r. k r.0 r.1))
Alarm-bind (ok (a, s)) k noted keeps = keeps a s noted
Alarm-bind fault k noted keeps = tt
Alarm-bind out_of_fuel k noted keeps = tt

-- What comes after code that notes a transaction whatever came before.
Alarm-after :
    {A B : Type 0} (m : Run (A × Search)) (k : A → Code Search B)
    → ((a : A) (s : Search) → Alarm (k a s))
    → Alarm (and_then m (λ r. k r.0 r.1))
Alarm-after (ok (a, s)) k notes = notes a s
Alarm-after fault k notes = tt
Alarm-after out_of_fuel k notes = tt

snoc-ne-nil : {A : Type 0} (xs : List A) (x : A) → xs ++ x ∷ [] ≢ []
snoc-ne-nil [] x e = absurd cc
snoc-ne-nil (y ∷ ys) x e = absurd cc

note_deadlock-Alarm : (n : GraphNode) (s : Search) → Alarm (note_deadlock n s)
unfolding note_deadlock
note_deadlock-Alarm n s = elim (Bool-cases (leb 50 (length s.in_deadlock))) [
  | inl full ↦ rw full tt
  | inr room ↦ rw room (snoc-ne-nil s.in_deadlock (n.txn_id, n.inode))
]

look_again-Alarm :
    (edge : List ℕ) (again : Code Search (Unit {0})) (s : Search)
    → Alarm (again s)
    → Alarm (look_again edge again s)
look_again-Alarm [] again s notes = tt
look_again-Alarm (j ∷ js) again s notes = notes

module _ (g : List GraphNode) where
  cycle_next-Alarm :
      (again : Code Search (Unit {0})) (on : ℕ → Code Search (Unit {0})) (v i : ℕ) (n : GraphNode)
      (o : Option ℕ)
      → ((s : Search) → Alarm (again s))
      → ((u : ℕ) (s : Search) → Alarm (on u s))
      → (s : Search) → Alarm (cycle_next g again on v i n o s)
  cycle_next-Alarm again on v i n none more further s = look_again-Alarm n.edge again s (more s)
  cycle_next-Alarm again on v i n (some u) more further s =
      Alarm-bind (note_deadlock n s)
        (λ _. if leb 50 (suc i) then crash else if u == v then pure tt else on u)
        (note_deadlock-Alarm n s) (λ _. keeps (leb 50 (suc i)) (u == v))
    where
      keeps : (full back : Bool) → Persists (if full then crash else if back then pure tt else on u)
      keeps true back s' noted = tt
      keeps false true s' noted = noted
      keeps false false s' noted = further u s'

  cycle_loop-Alarm : (k v i current : ℕ) (s : Search) → Alarm (cycle_loop g k v i current s)
  unfolding cycle_loop
  cycle_loop-Alarm zero v i current s = tt
  cycle_loop-Alarm (suc k) v i current s = Alarm-after (or_fault (get_elem? g current) s) _ λ n s'.
      cycle_next-Alarm (cycle_loop g k v i current) (cycle_loop g k v (suc i)) v i n
        (first_grey s'.visited n.edge) (cycle_loop-Alarm k v i current)
        (cycle_loop-Alarm k v (suc i)) s'

  -- A walk around a cycle that ends has noted a transaction.
  pub cycle-Alarm : (v : ℕ) (s : Search) → Alarm (cycle g v s)
  unfolding cycle
  cycle-Alarm v s = cycle_loop-Alarm 50 v 0 v s

  cycle_if-Persists : (b : Bool) (v : ℕ) → Persists (if b then cycle g v else pure tt)
  cycle_if-Persists true v s noted = cycle-Alarm v s
  cycle_if-Persists false v s noted = noted

  if-Persists :
      (b : Bool) (c : Code Search (Unit {0})) → Persists c → Persists (if b then c else pure tt)
  if-Persists true c keeps s noted = keeps s noted
  if-Persists false c keeps s noted = noted

  pub dfs_edges-Persists :
      (visit : ℕ → Code Search (Unit {0})) (cs : List ℕ)
      → ((c : ℕ) → Persists (visit c))
      → Persists (dfs_edges g visit cs)
  unfolding dfs_edges
  dfs_edges-Persists visit [] keeps s noted = noted
  dfs_edges-Persists visit (c ∷ cs) keeps s noted =
      Alarm-bind ((if s.visited c == 1 then cycle g c else pure tt) s) _
        (cycle_if-Persists (s.visited c == 1) c s noted)
        λ _ s' noted'.
          Alarm-bind ((if s'.visited c == 0 then visit c else pure tt) s') _
            (if-Persists (s'.visited c == 0) (visit c) (keeps c) s' noted')
            (λ _. dfs_edges-Persists visit cs keeps)

  -- An edge to a grey node.
  pub dfs_edges-Alarm :
      (visit : ℕ → Code Search (Unit {0})) (c : ℕ) (cs : List ℕ) (s : Search)
      → ((c : ℕ) → Persists (visit c))
      → (s.visited c == 1) ≡ true
      → Alarm (dfs_edges g visit (c ∷ cs) s)
  unfolding dfs_edges
  dfs_edges-Alarm visit c cs s keeps grey =
      Alarm-bind ((if s.visited c == 1 then cycle g c else pure tt) s) _ (rw grey (cycle-Alarm c s))
        λ _ s' noted'.
          Alarm-bind ((if s'.visited c == 0 then visit c else pure tt) s') _
            (if-Persists (s'.visited c == 0) (visit c) (keeps c) s' noted')
            (λ _. dfs_edges-Persists visit cs keeps)

  pub dfs_visit-Persists : (k i : ℕ) → Persists (dfs_visit g k i)
  unfolding dfs_visit
  dfs_visit-Persists zero i s noted = tt
  dfs_visit-Persists (suc k) i s noted = elim (Option-cases (get_elem? g i)) [
    | inl out ↦ rw out tt
    | inr (n, at) ↦ rw at (
        Alarm-bind
          (dfs_edges g (dfs_visit g k) n.edge
            (record s { visited = λ j. if i == j then 1 else s.visited j }))
          (λ _. paint i 2)
          (dfs_edges-Persists (dfs_visit g k) n.edge (dfs_visit-Persists k) _ noted)
          (λ _ s' noted'. noted'))
  ]

  pub detect_from-Persists : (k rounds i : ℕ) → Persists (detect_from g k rounds i)
  unfolding detect_from
  detect_from-Persists k zero i s noted = noted
  detect_from-Persists k (suc rounds) i s noted =
      Alarm-bind ((if s.visited i == 0 then dfs_visit g k i else pure tt) s) _
        (if-Persists (s.visited i == 0) (dfs_visit g k i) (dfs_visit-Persists k i) s noted)
        (λ _. detect_from-Persists k rounds (suc i))
