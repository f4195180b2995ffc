-- ===== src/Deadlock/Walk.antt =====
-- Walks in a wait-for graph, and sets of nodes that no walk leaves.
use backup_lfs.Base.{
  ℕ, ◌<◌, ◌≡◌, refl, subst, ◌⊎◌, inl, inr, some, List, [], ◌∷◌, length, get_elem?, All,
}
use backup_lfs.Deadlock.{GraphNode}

abbrev pub In : ℕ → List ℕ → Type 0
In c [] = ⊥
In c (d ∷ ds) = (d ≡ c) ⊎ In c ds

pub All-In : (P : ℕ → Type 0) (c : ℕ) (cs : List ℕ) → All P cs → In c cs → P c
All-In P c [] all m = absurd m
All-In P c (d ∷ ds) (here, all) (inl e) = subst P e here
All-In P c (d ∷ ds) (here, all) (inr m) = All-In P c ds all m

module _ (g : List GraphNode) where
  -- The transaction of node `i` waits for that of node `j`.
  abbrev pub Edge : ℕ → ℕ → Type 0
  Edge i j = (n : GraphNode) × (get_elem? g i ≡ some n) × In j n.edge

  pub data Walk : ℕ → ℕ → Type 0 where
    one : (i j : ℕ) → Edge i j → Walk i j
    more : (i j k : ℕ) → Edge i j → Walk j k → Walk i k

  pub extend : (i j k : ℕ) → Walk i j → Edge j k → Walk i k
  extend i j k (one _ _ e) e' = more i j k e (one j k e')
  extend i j k (more _ m _ e w) e' = more i m k e (extend m j k w e')

  -- No transaction waits for itself through others.
  abbrev pub IsAcyclic : Type 0
  IsAcyclic = (i : ℕ) → ¬ Walk i i

  -- Each edge leads to a node.
  abbrev pub IsGraph : Type 0
  IsGraph = (i j : ℕ) → Edge i j → j < length g

  abbrev pub IsClosed : (ℕ → Type 0) → Type 0
  IsClosed P = (i j : ℕ) → P i → Edge i j → P j

  pub Walk-IsClosed : (P : ℕ → Type 0) (i j : ℕ) → IsClosed P → P i → Walk i j → P j
  Walk-IsClosed P i j closed start (one _ _ e) = closed i j start e
  Walk-IsClosed P i j closed start (more _ m _ e w) =
      Walk-IsClosed P m j closed (closed i m start e) w

pub All-of_In : (P : ℕ → Type 0) (cs : List ℕ) → ((c : ℕ) → In c cs → P c) → All P cs
All-of_In P [] p = tt
All-of_In P (c ∷ cs) p = (p c (inl refl), All-of_In P cs (λ d m. p d (inr m)))
