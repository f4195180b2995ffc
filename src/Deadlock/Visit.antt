-- ===== src/Deadlock/Visit.antt =====
-- What the depth-first search leaves where it notes no transaction, and that it notes one where it
-- meets a grey node.
use backup_lfs.Base.{
  ℕ, ◌<◌, ◌≤◌, ◌≡◌, refl, sym, subst, ◌⊎◌, inl, inr, ◌↔◌, List, [], ◌∷◌, arith, ◌==◌, length, All,
  Run, ok, Code, ◌>>◌, and_then, Bool-cases, ==→eq,
}
use backup_lfs.Deadlock.{GraphNode, Search, dfs_edges}
use backup_lfs.Deadlock.Walk.{Edge, Walk, one, extend, IsGraph, IsClosed}
use backup_lfs.Deadlock.White.{whites}
use backup_lfs.Deadlock.Alarm.{Alarm, Persists, Alarm-bind, dfs_edges-Alarm, dfs_edges-Persists}

module _ (g : List GraphNode) where
  -- No walk leaves the black nodes, and none of them is on a cycle.
  pub record IsSound (s : Search) : Type 0 where
    pub range : (j : ℕ) → s.visited j ≤ 2
    pub closed : IsClosed g (λ j. s.visited j ≡ 2)
    pub free : (j : ℕ) → s.visited j ≡ 2 → ¬ Walk g j j

  -- The search went on and noted nothing.
  pub record IsQuiet (s s' : Search) : Type 0 where
    pub silent : s'.in_deadlock ≡ []
    pub sound : IsSound s'
    pub grey : (j : ℕ) → (s'.visited j ≡ 1) ↔ (s.visited j ≡ 1)
    pub black : (j : ℕ) → s.visited j ≡ 2 → s'.visited j ≡ 2
    pub fewer : whites s'.visited (length g) ≤ whites s.visited (length g)

  IsQuiet-trans : (a b c : Search) → IsQuiet a b → IsQuiet b c → IsQuiet a c
  IsQuiet-trans a b c x y = record {
    silent = y.silent;
    sound = y.sound;
    grey = λ j. (λ e. (x.grey j).0 ((y.grey j).0 e), λ e. (y.grey j).1 ((x.grey j).1 e));
    black = λ j e. y.black j (x.black j e);
    fewer = omega (arith, x.fewer, y.fewer);
  }

  pub IsQuiet-refl : (s : Search) → s.in_deadlock ≡ [] → IsSound s → IsQuiet s s
  IsQuiet-refl s e v = record {
    silent = e;
    sound = v;
    grey = λ j. (λ h. h, λ h. h);
    black = λ j h. h;
    fewer = omega arith;
  }

  -- There is a cycle and a transaction is noted, or the code ends and has noted nothing.
  abbrev pub Ends : (Search → Type 0) → Search → Run (Unit {0} × Search) → Type 0
  Ends P s m =
      ((v : ℕ) × Walk g v v × Alarm m) ⊎ ((s' : Search) × (m ≡ ok (tt, s')) × IsQuiet s s' × P s')

  pub Ends-bind :
      (P Q : Search → Type 0) (s : Search) (m : Run (Unit {0} × Search))
      (k : Code Search (Unit {0}))
      → Ends P s m
      → Persists k
      → ((s' : Search) → IsQuiet s s' → P s' → Ends Q s' (k s'))
      → Ends Q s (and_then m (λ r. k r.1))
  Ends-bind P Q s m k (inl (v, cyclic, noted)) keeps next =
      inl (v, cyclic, Alarm-bind m (λ _. k) noted (λ _. keeps))
  Ends-bind P Q s m k (inr (s', e, quiet, p)) keeps next = elim (next s' quiet p) [
    | inl (v, cyclic, noted) ↦ inl (v, cyclic, rw e noted)
    | inr (s'', e', quiet', q) ↦ inr (s'', rw (e, e') refl, IsQuiet-trans s s' s'' quiet quiet', q)
  ]

  -- What a visit of a white node does, with the grey nodes before it on a walk to it.
  abbrev pub Visits : ℕ → (ℕ → Code Search (Unit {0})) → Type 0
  Visits k visit =
      (c : ℕ) (s : Search)
      → c < length g
      → s.visited c ≡ 0
      → IsSound s
      → s.in_deadlock ≡ []
      → ((j : ℕ) → s.visited j ≡ 1 → Walk g j c)
      → whites s.visited (length g) ≤ k
      → Ends (λ s'. s'.visited c ≡ 2) s (visit c s)

  module _ (graph : IsGraph g) (k : ℕ) (visit : ℕ → Code Search (Unit {0}))
      (persists : (c : ℕ) → Persists (visit c)) (visits : Visits k visit) (i : ℕ) where
    beyond : (c j : ℕ) → Edge g i c → (j ≡ i) ⊎ Walk g j i → Walk g j c
    beyond c j edge (inl e) = subst (λ a. Walk g a c) (sym e) (one i c edge)
    beyond c j edge (inr w) = extend g j i c w edge

    add_black :
        (c : ℕ) (cs : List ℕ) (s : Search) (m : Run (Unit {0} × Search))
        → s.visited c ≡ 2
        → Ends (λ s'. All (λ d. s'.visited d ≡ 2) cs) s m
        → Ends (λ s'. All (λ d. s'.visited d ≡ 2) (c ∷ cs)) s m
    add_black c cs s m done (inl found) = inl found
    add_black c cs s m done (inr (s', e, quiet, all)) =
        inr (s', e, quiet, (quiet.black c done, all))

    pub dfs_edges-Ends :
        (cs : List ℕ) (s : Search)
        → All (λ c. Edge g i c) cs
        → IsSound s
        → s.in_deadlock ≡ []
        → ((j : ℕ) → s.visited j ≡ 1 → (j ≡ i) ⊎ Walk g j i)
        → whites s.visited (length g) ≤ k
        → Ends (λ s'. All (λ c. s'.visited c ≡ 2) cs) s (dfs_edges g visit cs s)
    unfolding dfs_edges
    dfs_edges-Ends [] s edges v silent to few = inr (s, refl, IsQuiet-refl s silent v, tt)
    dfs_edges-Ends (c ∷ cs) s (edge, edges) v silent to few =
        let Goal : Search → Type 0 = λ s'. All (λ d. s'.visited d ≡ 2) (c ∷ cs) in
        let go = λ (s' : Search) (quiet : IsQuiet s s') (done : s'.visited c ≡ 2).
          add_black c cs s' (dfs_edges g visit cs s') done (
            dfs_edges-Ends cs s' edges quiet.sound quiet.silent (λ j e. to j ((quiet.grey j).0 e))
              (omega (arith, quiet.fewer, few))) in
        elim (Bool-cases (s.visited c == 1)) [
          | inl hit ↦ inl (
            c,
            beyond c c edge (to c (==→eq _ _ hit)),
            dfs_edges-Alarm g visit c cs s persists hit,
          )
          | inr miss ↦ elim (Bool-cases (s.visited c == 0)) [
            | inl white ↦
                let run : (visit c >> dfs_edges g visit cs) s ≡ dfs_edges g visit (c ∷ cs) s =
                  rw (miss, white) refl in
                subst (Ends Goal s) run (
                  Ends-bind (λ s'. s'.visited c ≡ 2) Goal s (visit c s) (dfs_edges g visit cs)
                    (visits c s (graph i c edge) (==→eq _ _ white) v silent
                      (λ j e. beyond c j edge (to j e)) few)
                    (dfs_edges-Persists g visit cs persists) go)
            | inr tinted ↦
                let run : dfs_edges g visit cs s ≡ dfs_edges g visit (c ∷ cs) s =
                  rw (miss, tinted) refl in
                subst (Ends Goal s) run
                  (go s (IsQuiet-refl s silent v) (ground (arith, miss, tinted, v.range c)))
          ]
        ]
