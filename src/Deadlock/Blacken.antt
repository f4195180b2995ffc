-- ===== src/Deadlock/Blacken.antt =====
-- A visit of a white node leaves it black, or there is a cycle.
use backup_lfs.Base.{
  ℕ, zero, suc, ◌<◌, ◌≡◌, ◌≢◌, refl, sym, subst, ◌⊎◌, inl, inr, some, List, arith, length,
  get_elem?, All, get-there, ℕ_discrete,
}
use backup_lfs.Deadlock.{GraphNode, Search, painted, paint, dfs_edges, dfs_visit}
use backup_lfs.Deadlock.Walk.{
  In, All-In, All-of_In, Edge, Walk, one, more, IsGraph, IsClosed, Walk-IsClosed,
}
use backup_lfs.Deadlock.White.{whites-paint, whites-repaint}
use backup_lfs.Deadlock.Alarm.{Alarm-bind, dfs_visit-Persists}
use backup_lfs.Deadlock.Visit.{IsSound, IsQuiet, Visits, dfs_edges-Ends}

module _ (g : List GraphNode) where
  -- Before the edges of a white node.
  IsSound-grey :
      (s : Search) (i : ℕ)
      → s.visited i ≡ 0
      → IsSound g s
      → IsSound g (record s { visited = painted s.visited i 1 })
  IsSound-grey s i white v = record {
    range = λ j. ground (arith, v.range j);
    closed = λ a b black edge. keep a b edge (old a black);
    free = λ j black. v.free j (old j black);
  }
    where
      old : (a : ℕ) → painted s.visited i 1 a ≡ 2 → s.visited a ≡ 2
      old a black = ground arith

      keep : (a b : ℕ) → Edge g a b → s.visited a ≡ 2 → painted s.visited i 1 b ≡ 2
      keep a b edge black = let next = v.closed a b black edge in ground (arith, next)

  module _ (s : Search) (i : ℕ) (n : GraphNode) (at : get_elem? g i ≡ some n) (v : IsSound g s)
      (grey : s.visited i ≡ 1) (done : All (λ c. s.visited c ≡ 2) n.edge) where
    targets-black : (c : ℕ) → Edge g i c → s.visited c ≡ 2
    targets-black c (n', at', m) =
        let same : n' ≡ n = ground (arith, at, at') in
        All-In (λ d. s.visited d ≡ 2) c n.edge done (subst (λ (k : GraphNode). In c k.edge) same m)

    not-on-cycle : ¬ Walk g i i
    not-on-cycle (one _ _ e) = absurd (ground (arith, grey, targets-black i e))
    not-on-cycle (more _ m _ e w) = absurd (
        ground
          (arith, grey, Walk-IsClosed g (λ j. s.visited j ≡ 2) m i v.closed (targets-black m e) w))

    -- Behind the edges of a grey node whose targets are black.
    IsSound-black : IsSound g (record s { visited = painted s.visited i 2 })
    IsSound-black = record {
      range = λ j. ground (arith, v.range j);
      closed = closed;
      free = λ j black. elim (ℕ_discrete i j) [
        | yes e ↦ subst (λ k. ¬ Walk g k k) e not-on-cycle
        | no ne ↦ v.free j (ground (arith, ne))
      ];
    }
      where
        closed : IsClosed g (λ j. painted s.visited i 2 j ≡ 2)
        closed a b black edge = elim (ℕ_discrete i a) [
          | yes e ↦
              let next = targets-black b (subst (λ k. Edge g k b) (sym e) edge) in
              ground (arith, next)
          | no ne ↦
              let black' : s.visited a ≡ 2 = ground (arith, ne) in
              let next = v.closed a b black' edge in ground (arith, next)
        ]

  module _ (s s2 : Search) (i : ℕ) (lt : i < length g) (white : s.visited i ≡ 0) where
    IsQuiet-visit :
        IsQuiet g (record s { visited = painted s.visited i 1 }) s2
        → IsSound g (record s2 { visited = painted s2.visited i 2 })
        → IsQuiet g s (record s2 { visited = painted s2.visited i 2 })
    IsQuiet-visit quiet sound = record {
      silent = quiet.silent;
      sound = sound;
      grey = λ j. (λ e. ground (arith, (quiet.grey j).0), λ e. ground (arith, (quiet.grey j).1));
      black = λ j e. ground (arith, quiet.black j);
      fewer = omega (
        arith,
        quiet.fewer,
        whites-paint s.visited i 1 (length g) lt white (omega arith),
        whites-repaint s2.visited i 2 (length g) still (omega arith),
      );
    }
      where
        still : s2.visited i ≢ 0
        still = ground (arith, (quiet.grey i).1)

  module _ (graph : IsGraph g) where
    -- With as many rounds as there are white nodes.
    pub dfs_visit-Visits : (k : ℕ) → Visits g k (dfs_visit g k)
    unfolding dfs_visit
    dfs_visit-Visits zero i s lt white v silent reach few =
        absurd (omega (arith, whites-paint s.visited i 1 (length g) lt white (omega arith)))
    dfs_visit-Visits (suc k) i s lt white v silent reach few =
        let (n, at) = get-there g i lt in
        let s1 : Search = record s { visited = painted s.visited i 1 } in
        let painted_count = whites-paint s.visited i 1 (length g) lt white (omega arith) in
        let run = dfs_edges g (dfs_visit g k) n.edge s1 in
        let to = λ (j : ℕ) (e : s1.visited j ≡ 1). entry j e in
        elim (dfs_edges-Ends g graph k (dfs_visit g k) (dfs_visit-Persists g k) (dfs_visit-Visits k)
          i n.edge s1 (All-of_In (λ c. Edge g i c) n.edge (λ c m. (n, at, m)))
          (IsSound-grey s i white v) silent entry (omega (arith, painted_count))) [
            | inl (u, cyclic, noted) ↦
                inl
                  (u, cyclic, rw at (Alarm-bind run (λ _. paint i 2) noted (λ _ s' noted'. noted')))
            | inr (s2, e, quiet, done) ↦
                let grey : s2.visited i ≡ 1 = ground (arith, (quiet.grey i).1) in
                inr (
                  record s2 { visited = painted s2.visited i 2 },
                  rw (at, e) refl,
                  IsQuiet-visit s s2 i lt white quiet
                      (IsSound-black s2 i n at quiet.sound grey done),
                  ground arith,
                )
          ]
      where
        entry : (j : ℕ) → painted s.visited i 1 j ≡ 1 → (j ≡ i) ⊎ Walk g j i
        entry j e = elim (ℕ_discrete i j) [
          | yes same ↦ inl (sym same)
          | no ne ↦ inr (reach j (ground (arith, ne)))
        ]
