-- ===== src/Deadlock/Verdict.antt =====
-- The search notes a transaction exactly where the wait-for graph has a cycle.
use backup_lfs.Base.{
  ℕ, zero, suc, ◌+◌, ◌<◌, ◌≤◌, ◌≡◌, ◌≢◌, refl, subst, inl, inr, ◌↔◌, List, [], arith, ◌==◌, length,
  get-bound, Run, ok, fault, out_of_fuel, and_then, ◌>>◌, Bool-cases, ==→eq, ℕ_discrete,
}
use backup_lfs.Server.{Server}
use backup_lfs.Deadlock.{
  GraphNode, Search, blank, dfs_visit, detect_from, detect_cycles, search_graph,
}
use backup_lfs.Deadlock.Walk.{Walk, one, more, IsAcyclic, IsGraph}
use backup_lfs.Deadlock.White.{whites, whites-le}
use backup_lfs.Deadlock.Alarm.{Alarm, detect_from-Persists}
use backup_lfs.Deadlock.Visit.{IsSound, IsQuiet, IsQuiet-refl, Ends, Ends-bind}
use backup_lfs.Deadlock.Blacken.{dfs_visit-Visits}

module _ (g : List GraphNode) (graph : IsGraph g) where
  -- All nodes from `i` on are black.
  abbrev IsDone : ℕ → Search → Type 0
  IsDone i s = (j : ℕ) → i ≤ j → j < length g → s.visited j ≡ 2

  IsDone-black :
      (i : ℕ) (s : Search) (m : Run (Unit {0} × Search))
      → s.visited i ≡ 2
      → Ends g (IsDone (suc i)) s m
      → Ends g (IsDone i) s m
  IsDone-black i s m black (inl found) = inl found
  IsDone-black i s m black (inr (s', e, quiet, done)) = inr (
    s',
    e,
    quiet,
    λ j le lt. elim (ℕ_discrete i j) [
      | yes same ↦ subst (λ a. s'.visited a ≡ 2) same (quiet.black i black)
      | no ne ↦ done j (omega (arith, ne)) lt
    ],
  )

  detect_from-Ends :
      (k rounds i : ℕ) (s : Search)
      → i + rounds ≡ length g
      → IsSound g s
      → s.in_deadlock ≡ []
      → ((j : ℕ) → s.visited j ≢ 1)
      → whites s.visited (length g) ≤ k
      → Ends g (IsDone i) s (detect_from g k rounds i s)
  unfolding detect_from
  detect_from-Ends k zero i s size v silent no_grey few =
      inr (s, refl, IsQuiet-refl g s silent v, λ j le lt. absurd (omega arith))
  detect_from-Ends k (suc rounds) i s size v silent no_grey few =
      let go = λ (s' : Search) (quiet : IsQuiet g s s') (black : s'.visited i ≡ 2).
        IsDone-black i s' (detect_from g k rounds (suc i) s') black (
          detect_from-Ends k rounds (suc i) s' (omega arith) quiet.sound quiet.silent
            (λ j grey. no_grey j ((quiet.grey j).0 grey)) (omega (arith, quiet.fewer))) in
      elim (Bool-cases (s.visited i == 0)) [
        | inl white ↦
            let run : (dfs_visit g k i >> detect_from g k rounds (suc i)) s
                ≡ detect_from g k (suc rounds) i s =
              rw white refl in
            subst (Ends g (IsDone i) s) run (
              Ends-bind g (λ s'. s'.visited i ≡ 2) (IsDone i) s (dfs_visit g k i s)
                (detect_from g k rounds (suc i))
                (dfs_visit-Visits g graph k i s (omega arith) (==→eq _ _ white) v silent
                  (λ j grey. absurd (no_grey j grey)) few)
                (detect_from-Persists g k rounds (suc i)) go)
        | inr tinted ↦
            let run : detect_from g k rounds (suc i) s ≡ detect_from g k (suc rounds) i s =
              rw tinted refl in
            subst (Ends g (IsDone i) s) run
              (go s (IsQuiet-refl g s silent v) (ground (arith, tinted, v.range i, no_grey i)))
      ]

  detect_cycles-Ends : Ends g (IsDone 0) blank (detect_cycles g blank)
  unfolding detect_cycles
  detect_cycles-Ends =
      detect_from-Ends (length g) (length g) 0 blank (omega arith)
        (record {
          range = λ j. omega arith;
          closed = λ i j black edge. absurd (omega arith);
          free = λ j black. absurd (omega arith);
        })
        refl (λ j grey. absurd (omega arith)) (whites-le (λ _. 0) (length g))

not-Alarm :
    (s : Server) (m : Run (Unit {0} × Search))
    → and_then {B = List (ℕ × ℕ) × Server} m (λ r. ok (r.1.in_deadlock, s)) ≡ ok ([], s)
    → ¬ Alarm m
not-Alarm s (ok (_, s')) e noted = noted (ground arith)
not-Alarm s fault e noted = absurd (ground arith)
not-Alarm s out_of_fuel e noted = absurd (ground arith)

all_black :
    (g : List GraphNode) (s : Search)
    → IsSound g s
    → ((j : ℕ) → 0 ≤ j → j < length g → s.visited j ≡ 2)
    → IsAcyclic g
all_black g s v done i w = v.free i (done i (omega arith) (first w)) w
  where
    first : {k : ℕ} → Walk g i k → i < length g
    first (one _ _ (n, at, m)) = get-bound g i n at
    first (more _ _ _ (n, at, m) w') = get-bound g i n at

-- On a graph whose edges lead to nodes, the search of one round ends without a fault and notes no
-- transaction, so that none is aborted, exactly where no transaction waits for itself through others.
pub search_graph-IsAcyclic :
    (g : List GraphNode) (s : Server) → IsGraph g → (search_graph g s ≡ ok ([], s)) ↔ IsAcyclic g
unfolding search_graph
search_graph-IsAcyclic g s graph = elim (detect_cycles-Ends g graph) [
  | inl (v, cyclic, noted) ↦ (
    λ e. absurd (not-Alarm s (detect_cycles g blank) e noted),
    λ acyclic. absurd (acyclic v cyclic),
  )
  | inr (s', e, quiet, done) ↦
      (λ _. all_black g s' quiet.sound done, λ _. rw (e, quiet.silent) refl)
]
