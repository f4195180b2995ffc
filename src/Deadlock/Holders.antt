-- ===== src/Deadlock/Holders.antt =====
-- The edges of one node of the wait-for graph, by the lock that the walk of the list finds.
use backup_lfs.Base.{
  ℕ, zero, suc, ◌<◌, ◌≡◌, ◌≢◌, refl, sym, ap, subst, ◌∙◌, inl, inr, Option, none, some, List, [],
  ◌∷◌, ◌++◌, arith, false, ◌==◌, if◌then◌else◌, length, append_assoc, All, Run, ok, fault,
  Bool-cases, Option-cases, eq→==, ne→==,
}
use backup_lfs.Header.{Ptr, null, FileLock}
use backup_lfs.LockList.{Locks, load}
use backup_lfs.LockList.Chain.{Lock, lock_of, Cell, Cells, Linked, IsLockList}
use backup_lfs.Deadlock.{Name, find_holder, scan_waiting, edges_of}

-- The first lock on the file.
abbrev pub first_lock : ℕ → Cells → Option Cell
first_lock f [] = none
first_lock f ((a, l) ∷ cs) =
    let rest = first_lock f cs in if l.inode == f then some (a, l) else rest

-- The positions of a transaction.
abbrev pub matching : ℕ → List Name → List ℕ
matching o [] = []
matching o ((i, t) ∷ names) = let rest = matching o names in if t == o then i ∷ rest else rest

append-nil : (xs : List ℕ) → xs ++ [] ≡ xs
append-nil [] = refl
append-nil (x ∷ xs) = ap (◌∷◌ x) (append-nil xs)

abbrev pub Held : Locks → Ptr → Lock → Type 0
Held s a l = (a ≢ null) × (n : FileLock) × (s.cell a ≡ some n) × (lock_of n ≡ l)

module _ (s : Locks) where
  find_holder-free :
      (k f : ℕ) (before p : Ptr) (cs : Cells)
      → Linked s.cell before p cs
      → first_lock f cs ≡ none
      → length cs < k
      → find_holder k f p s ≡ fault
  unfolding find_holder load
  find_holder-free zero f before p cs c free short = absurd (omega arith)
  find_holder-free (suc k) f before p [] e free short = rw (eq→== p null e) refl
  find_holder-free (suc k) f before p ((a, l) ∷ cs) (n, e, ne, at, lk, pv, out, rest) free short =
      ground (arith, lk, find_holder-free k f a n.next cs rest)

  pub find_holder-Held :
      (k f : ℕ) (before p : Ptr) (cs : Cells) (a : Ptr) (l : Lock)
      → Linked s.cell before p cs
      → first_lock f cs ≡ some (a, l)
      → length cs < k
      → (find_holder k f p s ≡ ok (a, s)) × Held s a l
  unfolding find_holder load
  find_holder-Held zero f before p cs a l c found short = absurd (omega arith)
  find_holder-Held (suc k) f before p [] a l e found short = absurd cc
  find_holder-Held (suc k) f before p ((b, m) ∷ cs) a l (n, e, ne, at, lk, pv, out, rest) found
        short =
      let same : n.file_inode ≡ m.inode = ap (λ (x : Lock). x.inode) lk in
      elim (Bool-cases (m.inode == f)) [
        | inl hit ↦
            let cell : some (b, m) ≡ some (a, l) = rw hit at found in
            let here : b ≡ a = ground (arith, cell) in
            let lock : m ≡ l = ground (arith, cell) in
            (
              ground (arith, e, at, same, hit, here),
              subst (λ q. Held s q l) here (ne, n, at, lk ∙ lock),
            )
        | inr miss ↦
            let later =
              find_holder-Held k f b n.next cs a l rest (rw miss at found) (omega arith) in
            (ground (arith, later.0, same), later.1)
      ]

  -- Where the lock is exclusive, the walk of the waiting transactions gives those that hold it.
  scan_waiting-matching :
      (k : ℕ) (all rest : List Name) (a : Ptr) (l : Lock) (edges : List ℕ)
      → Held s a l
      → l.mode ≡ 1
      → length rest < k
      → scan_waiting k all rest a edges s ≡ ok ((edges ++ matching l.owner rest, a), s)
  unfolding scan_waiting load
  scan_waiting-matching zero all rest a l edges held mode short = absurd (omega arith)
  scan_waiting-matching (suc k) all [] a l edges held mode short =
      ap (λ es. ok ((es, a), s)) (sym (append-nil edges))
  scan_waiting-matching (suc k) all ((i, t) ∷ rest) a l edges (ne, n, at, lk) mode short =
      let owner : n.parent_txn ≡ l.owner = ap (λ (x : Lock). x.owner) lk in
      let kind : n.file_mode ≡ 1 = ap (λ (x : Lock). x.mode) lk ∙ mode in
      let writes : (n.file_mode == 0) ≡ false = ne→== n.file_mode 0 (omega (arith, kind)) in
      let found =
        scan_waiting-matching k all rest a l (edges ++ i ∷ []) (ne, n, at, lk) mode (omega arith) in
      let other = scan_waiting-matching k all rest a l edges (ne, n, at, lk) mode (omega arith) in
      elim (Bool-cases (t == l.owner)) [
        | inl hit ↦
            rw (ne→== a null ne, at, owner, hit, writes)
              (found
                ∙ ap (λ es. ok ((es, a), s)) (append_assoc edges (i ∷ []) (matching l.owner rest)))
        | inr miss ↦ rw (ne→== a null ne, at, owner, miss) other
      ]

  -- What the waiting transaction of a file waits for, by the lock that the search finds.
  abbrev pub edges_answer : (before after : List Name) → Option Cell → Run (List ℕ × Locks)
  edges_answer before after none = fault
  edges_answer before after (some (a, l)) =
      ok (matching l.owner after ++ matching l.owner before, s)

  -- On a list of exclusive locks, with a round of fuel for each lock and one more, and for each
  -- waiting transaction and one more: a waiting transaction has an edge to each other waiting
  -- transaction that owns the first lock on its file, those behind it first; where nobody has a lock
  -- on the file, the walk follows NULL.
  pub edges_of-matching :
      (fuel f : ℕ) (before after : List Name) (cs : Cells)
      → IsLockList s cs
      → All (λ (c : Cell). c.1.mode ≡ 1) cs
      → length cs < fuel
      → length before < fuel
      → length after < fuel
      → edges_of fuel before after f s ≡ edges_answer before after (first_lock f cs)
  unfolding edges_of
  edges_of-matching fuel f before after cs c modes short b_short a_short =
      elim (Option-cases (first_lock f cs)) [
        | inl free ↦ rw (free, find_holder-free fuel f s.head s.head cs c free short) refl
        | inr ((a, l), found) ↦
            let (run, held) = find_holder-Held fuel f s.head s.head cs a l c found short in
            let mode = first_lock-mode f cs a l modes found in
            rw
              (
                found,
                run,
                scan_waiting-matching fuel after after a l [] held mode a_short,
                scan_waiting-matching fuel before before a l (matching l.owner after) held mode
                    b_short,
              )
              refl
      ]
    where
      first_lock-mode :
          (g : ℕ) (ds : Cells) (a : Ptr) (l : Lock)
          → All (λ (d : Cell). d.1.mode ≡ 1) ds
          → first_lock g ds ≡ some (a, l)
          → l.mode ≡ 1
      first_lock-mode g [] a l all e = absurd cc
      first_lock-mode g ((b, m) ∷ ds) a l (here, all) e = elim (Bool-cases (m.inode == g)) [
        | inl hit ↦ ground (arith, here, rw hit at e)
        | inr miss ↦ first_lock-mode g ds a l all (rw miss at e)
      ]
