-- ===== src/LockList/Search.antt =====
-- `search_file_list` against a search of the sequence of locks.
use backup_lfs.Base.{
  ℕ, zero, suc, ◌<◌, ◌≤◌, ◌≡◌, ◌≢◌, refl, ◌⊎◌, inl, inr, Bool, false, ◌||◌, some, [], ◌∷◌, arith,
  leb, ◌==◌, if◌then◌else◌, All, Bool-cases, dec_lt, length, ok, ◌>>=◌, ap, ◌∙◌, true,
}
use backup_lfs.Header.{Ptr, null, FileLock}
use backup_lfs.LockList.{Locks, load, search_loop, search_result, search_file_list}
use backup_lfs.LockList.Chain.{
  Lock, lock_of, Cell, Cells, Linked, IsLockList, IsOrdered, Compatible,
}

-- The search, with the cell before the rest at hand.
unfoldable pub locate : ℕ → Cell → Cells → ℕ × Ptr
locate f (a, l) [] = if l.inode == f then (1, a) else (0, a)
locate f (a, l) ((b, m) ∷ cs) =
    let further = locate f (b, m) cs in
    if leb f m.inode
    then (if m.inode == f then (1, b) else if l.inode == f then (1, a) else (0, a))
    else further

unfoldable pub search_cells : ℕ → Cells → ℕ × Ptr
unfolding locate
search_cells f [] = (0, null)
search_cells f (c ∷ cs) = locate f c cs

module _ (s : Locks) (f : ℕ) where
  search_loop-locate :
      (k : ℕ) (before a p : Ptr) (l : Lock) (n : FileLock) (cs : Cells)
      → a ≢ null
      → s.cell a ≡ some n
      → lock_of n ≡ l
      → Linked s.cell before p cs
      → length cs < k
      → (search_loop k f a p >>= λ r. search_result f r.0 r.1) s ≡ ok (locate f (a, l) cs, s)
  unfolding search_loop search_result locate load
  search_loop-locate zero before a p l n cs ne at lk c short = absurd (omega arith)
  search_loop-locate (suc k) before a p l n [] ne at lk c short = ground arith
  search_loop-locate (suc k) before a p l n ((b, m) ∷ cs) ne at lk
        (n', e, ne', at', lk', pv, out, rest) short =
      ground (arith, search_loop-locate k b b n'.next m n' cs ne' at' lk' rest (omega arith))

  -- The loop and its two tests compute the search of the sequence of locks, and write nothing.
  pub search_file_list-search_cells :
      (fuel : ℕ) (cs : Cells)
      → IsLockList s cs
      → length cs ≤ fuel
      → search_file_list fuel f s ≡ ok (search_cells f cs, s)
  unfolding search_file_list search_cells load
  search_file_list-search_cells fuel [] c enough = ground arith
  search_file_list-search_cells fuel ((a, l) ∷ cs) (n, e, ne, at, lk, pv, out, rest) enough =
      ground (arith, search_loop-locate fuel a a n.next l n cs ne at lk rest (omega arith))

abbrev pub holds : ℕ → Cells → Bool
holds f [] = false
holds f ((a, l) ∷ cs) = (l.inode == f) || holds f cs

-- The locks that stand at an address.
abbrev pub MemLock : ℕ → Ptr → Cells → Type 0
MemLock f a [] = ⊥
MemLock f a ((b, l) ∷ cs) = ((b ≡ a) × (l.inode ≡ f)) ⊎ MemLock f a cs

not-holds_of_lt :
    (f : ℕ) (l : Lock) (cs : Cells)
    → f < l.inode
    → All (λ (c : Cell). Compatible l c.1) cs
    → holds f cs ≡ false
not-holds_of_lt f l [] lt all = refl
not-holds_of_lt f l ((b, m) ∷ cs) lt (c, all) = ground (arith, not-holds_of_lt f l cs lt all)

locate-holds :
    (f : ℕ) (a : Ptr) (l : Lock) (cs : Cells)
    → IsOrdered ((a, l) ∷ cs)
    → (locate f (a, l) cs).0 ≡ (if holds f ((a, l) ∷ cs) then 1 else 0)
unfolding locate
locate-holds f a l [] o = ground arith
locate-holds f a l ((b, m) ∷ cs) ((c, all), (later, o)) = elim (Bool-cases (leb f m.inode)) [
  | inl stop ↦ rw stop (at_stop (ground arith))
  | inr go ↦ rw (go, locate-holds f b m cs (later, o)) (ground arith)
]
  where
    at_stop :
        f ≤ m.inode
        → (let r : ℕ × Ptr =
              if m.inode == f then (1, b) else if l.inode == f then (1, a) else (0, a) in
            r.0)
          ≡ (if (l.inode == f) || ((m.inode == f) || holds f cs) then 1 else 0)
    at_stop le = elim (dec_lt f m.inode) [
      | yes lt ↦ rw (not-holds_of_lt f m cs lt later) (ground arith)
      | no ge ↦ ground arith
    ]

locate-MemLock :
    (f : ℕ) (a : Ptr) (l : Lock) (cs : Cells)
    → (locate f (a, l) cs).0 ≡ 1
    → MemLock f (locate f (a, l) cs).1 ((a, l) ∷ cs)
unfolding locate
locate-MemLock f a l [] h = ground arith
locate-MemLock f a l ((b, m) ∷ cs) h = ground (arith, locate-MemLock f b m cs)

pub search_cells-holds :
    (f : ℕ) (cs : Cells)
    → IsOrdered cs
    → ((search_cells f cs).0 ≡ (if holds f cs then 1 else 0))
      × (holds f cs ≡ true → MemLock f (search_cells f cs).1 cs)
unfolding search_cells
search_cells-holds f [] o = (refl, λ h. cc)
search_cells-holds f ((a, l) ∷ cs) o =
    (locate-holds f a l cs o, λ h. locate-MemLock f a l cs (locate-holds f a l cs o ∙ rw h))

-- On a list in order, `search_file_list` with a round of its loop for each node answers 1 exactly
-- when some node holds the file, and then stores a node of that file; it changes no node.
pub search_file_list-holds :
    (fuel f : ℕ) (s : Locks) (cs : Cells)
    → IsLockList s cs
    → IsOrdered cs
    → length cs ≤ fuel
    → (loc : Ptr) × (search_file_list fuel f s ≡ ok ((if holds f cs then 1 else 0, loc), s))
      × (holds f cs ≡ true → MemLock f loc cs)
search_file_list-holds fuel f s cs c o enough =
    let (answer, found) = search_cells-holds f cs o in
    (
      (search_cells f cs).1,
      search_file_list-search_cells s f fuel cs c enough
          ∙ ap (λ k. ok ((k, (search_cells f cs).1), s)) answer,
      found,
    )

-- Where the first two nodes of the list hold the file, `search_file_list` stores the second and not
-- the first, since its loop starts at the node behind the head.
search_skips_first :
    (s : Locks) (f fuel : ℕ) (a b : Ptr) (l m : Lock) (cs : Cells)
    → IsLockList s ((a, l) ∷ (b, m) ∷ cs)
    → l.inode ≡ f
    → m.inode ≡ f
    → suc (suc (length cs)) ≤ fuel
    → search_file_list fuel f s ≡ ok ((1, b), s)
unfolding search_cells locate
search_skips_first s f fuel a b l m cs c first second enough =
    search_file_list-search_cells s f fuel ((a, l) ∷ (b, m) ∷ cs) c enough ∙ ground arith
