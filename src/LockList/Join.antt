-- ===== src/LockList/Join.antt =====
-- A shared lock joins those that are held on the file.
use backup_lfs.Base.{
  ℕ, ◌<◌, ◌≤◌, ◌≡◌, ◌≢◌, refl, sym, ap, subst, ◌∙◌, inl, inr, some, [], ◌∷◌, ◌++◌, arith, ◌==◌, All,
  Bool-cases, length, length-append, ok, Option,
}
use mathlib.Core.List.{append_assoc}
use backup_lfs.Header.{Ptr, null, FileLock}
use backup_lfs.LockList.{Locks, write, link_shared_at, link_shared_node}
use backup_lfs.LockList.Chain.{
  Lock, lock_of, Cell, Cells, Linked, IsLockList, IsOrdered, Compatible, IsValid, IsNew, Chained,
  next_of,
}
use backup_lfs.LockList.Search.{MemLock}
use backup_lfs.LockList.Place.{place, Joins, place-IsOrdered}
use backup_lfs.LockList.Splice.{
  Spliced, Found, Linked-Found, Linked-splice, Chained-splice, Rewired, Apart, Found-Apart,
  link_behind-Rewired,
}
use backup_lfs.LockList.Shared.{group_end, last_shared-group_end}

pub MemLock-split :
    (f : ℕ) (a : Ptr) (cs : Cells)
    → MemLock f a cs
    → (pre : Cells) × (m : Lock) × (post : Cells) × (cs ≡ pre ++ (a, m) ∷ post) × (m.inode ≡ f)
MemLock-split f a [] h = absurd h
MemLock-split f a ((b, l) ∷ cs) (inl (e, i)) = ([], l, cs, ground arith, i)
MemLock-split f a ((b, l) ∷ cs) (inr h) =
    let (pre, m, post, e, i) = MemLock-split f a cs h in ((b, l) ∷ pre, m, post, ground arith, i)

group_end-split :
    (a : Ptr) (l : Lock) (cs : Cells)
    → (pre : Cells) × (k : Lock) × (post : Cells) × ((a, l) ∷ cs
        ≡ pre ++ (group_end a l cs, k) ∷ post)
      × (k.inode ≡ l.inode)
      × (next_of k post ≡ null)
group_end-split a l [] = ([], l, [], refl, refl, refl)
group_end-split a l ((b, m) ∷ cs) = elim (Bool-cases (m.inode == l.inode)) [
  | inl same ↦
      let (pre, k, post, e, i, end) = group_end-split b m cs in
      ((a, l) ∷ pre, k, post, ground arith, ground arith, end)
  | inr other ↦ ([], l, (b, m) ∷ cs, ground arith, refl, ground arith)
]

All-middle :
    (P : Cell → Type 0) (pre : Cells) (c : Cell) (post : Cells) → All P (pre ++ c ∷ post) → P c
All-middle P [] c post all = all.0
All-middle P (d ∷ pre) c post all = All-middle P pre c post all.1

abbrev NoNull : Cells → Type 0
NoNull cs = All (λ (c : Cell). c.0 ≢ null) cs

place-end :
    (new p : Ptr) (l k : Lock) (pre post : Cells)
    → IsOrdered (pre ++ (p, k) ∷ post)
    → k.inode ≡ l.inode
    → next_of k post ≡ null
    → NoNull post
    → place (new, l) (pre ++ (p, k) ∷ post) ≡ pre ++ (p, k) ∷ (new, l) ∷ post
unfolding place
place-end new p l k [] [] o same end ne = ground arith
place-end new p l k [] ((c, m) ∷ post) ((o, os), o') same end ne = ground arith
place-end new p l k ((d, m) ∷ pre) post (o, os) same end ne =
    ground (arith, All-middle _ pre (p, k) post o, place-end new p l k pre post os same end ne)

-- A tail of a list of locks is one.
Linked-tail :
    (s : Locks) (b p : Ptr) (pre cs : Cells)
    → Linked s.cell b p (pre ++ cs)
    → (b' p' : Ptr) × Linked s.cell b' p' cs
Linked-tail s b p [] cs c = (b, p, c)
Linked-tail s b p ((a, l) ∷ pre) cs (n, e, ne, at, lk, bk, out, rest) =
    Linked-tail s a n.next pre cs rest

Linked-NoNull : (s : Locks) (b p : Ptr) (cs : Cells) → Linked s.cell b p cs → NoNull cs
Linked-NoNull s b p [] c = tt
Linked-NoNull s b p ((a, l) ∷ cs) (n, e, ne, at, lk, bk, out, rest) =
    (ne, Linked-NoNull s a n.next cs rest)

Chained-tail : (h : Ptr → Option FileLock) (pre cs : Cells) → Chained h (pre ++ cs) → Chained h cs
Chained-tail h [] cs ch = ch
Chained-tail h ((a, l) ∷ pre) cs (here, ch) = Chained-tail h pre cs ch

next_of-inode : (k l : Lock) (cs : Cells) → k.inode ≡ l.inode → next_of k cs ≡ next_of l cs
next_of-inode k l [] e = refl
next_of-inode k l ((b, m) ∷ cs) e = ground arith

shared-behind :
    (m l : Lock) (cs : Cells)
    → m.inode ≡ l.inode
    → l.mode ≡ 0
    → All (λ (c : Cell). Compatible m c.1) cs
    → Joins l cs
shared-behind m l [] e z all = tt
shared-behind m l ((b, k) ∷ cs) e z (c, all) = (λ i. ground arith, shared-behind m l cs e z all)

-- With one lock on the file shared, all are, and another may join them.
shared-Joins :
    (l : Lock) (a : Ptr) (m : Lock) (pre post : Cells)
    → IsOrdered (pre ++ (a, m) ∷ post)
    → m.inode ≡ l.inode
    → m.mode ≡ 0
    → l.mode ≡ 0
    → Joins l (pre ++ (a, m) ∷ post)
shared-Joins l a m [] post (all, o) e z z' = (λ i. (z, z'), shared-behind m l post e z' all)
shared-Joins l a m ((b, k) ∷ pre) post (all, o) e z z' =
    (λ i. ground (arith, All-middle _ pre (a, m) post all), shared-Joins l a m pre post o e z z')

module _ (s : Locks) (f : ℕ) (new : Ptr) (n0 : FileLock) where
  join-at :
      (p : Ptr) (k : Lock) (pre post : Cells)
      → IsNew s new n0 f (pre ++ (p, k) ∷ post)
      → IsLockList s (pre ++ (p, k) ∷ post)
      → Chained s.cell (pre ++ (p, k) ∷ post)
      → k.inode ≡ f
      → next_of k post ≡ null
      → (s' : Locks) × (link_shared_at p new s ≡ ok (tt, s'))
        × IsLockList s' (pre ++ (p, k) ∷ (new, lock_of n0) ∷ post)
        × Chained s'.cell (pre ++ (p, k) ∷ (new, lock_of n0) ∷ post)
  unfolding link_shared_at
  join-at p k pre post new_one c ch i end =
      let (s', run, re, head) = link_behind-Rewired s p new found.node n0 apart found.behind in
      let g = write (write s' new (some added)) p (some changed) in
      (
        g,
        rw run (ground (arith, re, apart)),
        rw head (Linked-splice (spliced s' re) new_one.ne s.head s.head k pre post new_one.out c),
        Chained-splice (spliced s' re) new_one.ne s.head s.head k pre post new_one.out c ch
            (ground (arith, next_of-inode k (lock_of n0) post, new_one.inode))
            (λ ne. absurd (ne (ground (arith, new_one.inode)))),
      )
    where
      found : Found s p k post
      found = Linked-Found s s.head s.head p k pre post c

      apart : Apart s p new found.node n0
      apart = Found-Apart s f p new n0 k pre post new_one found

      added : FileLock
      added = record n0 { next = (found.node).next; prev = p; prev_shared_rec = p }

      changed : FileLock
      changed = record (found.node) { next = new; next_shared_rec = new }

      spliced :
          (s' : Locks)
          → Rewired s.cell s'.cell p new found.node n0
          → Spliced s.cell
              (write (write s' new (some added)) p (some changed)).cell
              p
              new
              found.node
              (lock_of n0)
      spliced s' re = record {
        before = found.at;
        changed = changed;
        at_loc = ground arith;
        changed_lock = refl;
        changed_next = refl;
        changed_prev = refl;
        added = added;
        at_new = ground (arith, apart.loc_new);
        added_lock = refl;
        added_next = refl;
        added_prev = refl;
        added_shared = new_one.alone;
        changed_shared = ground (arith, found.lock, new_one.inode);
        at_next = λ n ne e. ground (arith, re.at_next n ne e, apart.next_new, apart.next_loc);
        others = λ a x y z. ground (arith, re.others a x y z);
      }

  join-place :
      (fuel : ℕ) (loc : Ptr) (m : Lock) (pre post : Cells)
      → IsNew s new n0 f (pre ++ (loc, m) ∷ post)
      → IsLockList s (pre ++ (loc, m) ∷ post)
      → IsOrdered (pre ++ (loc, m) ∷ post)
      → Chained s.cell (pre ++ (loc, m) ∷ post)
      → m.inode ≡ f
      → length post < fuel
      → (s' : Locks) × (link_shared_node fuel loc new s ≡ ok (tt, s'))
        × IsLockList s' (place (new, lock_of n0) (pre ++ (loc, m) ∷ post))
        × Chained s'.cell (place (new, lock_of n0) (pre ++ (loc, m) ∷ post))
  unfolding link_shared_node
  join-place fuel loc m pre post new_one c o ch i enough =
      let (before, p, tail) = Linked-tail s s.head s.head pre ((loc, m) ∷ post) c in
      let (front, k, back, e, j, end) = group_end-split loc m post in
      let whole : pre ++ (loc, m) ∷ post ≡ (pre ++ front) ++ (group_end loc m post, k) ∷ back =
        ap (◌++◌ pre) e ∙ sym (append_assoc pre front ((group_end loc m post, k) ∷ back)) in
      let walk =
        last_shared-group_end s fuel before p loc m post tail
          (Chained-tail s.cell pre ((loc, m) ∷ post) ch) enough in
      let (s', run, linked, chained) =
        join-at (group_end loc m post) k (pre ++ front) back
          (subst (IsNew s new n0 f) whole new_one) (subst (IsLockList s) whole c)
          (subst (Chained s.cell) whole ch) (j ∙ i) end in
      let last =
        Linked-tail s s.head s.head (pre ++ front) ((group_end loc m post, k) ∷ back)
          (subst (IsLockList s) whole c) in
      let same : place (new, lock_of n0) (pre ++ (loc, m) ∷ post)
          ≡ (pre ++ front) ++ (group_end loc m post, k) ∷ (new, lock_of n0) ∷ back =
        ap (place (new, lock_of n0)) whole
        ∙ place-end new (group_end loc m post) (lock_of n0) k (pre ++ front) back
            (subst IsOrdered whole o) (ground (arith, new_one.inode)) end
            (Linked-NoNull s last.0 last.1 ((group_end loc m post, k) ∷ back) last.2).1 in
      (s', rw walk run, rw same linked, rw same chained)

-- On a valid list where a shared lock of the file is at `loc`, with the new node allocated outside
-- the list for a shared lock of that file, `link_shared_node` with a round of its loop for each node
-- runs without a fault, and leaves a valid list: the old one with the new lock last of its file.
pub link_shared_node-IsValid :
    (s : Locks) (fuel f : ℕ) (new : Ptr) (n0 : FileLock) (loc : Ptr) (m : Lock) (pre post : Cells)
    → IsNew s new n0 f (pre ++ (loc, m) ∷ post)
    → IsValid s (pre ++ (loc, m) ∷ post)
    → m.inode ≡ f
    → m.mode ≡ 0
    → n0.file_mode ≡ 0
    → length (pre ++ (loc, m) ∷ post) ≤ fuel
    → (s' : Locks) × (link_shared_node fuel loc new s ≡ ok (tt, s'))
      × IsValid s' (place (new, lock_of n0) (pre ++ (loc, m) ∷ post))
link_shared_node-IsValid s fuel f new n0 loc m pre post new_one v i z z' enough =
    let (s', run, linked, chained) =
      join-place s f new n0 fuel loc m pre post new_one v.linked v.ordered v.chained i
        (omega (arith, length-append pre ((loc, m) ∷ post))) in
    (
      s',
      run,
      record {
        linked = linked;
        ordered =
            place-IsOrdered new (lock_of n0) _ v.ordered
              (shared-Joins (lock_of n0) loc m pre post v.ordered (i ∙ sym new_one.inode) z z');
        chained = chained;
      },
    )
