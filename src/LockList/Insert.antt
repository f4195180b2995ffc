-- ===== src/LockList/Insert.antt =====
-- `link_file_node` puts the new node where its inode number belongs.
use backup_lfs.Base.{
  ℕ, ◌<◌, ◌≡◌, refl, subst, inl, inr, false, some, [], ◌∷◌, ◌++◌, arith, ltb, leb, Bool-cases, ok,
}
use backup_lfs.Header.{Ptr, null, FileLock}
use backup_lfs.LockList.{Locks, write, link_file_node}
use backup_lfs.LockList.Chain.{
  Lock, lock_of, Cells, IsLockList, IsValid, IsNew, Chained, next_of, Linked-frame, Chained-frame,
}
use backup_lfs.LockList.Search.{search_cells, holds}
use backup_lfs.LockList.Place.{place, place-IsOrdered, not_holds-Joins, locate-place, locate-front}
use backup_lfs.LockList.Splice.{
  Spliced, Found, Linked-Found, Linked-splice, Chained-splice, Rewired, Apart, Found-Apart,
  link_behind-Rewired,
}

module _ (s : Locks) (f : ℕ) (new : Ptr) (n0 : FileLock) where
  abbrev Placed : Ptr → Cells → Type 0
  Placed loc cs =
      (s' : Locks) × (link_file_node f loc new s ≡ ok (tt, s'))
      × IsLockList s' cs
      × Chained s'.cell cs

  link-behind :
      (loc : Ptr) (m : Lock) (pre post : Cells)
      → IsNew s new n0 f (pre ++ (loc, m) ∷ post)
      → IsLockList s (pre ++ (loc, m) ∷ post)
      → Chained s.cell (pre ++ (loc, m) ∷ post)
      → m.inode < f
      → next_of (lock_of n0) post ≡ null
      → next_of m post ≡ null
      → Placed loc (pre ++ (loc, m) ∷ (new, lock_of n0) ∷ post)
  unfolding link_file_node
  link-behind loc m pre post new_one c ch lt end end' =
      let (s', run, re, head) = link_behind-Rewired s loc new found.node n0 apart found.behind in
      (
        s',
        ground arith,
        rw head (Linked-splice (spliced s' re) new_one.ne s.head s.head m pre post new_one.out c),
        Chained-splice (spliced s' re) new_one.ne s.head s.head m pre post new_one.out c ch end
            (λ _. end'),
      )
    where
      found : Found s loc m post
      found = Linked-Found s s.head s.head loc m pre post c

      apart : Apart s loc new found.node n0
      apart = Found-Apart s f loc new n0 m pre post new_one found

      spliced :
          (s' : Locks)
          → Rewired s.cell s'.cell loc new found.node n0
          → Spliced s.cell s'.cell loc new found.node (lock_of n0)
      spliced s' re = record {
        before = found.at;
        changed = record (found.node) { next = new };
        at_loc = re.at_loc;
        changed_lock = refl;
        changed_next = refl;
        changed_prev = refl;
        added = record n0 { next = (found.node).next; prev = loc };
        at_new = re.at_new;
        added_lock = refl;
        added_next = refl;
        added_prev = refl;
        added_shared = new_one.alone;
        changed_shared = ground (arith, found.lock, new_one.inode);
        at_next = re.at_next;
        others = re.others;
      }

  link-front :
      (a : Ptr) (l : Lock) (cs : Cells)
      → IsNew s new n0 f ((a, l) ∷ cs)
      → IsLockList s ((a, l) ∷ cs)
      → Chained s.cell ((a, l) ∷ cs)
      → f < l.inode
      → Placed a ((new, lock_of n0) ∷ (a, l) ∷ cs)
  unfolding link_file_node
  link-front a l cs new_one (n, e, ne, at, lk, back, once, rest) (here, ch) lt = (
    record (write (write (write s new (some first)) a (some (record n { prev = new }))) new
        (some (record first { prev = new }))) { head = new },
    ground arith,
    (
      record first { prev = new },
      refl,
      new_one.ne,
      ground arith,
      refl,
      refl,
      new_one.out,
      (
        record n { prev = new },
        refl,
        ne,
        ground arith,
        lk,
        refl,
        once,
        Linked-frame a n.next cs rest (λ b i. ground arith),
      ),
    ),
    (
      λ n' at'. ground arith,
      (
        λ n' at'. ground (arith, here n at),
        Chained-frame a n.next cs rest ch (λ b k k' i q q'. ground arith),
      ),
    ),
  )
    where
      first : FileLock
      first = record n0 { next = a }

  link-empty : IsNew s new n0 f [] → Placed null ((new, lock_of n0) ∷ [])
  unfolding link_file_node
  link-empty new_one = (
    record (write s new (some (record n0 { prev = new }))) { head = new },
    ground arith,
    (record n0 { prev = new }, refl, new_one.ne, ground arith, refl, refl, refl, new_one.last),
    (λ n' at'. ground arith, tt),
  )

  link-place :
      (cs : Cells)
      → IsNew s new n0 f cs
      → IsValid s cs
      → holds f cs ≡ false
      → Placed (search_cells f cs).1 (place (new, lock_of n0) cs)
  unfolding search_cells place
  link-place [] new_one v free = link-empty new_one
  link-place ((a, l) ∷ cs) new_one v free = elim (Bool-cases (ltb l.inode f)) [
    | inl lt ↦
        let (pre, m, post, e, p, less, end, end') =
          locate-place f a l cs (new, lock_of n0) (ground arith) new_one.inode free v.ordered in
        rw p (
          link-behind _ m pre post (subst (IsNew s new n0 f) e new_one)
            (subst (IsLockList s) e v.linked) (subst (Chained s.cell) e v.chained) less end end')
    | inr ge ↦
        let more : f < l.inode = ground arith in
        let before : leb l.inode n0.file_inode ≡ false = ground arith in
        rw (locate-front f a l cs v.ordered more, before)
          (link-front a l cs new_one v.linked v.chained more)
  ]

-- On a valid list that has no lock of the file, with the new node allocated outside the list,
-- `link_file_node` at the place that `search_file_list` stored runs without a fault, and leaves a
-- valid list: the old one with the new lock behind all of smaller inode number.
pub link_file_node-IsValid :
    (s : Locks) (f : ℕ) (new : Ptr) (n0 : FileLock) (cs : Cells)
    → IsNew s new n0 f cs
    → IsValid s cs
    → holds f cs ≡ false
    → (s' : Locks) × (link_file_node f (search_cells f cs).1 new s ≡ ok (tt, s'))
      × IsValid s' (place (new, lock_of n0) cs)
link_file_node-IsValid s f new n0 cs new_one v free =
    let (s', run, linked, chained) = link-place s f new n0 cs new_one v free in
    (
      s',
      run,
      record {
        linked = linked;
        ordered =
            place-IsOrdered new (lock_of n0) cs v.ordered
              (not_holds-Joins f (lock_of n0) cs new_one.inode free);
        chained = chained;
      },
    )
