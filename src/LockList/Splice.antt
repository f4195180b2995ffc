-- ===== src/LockList/Splice.antt =====
-- A node put into the list behind another one.
use backup_lfs.Base.{
  ℕ, ◌≡◌, ◌≢◌, refl, sym, ◌∙◌, ◌⊎◌, inl, inr, true, false, Option, some, ok, [], ◌∷◌, ◌++◌, arith,
  ◌==◌, if◌then◌else◌, ne→==,
}
use backup_lfs.Header.{Ptr, null, FileLock}
use backup_lfs.LockList.{Locks, write, link_behind}
use backup_lfs.LockList.Chain.{
  Lock, lock_of, Cells, has, Linked, Chained, next_of, has-append, next_of-append, Linked-before,
  Linked-mem, Chained-frame, IsNew,
}

-- `g` is `h` with the node `new` put in behind `loc`, whose node in `h` is `nl`; `l` is the new lock.
pub record Spliced (h g : Ptr → Option FileLock) (loc new : Ptr) (nl : FileLock) (l : Lock)
    : Type 0 where
  pub before : h loc ≡ some nl
  pub changed : FileLock
  pub at_loc : g loc ≡ some changed
  pub changed_lock : lock_of changed ≡ lock_of nl
  pub changed_next : changed.next ≡ new
  pub changed_prev : changed.prev ≡ nl.prev
  pub added : FileLock
  pub at_new : g new ≡ some added
  pub added_lock : lock_of added ≡ l
  pub added_next : added.next ≡ nl.next
  pub added_prev : added.prev ≡ loc
  pub added_shared : added.next_shared_rec ≡ null
  pub changed_shared :
      changed.next_shared_rec ≡ (if l.inode == nl.file_inode then new else nl.next_shared_rec)
  pub at_next :
      (n : FileLock)
      → nl.next ≢ null
      → h nl.next ≡ some n
      → g nl.next ≡ some (record n { prev = new })
  pub others : (a : Ptr) → a ≢ loc → a ≢ new → a ≢ nl.next → g a ≡ h a

module _ {h g : Ptr → Option FileLock} {loc new : Ptr} {nl : FileLock} {l : Lock}
    (sp : Spliced h g loc new nl l) (ne : new ≢ null) where
  open sp use {
    before, changed, at_loc, changed_lock, changed_next, changed_prev, added, at_new, added_lock,
    added_next, added_prev, added_shared, changed_shared, at_next, others,
  }

  next-mem :
      (pv p : Ptr) (m : Lock) (pre post : Cells)
      → Linked h pv p (pre ++ (loc, m) ∷ post)
      → (nl.next ≡ null) ⊎ (has nl.next post ≡ true)
  next-mem pv p m [] post (n, e, ne', at, lk, back, out, rest) =
      let same : n ≡ nl = ground arith in
      let following : (n.next ≡ null) ⊎ (has n.next post ≡ true) =
        Linked-mem h loc n.next post rest in
      rw same at following
  next-mem pv p m ((a, k) ∷ pre) post (n, e, ne', at, lk, back, out, rest) =
      next-mem a n.next m pre post rest

  Linked-splice_here :
      (pv p : Ptr) (m : Lock) (post : Cells)
      → has new ((loc, m) ∷ post) ≡ false
      → Linked h pv p ((loc, m) ∷ post)
      → Linked g pv p ((loc, m) ∷ (new, l) ∷ post)
  Linked-splice_here pv p m post apart (n, e, ne', at, lk, back, out, rest) =
      let same : n ≡ nl = ground arith in
      let to : n.next ≡ (added).next = ground arith in
      (
        changed,
        e,
        ne',
        at_loc,
        ground arith,
        ground arith,
        ground arith,
        (
          added,
          changed_next,
          ne,
          at_new,
          added_lock,
          added_prev,
          ground arith,
          Linked-before loc new (added).next post (rw to at rest)
              (λ k f i. ground (arith, at_next k)) (λ b i f. ground (arith, others b)),
        ),
      )

  pub Linked-splice :
      (pv p : Ptr) (m : Lock) (pre post : Cells)
      → has new (pre ++ (loc, m) ∷ post) ≡ false
      → Linked h pv p (pre ++ (loc, m) ∷ post)
      → Linked g pv p (pre ++ (loc, m) ∷ (new, l) ∷ post)
  Linked-splice pv p m [] post apart c = Linked-splice_here pv p m post apart c
  Linked-splice pv p m ((a, k) ∷ pre) post apart (n, e, ne', at, lk, back, out, rest) = (
    n,
    e,
    ne',
    ground (arith, others a, next-mem a n.next m pre post rest, has-append a pre ((loc, m) ∷ post)),
    lk,
    back,
    ground
        (arith, has-append a pre ((loc, m) ∷ post), has-append a pre ((loc, m) ∷ (new, l) ∷ post)),
    Linked-splice a n.next m pre post (ground arith) rest,
  )

  Chained-splice_here :
      (pv p : Ptr) (m : Lock) (post : Cells)
      → has new ((loc, m) ∷ post) ≡ false
      → Linked h pv p ((loc, m) ∷ post)
      → Chained h ((loc, m) ∷ post)
      → next_of l post ≡ null
      → (l.inode ≢ m.inode → next_of m post ≡ null)
      → Chained g ((loc, m) ∷ (new, l) ∷ post)
  Chained-splice_here pv p m post apart (n, e, ne', at, lk, back, out, rest) (here, ch) end other =
      let same : n ≡ nl = ground arith in
      (
        λ n' at'. ground (arith, here nl before),
        (
          λ n' at'. ground arith,
          Chained-frame loc n.next post rest ch
              (λ b k k' i at at'. ground (arith, others b, at_next k)),
        ),
      )

  pub Chained-splice :
      (pv p : Ptr) (m : Lock) (pre post : Cells)
      → has new (pre ++ (loc, m) ∷ post) ≡ false
      → Linked h pv p (pre ++ (loc, m) ∷ post)
      → Chained h (pre ++ (loc, m) ∷ post)
      → next_of l post ≡ null
      → (l.inode ≢ m.inode → next_of m post ≡ null)
      → Chained g (pre ++ (loc, m) ∷ (new, l) ∷ post)
  Chained-splice pv p m [] post apart c ch end other =
      Chained-splice_here pv p m post apart c ch end other
  Chained-splice pv p m ((a, k) ∷ pre) post apart (n, e, ne', at, lk, back, out, rest) (here, ch)
        end other =
      (
        λ n' at'.
            let kept : g a ≡ h a = ground (
              arith,
              others a,
              next-mem a n.next m pre post rest,
              has-append a pre ((loc, m) ∷ post),
            ) in
            here n' (sym kept ∙ at') ∙ next_of-append k pre (loc, m) post ((new, l) ∷ post),
        Chained-splice a n.next m pre post (ground arith) rest ch end other,
      )

-- The node behind `nl`, if there is one.
abbrev pub Behind : Locks → FileLock → Type 0
Behind s nl = (nl.next ≡ null) ⊎ ((nq : FileLock) × (nl.next ≢ null) × (s.cell nl.next ≡ some nq))

pub record Found (s : Locks) (loc : Ptr) (m : Lock) (post : Cells) : Type 0 where
  pub node : FileLock
  pub at : s.cell loc ≡ some node
  pub lock : lock_of node ≡ m
  pub ne : loc ≢ null
  pub behind : Behind s node
  pub ahead : (node.next ≡ null) ⊎ (has node.next post ≡ true)
  pub once : has loc post ≡ false

-- The node at a position of the list.
pub Linked-Found :
    (s : Locks) (pv p loc : Ptr) (m : Lock) (pre post : Cells)
    → Linked s.cell pv p (pre ++ (loc, m) ∷ post)
    → Found s loc m post
Linked-Found s pv p loc m [] [] (n, e, ne, at, lk, back, out, rest) = record {
  node = n;
  at = at;
  lock = lk;
  ne = ne;
  behind = inl rest;
  ahead = inl rest;
  once = out;
}
Linked-Found s pv p loc m [] ((b, k) ∷ post)
      (n, e, ne, at, lk, back, out, (n', e', ne', at', lk', back', out', more)) =
    record {
      node = n;
      at = at;
      lock = lk;
      ne = ne;
      behind = inr (n', ground arith, ground arith);
      ahead = inr (ground arith);
      once = out;
    }
Linked-Found s pv p loc m ((a, k) ∷ pre) post (n, e, ne', at, lk, back, out, rest) =
    Linked-Found s a n.next loc m pre post rest

-- What `link_behind` makes of the heap.
pub record Rewired (h g : Ptr → Option FileLock) (loc new : Ptr) (nl n0 : FileLock) : Type 0 where
  pub at_loc : g loc ≡ some (record nl { next = new })
  pub at_new : g new ≡ some (record n0 { next = nl.next; prev = loc })
  pub at_next :
      (n : FileLock)
      → nl.next ≢ null
      → h nl.next ≡ some n
      → g nl.next ≡ some (record n { prev = new })
  pub others : (a : Ptr) → a ≢ loc → a ≢ new → a ≢ nl.next → g a ≡ h a

pub record Apart (s : Locks) (loc new : Ptr) (nl n0 : FileLock) : Type 0 where
  pub loc_ne : loc ≢ null
  pub new_ne : new ≢ null
  pub at_loc : s.cell loc ≡ some nl
  pub at_new : s.cell new ≡ some n0
  pub loc_new : loc ≢ new
  pub next_new : nl.next ≢ new
  pub next_loc : nl.next ≢ loc

pub link_behind-Rewired :
    (s : Locks) (loc new : Ptr) (nl n0 : FileLock)
    → Apart s loc new nl n0
    → Behind s nl
    → (s' : Locks) × (link_behind loc new s ≡ ok (tt, s'))
      × Rewired s.cell s'.cell loc new nl n0
      × (s'.head ≡ s.head)
unfolding link_behind
link_behind-Rewired s loc new nl n0 apart (inl last) = (
  write
      (write (write s new (some (record n0 { next = nl.next }))) loc
        (some (record nl { next = new })))
      new (some (record n0 { next = nl.next; prev = loc })),
  ground arith,
  record {
    at_loc = ground arith;
    at_new = ground arith;
    at_next = λ n ne at. absurd (ne last);
    others = λ a x y z. ground arith;
  },
  refl,
)
link_behind-Rewired s loc new nl n0 apart (inr (nq, ne, at)) = (
  write
      (write
        (write (write s new (some (record n0 { next = nl.next }))) nl.next
          (some (record nq { prev = new })))
        loc (some (record nl { next = new })))
      new (some (record n0 { next = nl.next; prev = loc })),
  rw
      (
        ne→== loc null apart.loc_ne,
        apart.at_loc,
        ne→== new null apart.new_ne,
        apart.at_new,
        ne→== nl.next null ne,
      )
      (ground arith),
  record {
    at_loc = ground arith;
    at_new = ground arith;
    at_next = λ n ne' at'. ground arith;
    others = λ a x y z. ground arith;
  },
  refl,
)

-- The new node and its neighbour do not name the same place in the list.
pub Found-Apart :
    (s : Locks) (f : ℕ) (p new : Ptr) (n0 : FileLock) (k : Lock) (pre post : Cells)
    → IsNew s new n0 f (pre ++ (p, k) ∷ post)
    → (found : Found s p k post) → Apart s p new found.node n0
Found-Apart s f p new n0 k pre post new_one found = record {
  loc_ne = found.ne;
  new_ne = new_one.ne;
  at_loc = found.at;
  at_new = new_one.at;
  loc_new = ground (arith, has-append new pre ((p, k) ∷ post));
  next_new =
      ground (arith, found.ahead, new_one.ne, new_one.out, has-append new pre ((p, k) ∷ post));
  next_loc = ground (arith, found.ahead, found.once, found.ne);
}
