-- ===== src/LockList/Delete.antt =====
-- `delete_file_list` takes one node out of the list, wherever it stands, and frees it.
use backup_lfs.Base.{
  ◌≡◌, ◌≢◌, refl, sym, ap, subst, ◌⊎◌, inl, inr, true, false, Option, none, some, [], ◌∷◌, ◌++◌,
  arith, ok,
}
use backup_lfs.Header.{Ptr, null, FileLock}
use backup_lfs.LockList.{Locks, delete_file_list, write}
use backup_lfs.LockList.Chain.{
  Lock, Cell, Cells, has, Linked, IsLockList, has-append, Linked-frame, Linked-before, Linked-mem,
}

-- `g` is `h` without the node at `a`, between `pl` at `pv` and its successor.
pub record Cut (h g : Ptr → Option FileLock) (pv a : Ptr) (pl node : FileLock) : Type 0 where
  pub before : h pv ≡ some pl
  pub at : h a ≡ some node
  pub at_prev : g pv ≡ some (record pl { next = node.next })
  pub at_next :
      (n : FileLock)
      → node.next ≢ null
      → h node.next ≡ some n
      → g node.next ≡ some (record n { prev = pv })
  pub others : (b : Ptr) → b ≢ pv → b ≢ a → b ≢ node.next → g b ≡ h b

module _ {h g : Ptr → Option FileLock} {pv a : Ptr} {pl node : FileLock}
    (cut : Cut h g pv a pl node) where
  open cut use {before, at, at_prev, at_next, others}

  next-mem :
      (b p : Ptr) (m l : Lock) (pre post : Cells)
      → Linked h b p (pre ++ (pv, m) ∷ (a, l) ∷ post)
      → (node.next ≡ null) ⊎ (has node.next post ≡ true)
  next-mem b p m l [] post
        (n, e, ne, here, lk, back, out, (n', e', ne', here', lk', back', out', rest)) =
      let same : n' ≡ node = ground arith in
      let following : (n'.next ≡ null) ⊎ (has n'.next post ≡ true) =
        Linked-mem h a n'.next post rest in
      rw same at following
  next-mem b p m l ((c, k) ∷ pre) post (n, e, ne, here, lk, back, out, rest) =
      next-mem c n.next m l pre post rest

  Linked-cut :
      (b p : Ptr) (m l : Lock) (pre post : Cells)
      → Linked h b p (pre ++ (pv, m) ∷ (a, l) ∷ post)
      → Linked g b p (pre ++ (pv, m) ∷ post)
  Linked-cut b p m l [] post
        (n, e, ne, here, lk, back, out, (n', e', ne', here', lk', back', out', rest)) =
      let same : n ≡ pl = ground arith in
      let same' : n' ≡ node = ground arith in
      let to : n'.next ≡ node.next = ground arith in
      (
        record pl { next = node.next },
        e,
        ne,
        at_prev,
        ground arith,
        ground arith,
        ground arith,
        Linked-before a pv node.next post (rw to at rest) (λ k f i. ground (arith, at_next k))
            (λ c i f. ground (arith, others c)),
      )
  Linked-cut b p m l ((c, k) ∷ pre) post (n, e, ne, here, lk, back, out, rest) = (
    n,
    e,
    ne,
    ground (
      arith,
      others c,
      next-mem c n.next m l pre post rest,
      has-append c pre ((pv, m) ∷ (a, l) ∷ post),
    ),
    lk,
    back,
    ground (arith, has-append c pre ((pv, m) ∷ (a, l) ∷ post), has-append c pre ((pv, m) ∷ post)),
    Linked-cut c n.next m l pre post rest,
  )

pub record Pair (s : Locks) (p pv a : Ptr) (post : Cells) : Type 0 where
  pub pl : FileLock
  pub node : FileLock
  pub before : s.cell pv ≡ some pl
  pub at : s.cell a ≡ some node
  pub pv_ne : pv ≢ null
  pub a_ne : a ≢ null
  pub differ : pv ≢ a
  pub start : p ≢ a
  pub back : node.prev ≡ pv
  pub once : (has pv post ≡ false) × (has a post ≡ false)
  pub last :
      node.next ≡ null
      ⊎ ((n : FileLock) × (node.next ≢ null)
          × (s.cell node.next ≡ some n)
          × (has node.next post ≡ true))

pub Linked-Pair :
    (s : Locks) (b p pv a : Ptr) (m l : Lock) (pre post : Cells)
    → Linked s.cell b p (pre ++ (pv, m) ∷ (a, l) ∷ post)
    → Pair s p pv a post
Linked-Pair s b p pv a m l [] []
      (n, e, ne, here, lk, bk, out, (n', e', ne', here', lk', bk', out', rest)) =
    record {
      pl = n;
      node = n';
      before = here;
      at = here';
      pv_ne = ne;
      a_ne = ne';
      differ = ground arith;
      start = ground arith;
      back = bk';
      once = (refl, refl);
      last = inl rest;
    }
Linked-Pair s b p pv a m l [] ((c, k) ∷ post)
      (
        n,
        e,
        ne,
        here,
        lk,
        bk,
        out,
        (n', e', ne', here', lk', bk', out', (n'', e'', ne'', here'', lk'', bk'', out'', rest)),
      ) =
    record {
      pl = n;
      node = n';
      before = here;
      at = here';
      pv_ne = ne;
      a_ne = ne';
      differ = ground arith;
      start = ground arith;
      back = bk';
      once = ground arith;
      last = inr (n'', ground arith, ground arith, ground arith);
    }
Linked-Pair s b p pv a m l ((c, k) ∷ pre) post (n, e, ne, here, lk, bk, out, rest) =
    let found = Linked-Pair s c n.next pv a m l pre post rest in
    record {
      pl = found.pl;
      node = found.node;
      before = found.before;
      at = found.at;
      pv_ne = found.pv_ne;
      a_ne = found.a_ne;
      differ = found.differ;
      start = ground (arith, has-append c pre ((pv, m) ∷ (a, l) ∷ post));
      back = found.back;
      once = found.once;
      last = found.last;
    }

module _ (s : Locks) (a : Ptr) where
  abbrev Deleted : Cells → Type 0
  Deleted cs =
      (s' : Locks) × (delete_file_list a s ≡ ok (tt, s')) × IsLockList s' cs × (s'.cell a ≡ none)

  module _ (pv : Ptr) (post : Cells) (f : Pair s s.head pv a post) where
    open f use {pl, node, before, at, pv_ne, a_ne, differ, start, back, once, last}

    pub delete-Cut :
        (s' : Locks) × (delete_file_list a s ≡ ok (tt, s'))
        × Cut s.cell s'.cell pv a pl node
        × (s'.head ≡ s.head)
        × (s'.cell a ≡ none)
    unfolding delete_file_list
    delete-Cut = elim last [
      | inl end ↦ (
        write (write s pv (some (record pl { next = null }))) a none,
        ground arith,
        record {
          before = before;
          at = at;
          at_prev = ground arith;
          at_next = λ n ne e. absurd (ne end);
          others = λ b x y z. ground arith;
        },
        refl,
        ground arith,
      )
      | inr (nq, ne, there, mem) ↦ (
        write
            (write (write s pv (some (record pl { next = node.next }))) node.next
              (some (record nq { prev = node.prev })))
            a none,
        ground arith,
        record {
          before = before;
          at = at;
          at_prev = ground arith;
          at_next = λ n ne' e. ground arith;
          others = λ b x y z. ground arith;
        },
        refl,
        ground arith,
      )
    ]

  delete-behind :
      (pv : Ptr) (m l : Lock) (pre post : Cells)
      → IsLockList s (pre ++ (pv, m) ∷ (a, l) ∷ post)
      → Deleted (pre ++ (pv, m) ∷ post)
  delete-behind pv m l pre post c =
      let (s', run, cut, head, freed) =
        delete-Cut pv post (Linked-Pair s s.head s.head pv a m l pre post c) in
      (s', run, rw head (Linked-cut cut s.head s.head m l pre post c), freed)

  delete-first : (l : Lock) (post : Cells) → IsLockList s ((a, l) ∷ post) → Deleted post
  unfolding delete_file_list
  delete-first l [] (n, e, ne, at, lk, bk, out, rest) =
      (record (write s a none) { head = n.next }, ground arith, ground arith, ground arith)
  delete-first l ((b, k) ∷ post)
        (n, e, ne, at, lk, bk, out, (n', e', ne', at', lk', bk', out', rest)) =
      (
        record (write (write s b (some (record n' { prev = b }))) a none) { head = b },
        ground arith,
        (
          record n' { prev = b },
          refl,
          ne',
          ground arith,
          lk',
          refl,
          out',
          Linked-frame b n'.next post rest (λ c i. ground arith),
        ),
        ground arith,
      )

-- A sequence that is not empty ends in a cell.
last-cell :
    (c : Cell) (pre : Cells)
    → (front : Cells) × (d : Cell) × ((xs : Cells) → (c ∷ pre) ++ xs ≡ front ++ d ∷ xs)
last-cell c [] = ([], c, λ xs. refl)
last-cell c (d ∷ pre) =
    let (front, z, same) = last-cell d pre in (c ∷ front, z, λ xs. ap (◌∷◌ c) (same xs))

-- On a well-linked list `delete_file_list` takes out the node that it is given, whether that stands
-- at the head, in the middle or at the end: it runs without a fault, leaves the other locks linked
-- in their order, and frees the node.
pub delete_file_list-remove :
    (s : Locks) (a : Ptr) (l : Lock) (pre post : Cells)
    → IsLockList s (pre ++ (a, l) ∷ post)
    → (s' : Locks) × (delete_file_list a s ≡ ok (tt, s'))
      × IsLockList s' (pre ++ post)
      × (s'.cell a ≡ none)
delete_file_list-remove s a l [] post c = delete-first s a l post c
delete_file_list-remove s a l (d ∷ pre) post c =
    let (front, (pv, m), same) = last-cell d pre in
    subst (Deleted s a) (sym (same post))
      (delete-behind s a pv m l front post (subst (IsLockList s) (same ((a, l) ∷ post)) c))
