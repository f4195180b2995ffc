-- ===== src/Locking/Owned.antt =====
-- The locks of one transaction, linked by `next_txn`, and what a write to that link leaves alone.
use backup_lfs.Base.{
  ℕ, zero, suc, ◌<◌, ◌≤◌, ◌≡◌, ◌≢◌, refl, sym, ◌∙◌, ap, List, [], ◌∷◌, some, arith, length, ok,
  subst, ℕ_discrete, eq→==, ne→==,
}
use backup_lfs.Header.{Ptr, null, FileLock, TxnNode}
use backup_lfs.Txn.{find_txn, update_txn_node}
use backup_lfs.LockList.{Locks, write, load, modify}
use backup_lfs.LockList.Chain.{lock_of, Cells, Linked, Chained, IsValid, next_of}
use backup_lfs.Server.{Server, load_txn, modify_txn}
use backup_lfs.Locking.{last_of_txn, insert_same_txn_list}
use backup_lfs.Locking.Frame.{Kept}
use backup_lfs.Locking.Same.{SameLog, same-LastKept, update_txn_node-LastKept}

-- Two nodes agree in the lock and in the links that the list has.
abbrev pub Agree : FileLock → FileLock → Type 0
Agree k n =
    (lock_of k ≡ lock_of n)
    × (k.prev ≡ n.prev)
    × (k.next ≡ n.next)
    × (k.next_shared_rec ≡ n.next_shared_rec)

module _ (s : Locks) (q : Ptr) (n x : FileLock) (at : s.cell q ≡ some n) (agree : Agree x n) where
  -- Where a node is written, all nodes are what they were but for what the list does not use.
  written-cell :
      (a : Ptr) (m : FileLock)
      → s.cell a ≡ some m
      → (m' : FileLock) × ((write s q (some x)).cell a ≡ some m')
        × (lock_of m' ≡ lock_of m)
        × (m'.prev ≡ m.prev)
        × (m'.next ≡ m.next)
        × (m'.next_shared_rec ≡ m.next_shared_rec)
  written-cell a m e = elim (ℕ_discrete q a) [
    | yes same ↦
        let here : n ≡ m = ground (arith, e, at, same) in
        let (lock, prev, next, shared) = agree in
        subst
          (λ (k : FileLock).
            (m' : FileLock) × ((write s q (some x)).cell a ≡ some m')
            × (lock_of m' ≡ lock_of k)
            × (m'.prev ≡ k.prev)
            × (m'.next ≡ k.next)
            × (m'.next_shared_rec ≡ k.next_shared_rec))
          here (x, rw (eq→== q a same) refl, lock, prev, next, shared)
    | no other ↦ (m, rw (ne→== q a other) e, refl, refl, refl, refl)
  ]

  written-Linked :
      (before p : Ptr) (cs : Cells)
      → Linked s.cell before p cs
      → Linked (write s q (some x)).cell before p cs
  written-Linked before p [] e = e
  written-Linked before p ((a, l) ∷ cs) (m, e, ne, there, lk, bk, out, rest) =
      let (m', there', lk', bk', nx', sh') = written-cell a m there in
      (
        m',
        e,
        ne,
        there',
        lk' ∙ lk,
        bk' ∙ bk,
        out,
        subst (λ k. Linked (write s q (some x)).cell a k cs) (sym nx')
            (written-Linked a m.next cs rest),
      )

  written-Chained :
      (before p : Ptr) (cs : Cells)
      → Linked s.cell before p cs
      → Chained s.cell cs
      → Chained (write s q (some x)).cell cs
  written-Chained before p [] c ch = tt
  written-Chained before p ((a, l) ∷ cs) (m, e, ne, there, lk, bk, out, rest) (here, ch) =
      let (m', there', lk', bk', nx', sh') = written-cell a m there in
      (
        λ k at'.
            let same : m' ≡ k = ground (arith, there', at') in
            subst (λ (j : FileLock). j.next_shared_rec ≡ next_of l cs) same (sh' ∙ here m there),
        written-Chained a m.next cs rest ch,
      )

  pub written-IsValid : (cs : Cells) → IsValid s cs → IsValid (write s q (some x)) cs
  written-IsValid cs v = record {
    linked = written-Linked s.head s.head cs v.linked;
    ordered = v.ordered;
    chained = written-Chained s.head s.head cs v.linked v.chained;
  }

-- From `p` the `next_txn` pointers lead through the nodes `ps` to NULL.
abbrev pub Owns : Locks → Ptr → List Ptr → Type 0
Owns s p [] = p ≡ null
Owns s p (a ∷ ps) =
    (p ≡ a) × (a ≢ null) × (n : FileLock) × (s.cell a ≡ some n) × Owns s n.next_txn ps

pub Owns-Kept : (s s' : Locks) (p : Ptr) (ps : List Ptr) → Kept s s' → Owns s p ps → Owns s' p ps
Owns-Kept s s' p [] keeps e = e
Owns-Kept s s' p (a ∷ ps) keeps (e, ne, n, at, rest) =
    let (n', at', same) = keeps a n at in
    (e, ne, n', at', subst (λ q. Owns s' q ps) (sym same) (Owns-Kept s s' n.next_txn ps keeps rest))

-- The walk along them ends at a node that is there.
last_of_txn-Owns :
    (s : Locks) (fuel : ℕ) (p a : Ptr) (ps : List Ptr)
    → Owns s p (a ∷ ps)
    → length ps < fuel
    → (q : Ptr) × (n : FileLock) × (last_of_txn fuel p s ≡ ok (q, s))
      × (q ≢ null)
      × (s.cell q ≡ some n)
unfolding last_of_txn load
last_of_txn-Owns s zero p a ps o short = absurd (omega arith)
last_of_txn-Owns s (suc k) p a [] (e, ne, n, at, end) short =
    (p, n, ground (arith, at, e, end), ground (arith, e), ap s.cell e ∙ at)
last_of_txn-Owns s (suc k) p a (b ∷ ps) (e, ne, n, at, (e', ne', m', at', rest)) short =
    let (q, m, run, ne'', there) =
      last_of_txn-Owns s k n.next_txn b ps (e', ne', m', at', rest) (omega arith) in
    (q, m, ground (arith, at, e, e', run), ne'', there)

-- A live transaction's new lock is put behind its others: the list of locked files stays valid.
pub insert_same_txn_list-IsValid :
    (fuel txnid read_bit : ℕ) (new : Ptr) (s : Server) (t : TxnNode) (ps : List Ptr) (cs : Cells)
    → find_txn txnid s.txns ≡ some t
    → Owns s.locks t.file_rec_no ps
    → length ps ≤ fuel
    → IsValid s.locks cs
    → (s' : Server) × (insert_same_txn_list fuel txnid read_bit new s ≡ ok (tt, s'))
      × IsValid s'.locks cs
      × SameLog s s'
unfolding insert_same_txn_list load_txn modify_txn modify load
insert_same_txn_list-IsValid fuel txnid read_bit new s t [] cs live o enough v = (
  record s {
    txns =
        update_txn_node txnid (λ u. record u { file_rec_no = new; before_after = read_bit }) s.txns;
  },
  rw (live, eq→== t.file_rec_no null o) refl,
  v,
  (
    refl,
    update_txn_node-LastKept txnid (λ u. record u { file_rec_no = new; before_after = read_bit })
        (λ u. (refl, refl)) s.txns,
  ),
)
insert_same_txn_list-IsValid fuel txnid read_bit new s t (a ∷ ps) cs live o enough v =
    let (q, n, run, ne, at) = last_of_txn-Owns s.locks fuel t.file_rec_no a ps o (omega arith) in
    (
      record s { locks = write s.locks q (some (record n { next_txn = new })) },
      rw (live, ne→== t.file_rec_no null (ground (arith, o.0, o.1)), run, ne→== q null ne, at) refl,
      written-IsValid s.locks q n (record n { next_txn = new }) at (refl, refl, refl, refl) cs v,
      (refl, same-LastKept s.txns),
    )
