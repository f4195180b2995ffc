-- ===== src/Locking/Fresh.antt =====
-- A node that is not in the list: making it, freeing it, and the walk that asks for the backup.
use backup_lfs.Base.{
  ℕ, zero, suc, ◌<◌, ◌≡◌, ◌≢◌, refl, ap, Bool, Option, [], ◌∷◌, ◌++◌, true, false, none, some,
  arith, ◌==◌, ◌||◌, ◌&&◌, length, ok, ℕ_discrete, eq→==, ne→==,
}
use backup_lfs.Base.Int.{pos}
use backup_lfs.Header.{Ptr, null, FileLock}
use backup_lfs.LockList.{Locks, write, load, file_node, get_file_node, free_file_node}
use backup_lfs.LockList.Chain.{
  Lock, Cells, has, Linked, Linked-frame, Chained, Chained-frame, IsValid, IsNew,
}
use backup_lfs.Locking.{backup_among}
use backup_lfs.Locking.Frame.{Kept}

-- A node that is not allocated is not in the list.
pub fresh-out :
    (h : Ptr → Option FileLock) (new before p : Ptr) (cs : Cells)
    → Linked h before p cs
    → h new ≡ none
    → has new cs ≡ false
fresh-out h new before p [] e free = refl
fresh-out h new before p ((a, l) ∷ cs) (m, e, ne, there, lk, bk, out, rest) free =
    elim (ℕ_discrete a new) [
      | yes same ↦ absurd (ground (arith, there, free, same))
      | no other ↦ rw (ne→== a new other) (fresh-out h new a m.next cs rest free)
    ]

pub write_out-IsValid :
    (s : Locks) (new : Ptr) (v : Option FileLock) (cs : Cells)
    → IsValid s cs
    → has new cs ≡ false
    → IsValid (write s new v) cs
write_out-IsValid s new v cs valid out = record {
  linked = Linked-frame s.head s.head cs valid.linked same;
  ordered = valid.ordered;
  chained =
      Chained-frame s.head s.head cs valid.linked valid.chained
        (λ a n n' here at at'. ground (arith, same a here, at, at'));
}
  where
    same : (a : Ptr) → has a cs ≡ true → (write s new v).cell a ≡ s.cell a
    same a here = elim (ℕ_discrete new a) [
      | yes is ↦ absurd (ground (arith, here, out, is))
      | no other ↦ rw (ne→== new a other) refl
    ]

pub write_fresh-Kept :
    (s : Locks) (new : Ptr) (v : FileLock) → s.cell new ≡ none → Kept s (write s new (some v))
write_fresh-Kept s new v free p n at = elim (ℕ_discrete new p) [
  | yes is ↦ absurd (ground (arith, at, free, is))
  | no other ↦ (n, rw (ne→== new p other) at, refl)
]

-- `get_file_node` at a free address makes a new node, beside the list.
pub get_file_node-IsNew :
    (s : Locks) (new f : ℕ) (flags txnid : ℕ) (cs : Cells)
    → new ≢ null
    → s.cell new ≡ none
    → IsValid s cs
    → (get_file_node new f (pos 0) flags txnid s
        ≡ ok (new, write s new (some (file_node f (pos 0) flags txnid))))
      × IsNew
          (write s new (some (file_node f (pos 0) flags txnid)))
          new
          (file_node f (pos 0) flags txnid)
          f
          cs
unfolding get_file_node
get_file_node-IsNew s new f flags txnid cs ne free v = (
  rw (ne→== new null ne) refl,
  record {
    ne = ne;
    at = rw (eq→== new new refl) refl;
    inode = refl;
    last = refl;
    alone = refl;
    out = fresh-out s.cell new s.head s.head cs v.linked free;
  },
)

pub free_file_node-run :
    (s : Locks) (new : Ptr) (n : FileLock)
    → new ≢ null
    → s.cell new ≡ some n
    → free_file_node new s ≡ ok (tt, write s new none)
unfolding free_file_node load
free_file_node-run s new n ne at = rw (ne→== new null ne, at) refl

-- Whether the backup owns this lock or a later one of the same file.
abbrev pub backup_in : Lock → Cells → Bool
backup_in l [] = l.owner == 0
backup_in l ((b, m) ∷ cs) =
    let further = backup_in m cs in (l.owner == 0) || ((m.inode == l.inode) && further)

-- The walk along the shared locks of a file computes that.
pub backup_among-backup_in :
    (s : Locks) (fuel : ℕ) (before p a : Ptr) (l : Lock) (cs : Cells)
    → Linked s.cell before p ((a, l) ∷ cs)
    → Chained s.cell ((a, l) ∷ cs)
    → length cs < fuel
    → backup_among fuel a s ≡ ok (backup_in l cs, s)
unfolding backup_among load
backup_among-backup_in s zero before p a l cs c ch short = absurd (omega arith)
backup_among-backup_in s (suc k) before p a l [] (n, e, ne, at, lk, bk, out, rest) (here, ch)
      short =
    let owner : n.parent_txn ≡ l.owner = ap (λ (j : Lock). j.owner) lk in
    ground (arith, here n at, owner)
backup_among-backup_in s (suc k) before p a l ((b, m) ∷ cs) (n, e, ne, at, lk, bk, out, rest)
      (here, ch) short =
    let owner : n.parent_txn ≡ l.owner = ap (λ (j : Lock). j.owner) lk in
    ground (
      arith,
      here n at,
      owner,
      rest.2,
      backup_among-backup_in s k a n.next b m cs rest ch (omega arith),
    )

-- The list from a lock on, and the node there.
pub Linked-from :
    (h : Ptr → Option FileLock) (before p a : Ptr) (l : Lock) (pre post : Cells)
    → Linked h before p (pre ++ (a, l) ∷ post)
    → (before' : Ptr) × (p' : Ptr) × Linked h before' p' ((a, l) ∷ post)
Linked-from h before p a l [] post c = (before, p, c)
Linked-from h before p a l ((b, k) ∷ pre) post (m, e, ne, there, lk, bk, out, rest) =
    Linked-from h b m.next a l pre post rest

pub Chained-from :
    (h : Ptr → Option FileLock) (a : Ptr) (l : Lock) (pre post : Cells)
    → Chained h (pre ++ (a, l) ∷ post)
    → Chained h ((a, l) ∷ post)
Chained-from h a l [] post ch = ch
Chained-from h a l (c ∷ pre) post (here, ch) = Chained-from h a l pre post ch
