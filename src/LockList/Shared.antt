-- ===== src/LockList/Shared.antt =====
-- The chain of the shared locks on one file, and what joins and leaves it.
use backup_lfs.Base.{ℕ, zero, suc, ◌<◌, ◌≡◌, [], ◌∷◌, arith, ◌==◌, if◌then◌else◌, length, ok}
use backup_lfs.Header.{Ptr}
use backup_lfs.LockList.{Locks, load, last_shared}
use backup_lfs.LockList.Chain.{Chained, Lock, Cells, Linked}

-- The last lock of the file, from the first cell on.
abbrev pub group_end : Ptr → Lock → Cells → Ptr
group_end a l [] = a
group_end a l ((b, m) ∷ cs) =
    let further = group_end b m cs in if m.inode == l.inode then further else a

-- Following `next_shared_rec` from a node of the list stops at the last node of its file.
pub last_shared-group_end :
    (s : Locks) (fuel : ℕ) (before p a : Ptr) (l : Lock) (cs : Cells)
    → Linked s.cell before p ((a, l) ∷ cs)
    → Chained s.cell ((a, l) ∷ cs)
    → length cs < fuel
    → last_shared fuel a s ≡ ok (group_end a l cs, s)
unfolding last_shared load
last_shared-group_end s zero before p a l cs c ch short = absurd (omega arith)
last_shared-group_end s (suc k) before p a l [] (n, e, ne, at, lk, bk, out, rest) (here, ch) short =
    ground (arith, here n at)
last_shared-group_end s (suc k) before p a l ((b, m) ∷ cs) (n, e, ne, at, lk, bk, out, rest)
      (here, ch) short =
    ground
      (arith, here n at, rest.2, last_shared-group_end s k a n.next b m cs rest ch (omega arith))
