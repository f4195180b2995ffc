-- ===== src/LockList/Leave.antt =====
-- What the removal of a shared lock leaves behind when its shared links are not undone first.
use backup_lfs.Base.{ℕ, suc, ◌≡◌, Option, some, [], ◌∷◌, ◌++◌, arith, ok, fault}
use backup_lfs.Header.{Ptr, FileLock}
use backup_lfs.LockList.{Locks, load, last_shared, delete_file_list}
use backup_lfs.LockList.Chain.{Lock, Cells, IsLockList, Chained}
use backup_lfs.LockList.Delete.{Linked-Pair, delete-Cut}

Chained-at :
    (h : Ptr → Option FileLock) (a b : Ptr) (l m : Lock) (pre post : Cells)
    → Chained h (pre ++ (a, l) ∷ (b, m) ∷ post)
    → l.inode ≡ m.inode
    → (n : FileLock) → h a ≡ some n
    → n.next_shared_rec ≡ b
Chained-at h a b l m [] post (here, ch) e n at = ground (arith, here n at)
Chained-at h a b l m (c ∷ pre) post (here, ch) e n at = Chained-at h a b l m pre post ch e n at

-- On a list where the shared links are right and two locks of one file stand side by side, taking
-- out the second by `delete_file_list` alone frees it while the first still points to it: the next
-- walk along the shared locks from the first, with fuel for two rounds, follows a dangling pointer.
pub delete_file_list-dangles :
    (s : Locks) (a b : Ptr) (l m : Lock) (pre post : Cells) (fuel : ℕ)
    → IsLockList s (pre ++ (a, l) ∷ (b, m) ∷ post)
    → Chained s.cell (pre ++ (a, l) ∷ (b, m) ∷ post)
    → l.inode ≡ m.inode
    → (s' : Locks) × (delete_file_list b s ≡ ok (tt, s'))
      × (last_shared (suc (suc fuel)) a s' ≡ fault)
unfolding last_shared load
delete_file_list-dangles s a b l m pre post fuel c ch e =
    let pair = Linked-Pair s s.head s.head a b l m pre post c in
    let (s', run, cut, head, gone) = delete-Cut s b a post pair in
    let link = Chained-at s.cell a b l m pre post ch e pair.pl pair.before in
    (s', run, ground (arith, cut.at_prev, gone, link, pair.pv_ne, pair.a_ne))
