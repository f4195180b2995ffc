-- ===== src/Handlers/Possible.antt =====
-- The tests of TxFS_Mam/server/Update_manager.c before a write and a read, against a search of the
-- sequence of locks.
use backup_lfs.Base.{
  ℕ, zero, suc, ◌==◌, ==→eq, ◌≢◌, ◌⊎◌, ◌≤◌, fault, Run, ◌<◌, ◌≡◌, refl, Option, none, some, [], ◌∷◌,
  arith, length, ok, if◌then◌else◌, eq→==, ne→==, Bool-cases, inl, inr,
}
use backup_lfs.Base.Int.{ℤ, pos, minus_one, eqb_ℤ}
use backup_lfs.Header.{Ptr, null, FileLock}
use backup_lfs.LockList.{Locks, load}
use backup_lfs.LockList.Chain.{Cells, Linked, IsLockList}
use backup_lfs.Handlers.{find_fd, write_answer, write_possible, read_answer, read_possible}

abbrev or_else : ℤ → Option FileLock → Option FileLock → Option FileLock
or_else fd none further = none
or_else fd (some n) further = if eqb_ℤ n.fd fd then some n else further

-- The first node of the list with the descriptor.
abbrev pub node_with : ℤ → (Ptr → Option FileLock) → Cells → Option FileLock
node_with fd h [] = none
node_with fd h ((a, l) ∷ cs) = or_else fd (h a) (node_with fd h cs)

find_fd-node_with :
    (fuel : ℕ) (fd : ℤ) (before p : Ptr) (cs : Cells) (s : Locks)
    → Linked s.cell before p cs
    → length cs < fuel
    → find_fd fuel fd p s ≡ ok (node_with fd s.cell cs, s)
unfolding find_fd load
find_fd-node_with zero fd before p cs s c short = absurd (omega arith)
find_fd-node_with (suc k) fd before p [] s e short = rw (eq→== p null e) refl
find_fd-node_with (suc k) fd before p ((a, l) ∷ cs) s (n, e, ne, at, lk, pv, out, rest) short =
    let further = find_fd-node_with k fd a n.next cs s rest (omega arith) in
    elim (Bool-cases (eqb_ℤ n.fd fd)) [
      | inl hit ↦ rw (e, ne→== a null ne, ne→== a null ne, at, hit) refl
      | inr miss ↦ rw (e, ne→== a null ne, ne→== a null ne, at, miss, further) refl
    ]

-- What the tests are to say of the first lock with a descriptor: a write needs one that was not opened
-- for reading only, a read needs one that was not opened for writing only (1, or 3 with appending).
pub data MayWrite : Option FileLock → ℤ → Type 0 where
  write_to_none : MayWrite none minus_one
  write_to_read_only : (n : FileLock) → n.flags ≡ 0 → MayWrite (some n) minus_one
  write_allowed : (n : FileLock) → 1 ≤ n.flags → MayWrite (some n) (pos 1)

pub data MayRead : Option FileLock → Run (ℤ × Locks) → Locks → Type 0 where
  read_of_none : (s : Locks) → MayRead none fault s
  read_of_write_only :
      (n : FileLock) (s : Locks)
      → (n.flags ≡ 1) ⊎ (n.flags ≡ 3)
      → MayRead (some n) (ok (minus_one, s)) s
  read_allowed :
      (n : FileLock) (s : Locks)
      → (n.flags ≢ 1) × (n.flags ≢ 3)
      → MayRead (some n) (ok (pos 1, s)) s

write_answer-MayWrite : (n : Option FileLock) → MayWrite n (write_answer n)
write_answer-MayWrite none = write_to_none
write_answer-MayWrite (some n) = elim (Bool-cases (n.flags == 0)) [
  | inl read_only ↦ rw read_only (write_to_read_only n (==→eq n.flags 0 read_only))
  | inr writes ↦ rw writes (write_allowed n (ground (arith, writes)))
]

read_answer-MayRead : (n : Option FileLock) (s : Locks) → MayRead n (read_answer n s) s
unfolding read_answer
read_answer-MayRead none s = read_of_none s
read_answer-MayRead (some n) s = elim (Bool-cases (n.flags == 1)) [
  | inl writes ↦ rw writes (read_of_write_only n s (inl (==→eq n.flags 1 writes)))
  | inr other ↦ elim (Bool-cases (n.flags == 3)) [
    | inl appends ↦ rw (other, appends) (read_of_write_only n s (inr (==→eq n.flags 3 appends)))
    | inr reads ↦
        rw (other, reads) (read_allowed n s (ground (arith, other), ground (arith, reads)))
  ]
]

-- On a list of locks, with a round of fuel for each and one more, both tests look at the first lock
-- with the descriptor and change nothing. A write is answered -1 where there is none or it was opened
-- for reading only, and 1 otherwise; a read is answered -1 where it was opened for writing only, also
-- with appending, and 1 otherwise, and where there is none the test follows NULL.
pub possible-node_with :
    (fuel : ℕ) (fd : ℤ) (cs : Cells) (s : Locks)
    → IsLockList s cs
    → length cs < fuel
    → ((r : ℤ) × (write_possible fuel fd s ≡ ok (r, s)) × MayWrite (node_with fd s.cell cs) r)
      × MayRead (node_with fd s.cell cs) (read_possible fuel fd s) s
unfolding write_possible read_possible
possible-node_with fuel fd cs s c short =
    let run = find_fd-node_with fuel fd s.head s.head cs s c short in
    let first = node_with fd s.cell cs in
    (
      (write_answer first, rw run refl, write_answer-MayWrite first),
      rw run (read_answer-MayRead first s),
    )
