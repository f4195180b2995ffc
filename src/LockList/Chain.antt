-- ===== src/LockList/Chain.antt =====
-- The doubly linked list that starts at `head_lock_list`, as a sequence of addresses and locks.
use backup_lfs.Base.{
  ℕ, ◌<◌, ◌≡◌, ◌≢◌, refl, ◌∙◌, ◌⊎◌, Bool, true, false, ◌||◌, Option, some, List, [], ◌∷◌, ◌++◌,
  arith, ◌==◌, if◌then◌else◌, All, inl, inr,
}
use backup_lfs.Header.{Ptr, null, FileLock}
use backup_lfs.LockList.{Locks}

-- What a node says about the file: who holds it, and how.
pub record Lock : Type 0 where
  pub inode : ℕ
  pub mode : ℕ
  pub owner : ℕ

abbrev pub lock_of : FileLock → Lock
lock_of n = record { inode = n.file_inode; mode = n.file_mode; owner = n.parent_txn }

abbrev pub Cell : Type 0
Cell = Ptr × Lock

abbrev pub Cells : Type 0
Cells = List Cell

abbrev pub has : Ptr → Cells → Bool
has a [] = false
has a ((p, _) ∷ cs) = (p == a) || has a cs

-- From `p` the `next` pointers lead through the distinct nodes `cs` to NULL, and each `prev` goes
-- back; that of the first is `before`.
abbrev pub Linked : (Ptr → Option FileLock) → (before p : Ptr) → Cells → Type 0
Linked h before p [] = p ≡ null
Linked h before p ((a, l) ∷ cs) =
    (n : FileLock) × (p ≡ a)
    × (a ≢ null)
    × (h a ≡ some n)
    × (lock_of n ≡ l)
    × (n.prev ≡ before)
    × (has a cs ≡ false)
    × Linked h a n.next cs

-- The `prev` of the first node points to itself.
abbrev pub IsLockList : Locks → Cells → Type 0
IsLockList s cs = Linked s.cell s.head s.head cs

-- Two locks on one file are both shared; otherwise the inode numbers rise.
abbrev pub Compatible : Lock → Lock → Type 0
Compatible l m = (l.inode < m.inode) ⊎ ((l.inode ≡ m.inode) × (l.mode ≡ 0) × (m.mode ≡ 0))

abbrev pub IsOrdered : Cells → Type 0
IsOrdered [] = Unit
IsOrdered ((a, l) ∷ cs) = All (λ (c : Cell). Compatible l c.1) cs × IsOrdered cs

-- The next lock of the same file in the list.
abbrev pub next_of : Lock → Cells → Ptr
next_of l [] = null
next_of l ((b, m) ∷ cs) = if m.inode == l.inode then b else null

-- Each node's `next_shared_rec` is the next node of its file in the list, and NULL at the last.
abbrev pub Chained : (Ptr → Option FileLock) → Cells → Type 0
Chained h [] = Unit
Chained h ((a, l) ∷ cs) =
    ((n : FileLock) → h a ≡ some n → n.next_shared_rec ≡ next_of l cs) × Chained h cs

pub has-append : (a : Ptr) (xs ys : Cells) → has a (xs ++ ys) ≡ (has a xs || has a ys)
has-append a [] ys = refl
has-append a ((p, l) ∷ xs) ys = ground (arith, has-append a xs ys)

pub Linked-frame :
    {h g : Ptr → Option FileLock} (before p : Ptr) (cs : Cells)
    → Linked h before p cs
    → ((a : Ptr) → has a cs ≡ true → g a ≡ h a)
    → Linked g before p cs
Linked-frame before p [] e same = e
Linked-frame before p ((a, l) ∷ cs) (n, e, ne, at, lk, pv, out, rest) same = (
  n,
  e,
  ne,
  same a (ground arith) ∙ at,
  lk,
  pv,
  out,
  Linked-frame a n.next cs rest (λ b i. same b (ground arith)),
)

-- The first node takes another predecessor, and the others stay.
pub Linked-before :
    {h g : Ptr → Option FileLock} (before before' p : Ptr) (cs : Cells)
    → Linked h before p cs
    → ((n : FileLock) → p ≢ null → h p ≡ some n → g p ≡ some (record n { prev = before' }))
    → ((a : Ptr) → has a cs ≡ true → a ≢ p → g a ≡ h a)
    → Linked g before' p cs
Linked-before before before' p [] e at same = e
Linked-before before before' p ((a, l) ∷ cs) (n, e, ne, at, lk, pv, out, rest) at' same = (
  record n { prev = before' },
  e,
  ne,
  ground (arith, at' n),
  lk,
  refl,
  out,
  Linked-frame a n.next cs rest (λ b i. same b (ground arith) (ground arith)),
)

-- The list starts with its first node, or with NULL.
pub Linked-mem :
    (h : Ptr → Option FileLock) (before p : Ptr) (cs : Cells)
    → Linked h before p cs
    → (p ≡ null) ⊎ (has p cs ≡ true)
Linked-mem h before p [] e = inl e
Linked-mem h before p ((a, l) ∷ cs) c = inr (ground arith)

-- `Chained` looks at the nodes of the list only, and only at their shared links.
pub Chained-frame :
    {h g : Ptr → Option FileLock} (before p : Ptr) (cs : Cells)
    → Linked h before p cs
    → Chained h cs
    → ((a : Ptr) (n n' : FileLock)
        → has a cs ≡ true
        → h a ≡ some n
        → g a ≡ some n'
        → n'.next_shared_rec ≡ n.next_shared_rec)
    → Chained g cs
Chained-frame before p [] c ch same = tt
Chained-frame before p ((a, l) ∷ cs) (n, e, ne, at, lk, pv, out, rest) (here, ch) same = (
  λ n' at'. same a n n' (ground arith) at at' ∙ here n at,
  Chained-frame a n.next cs rest ch (λ b k k' i. same b k k' (ground arith)),
)

pub next_of-append :
    (k : Lock) (pre : Cells) (c : Cell) (xs ys : Cells)
    → next_of k (pre ++ c ∷ xs) ≡ next_of k (pre ++ c ∷ ys)
next_of-append k [] c xs ys = refl
next_of-append k (d ∷ pre) c xs ys = refl

-- The list as the operations keep it.
pub record IsValid (s : Locks) (cs : Cells) : Type 0 where
  pub linked : IsLockList s cs
  pub ordered : IsOrdered cs
  pub chained : Chained s.cell cs

-- A node that `get_file_node` has made for the file `f`, not yet in the list.
pub record IsNew (s : Locks) (new : Ptr) (n0 : FileLock) (f : ℕ) (cs : Cells) : Type 0 where
  pub ne : new ≢ null
  pub at : s.cell new ≡ some n0
  pub inode : n0.file_inode ≡ f
  pub last : n0.next ≡ null
  pub alone : n0.next_shared_rec ≡ null
  pub out : has new cs ≡ false
