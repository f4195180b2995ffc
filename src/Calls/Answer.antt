-- ===== src/Calls/Answer.antt =====
-- The lock that a call goes on with.
use backup_lfs.Base.{
  ℕ, ◌≤◌, ◌≡◌, ◌≢◌, refl, sym, ◌∙◌, ap, subst, inl, inr, Option, none, some, List, [], ◌∷◌, length,
  ok, leb, Bool-cases,
}
use backup_lfs.Base.Int.{ℤ, pos}
use backup_lfs.Header.{Ptr, null, FileLock, TxnNode}
use backup_lfs.LockList.{Locks, write, file_node}
use backup_lfs.LockList.Chain.{lock_of, Cells, Linked, IsValid}
use backup_lfs.LockList.Place.{place}
use backup_lfs.Server.{Server}
use backup_lfs.Locking.{Outcome, granted, blocked, paused, aborted}
use backup_lfs.Locking.Same.{SameLog}
use backup_lfs.Locking.Owned.{written-IsValid}
use backup_lfs.Locking.Grant.{IsLetThrough, IsClient}
use backup_lfs.Locking.Answers.{OwnLock, HasModes, Leaves}
use backup_lfs.Locking.Request.{resume-Answers}
use backup_lfs.Handlers.{on_txn_abort}
use backup_lfs.Update.Runs.{modify-run}
use backup_lfs.Calls.{Outside, lock_file, set_fd}

OwnLock-place :
    (f flags txnid : ℕ) (new : Ptr) (cs : Cells)
    → OwnLock f txnid new (place (new, lock_of (file_node f (pos 0) flags txnid)) cs)
unfolding place
OwnLock-place f flags txnid new [] = inl (refl, refl, refl)
OwnLock-place f flags txnid new ((a, l) ∷ cs) = elim (Bool-cases (leb l.inode f)) [
  | inl behind ↦ rw behind (inr (OwnLock-place f flags txnid new cs))
  | inr before ↦ rw before (inl (refl, refl, refl))
]

-- The lock has a node.
OwnLock-node :
    (h : Ptr → Option FileLock) (before p : Ptr) (f txnid : ℕ) (q : Ptr) (cs : Cells)
    → Linked h before p cs
    → OwnLock f txnid q cs
    → (n : FileLock) × (q ≢ null) × (h q ≡ some n)
OwnLock-node h before p f txnid q [] c own = absurd own
OwnLock-node h before p f txnid q ((a, l) ∷ cs) (n, e, ne, at, lk, pv, out, rest)
      (inl (same, i, w)) =
    (n, λ z. ne (same ∙ z), ap h (sym same) ∙ at)
OwnLock-node h before p f txnid q ((a, l) ∷ cs) (n, e, ne, at, lk, pv, out, rest) (inr there) =
    OwnLock-node h a n.next f txnid q cs rest there

-- What the request of a call ends with: the transaction has a lock on the file, or it sleeps and the
-- locks are as before.
abbrev pub Held : (f txnid : ℕ) (cs cs' : Cells) → Outcome → Locks → Type 0
Held f txnid cs cs' (granted q) l =
    OwnLock f txnid q cs' × (n : FileLock) × (q ≢ null) × (l.cell q ≡ some n)
Held f txnid cs cs' blocked l = cs' ≡ cs
Held f txnid cs cs' _ l = ⊥

Leaves-Held :
    (f flags txnid : ℕ) (new : Ptr) (cs cs' : Cells) (o : Outcome) (l : Locks)
    → IsValid l cs'
    → Leaves f flags txnid new cs o cs'
    → Held f txnid cs cs' o l
Leaves-Held f flags txnid new cs cs' (granted q) l v (inl (fresh, placed)) =
    let own : OwnLock f txnid q cs' =
      subst (λ ds. OwnLock f txnid q ds) (sym placed)
        (subst (λ a. OwnLock f txnid a (place (new, lock_of (file_node f (pos 0) flags txnid)) cs))
          (sym fresh) (OwnLock-place f flags txnid new cs)) in
    let (n, ne, at) = OwnLock-node l.cell l.head l.head f txnid q cs' v.linked own in
    (own, n, ne, at)
Leaves-Held f flags txnid new cs cs' (granted q) l v (inr (same, own)) =
    let own' : OwnLock f txnid q cs' = subst (λ ds. OwnLock f txnid q ds) (sym same) own in
    let (n, ne, at) = OwnLock-node l.cell l.head l.head f txnid q cs' v.linked own' in
    (own', n, ne, at)
Leaves-Held f flags txnid new cs cs' blocked l v (same, busy) = same
Leaves-Held f flags txnid new cs cs' paused l v h = absurd h
Leaves-Held f flags txnid new cs cs' aborted l v h = absurd h

-- The client of a call, which may ask for a lock: what the theorem on a request needs.
pub record MayAsk (o : Outside) (fuel txnid : ℕ) (s : Server) (t : TxnNode) (ps : List Ptr)
    (new : Ptr) (cs : Cells) : Type 0 where
  pub client : IsClient s txnid fuel t ps
  pub pass : IsLetThrough txnid o.read_bit t
  pub ne : new ≢ null
  pub fresh : s.locks.cell new ≡ none
  pub valid : IsValid s.locks cs
  pub modes : HasModes cs
  pub enough : length cs ≤ fuel

pub lock_file-Held :
    (o : Outside) (fuel txnid f flags : ℕ) (s : Server) (t : TxnNode) (ps : List Ptr) (new : Ptr)
    (cs : Cells)
    → MayAsk o fuel txnid s t ps new cs
    → (r : Outcome) × (s' : Server) × (cs' : Cells) × (lock_file o fuel txnid f flags new s
        ≡ ok (r, s'))
      × IsValid s'.locks cs'
      × SameLog s s'
      × Held f txnid cs cs' r s'.locks
unfolding lock_file
lock_file-Held o fuel txnid f flags s t ps new cs may =
    let (r, s', cs', run, v, modes, leaves, same) =
      resume-Answers (on_txn_abort (o.tr_yaffs_close_abort) fuel) fuel f flags txnid o.read_bit s t
        ps new cs may.client may.pass may.ne may.fresh may.valid may.modes may.enough in
    (r, s', cs', run, v, same, Leaves-Held f flags txnid new cs cs' r s'.locks v leaves)

-- The descriptor is put into the lock, and the list stays valid.
pub set_fd-IsValid :
    (l : Locks) (p : Ptr) (n : FileLock) (fd : ℤ) (cs : Cells)
    → p ≢ null
    → l.cell p ≡ some n
    → IsValid l cs
    → (set_fd p fd l ≡ ok (tt, write l p (some (record n { fd = fd; file_offset = pos 0 }))))
      × IsValid (write l p (some (record n { fd = fd; file_offset = pos 0 }))) cs
unfolding set_fd
set_fd-IsValid l p n fd cs ne at v = (
  modify-run l p n _ ne at,
  written-IsValid l p n (record n { fd = fd; file_offset = pos 0 }) at (refl, refl, refl, refl) cs
      v,
)
