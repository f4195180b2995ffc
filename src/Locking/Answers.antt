-- ===== src/Locking/Answers.antt =====
-- A request for a file that is locked: it joins the shared locks or sleeps.
use backup_lfs.Base.{
  ℕ, ◌+◌, ◌≤◌, ◌≡◌, refl, sym, ◌⊎◌, Bool, List, [], ◌∷◌, ◌++◌, true, false, none, some, arith, ◌==◌,
  ◌&&◌, if◌then◌else◌, length, length-append, ok, subst, Bool-cases, inl, inr, All, Code, Option,
}
use backup_lfs.Base.Int.{ℤ, pos}
use backup_lfs.Header.{Ptr, FileLock, TxnNode, WaitNode, waiting}
use backup_lfs.Txn.{update_txn_node}
use backup_lfs.LockList.{write, file_node}
use backup_lfs.LockList.Chain.{Lock, lock_of, Cell, Cells, IsValid, IsNew}
use backup_lfs.LockList.Search.{holds}
use backup_lfs.LockList.Place.{place, All-place}
use backup_lfs.WaitList.{search_wait_list}
use backup_lfs.Server.{Server, modify_txn, count_up}
use backup_lfs.Locking.{
  Outcome, granted, blocked, enter_waits, count_conflict, block, lock_shared_file, join_shared,
  lock_held_file,
}
use backup_lfs.Locking.Same.{SameLog, LastKept, update_txn_node-LastKept}
use backup_lfs.Locking.Fresh.{
  Linked-from, Chained-from, write_out-IsValid, free_file_node-run, backup_in,
  backup_among-backup_in,
}
use backup_lfs.Locking.Grant.{IsLetThrough, IsClient, join_shared-IsValid}

-- The transaction's lock on the file stands at the address.
abbrev pub OwnLock : (f txnid : ℕ) → Ptr → Cells → Type 0
OwnLock f txnid a [] = ⊥
OwnLock f txnid a ((b, l) ∷ cs) =
    ((b ≡ a) × (l.inode ≡ f) × (l.owner ≡ txnid)) ⊎ OwnLock f txnid a cs

-- What a request leaves: a new lock in its place, a lock that the transaction had already, or a
-- transaction that sleeps; in the last two cases the locks are as before.
abbrev pub Leaves : (f flags txnid : ℕ) (new : Ptr) → Cells → Outcome → Cells → Type 0
Leaves f flags txnid new cs (granted p) cs' =
    ((p ≡ new) × (cs' ≡ place (new, lock_of (file_node f (pos 0) flags txnid)) cs))
    ⊎ ((cs' ≡ cs) × OwnLock f txnid p cs)
Leaves f flags txnid new cs blocked cs' = (cs' ≡ cs) × (holds f cs ≡ true)
Leaves f flags txnid new cs _ cs' = ⊥

count_conflict-locks :
    (txnid : ℕ) (s : Server)
    → (s' : Server) × (count_conflict txnid s ≡ ok (tt, s'))
      × (s'.locks ≡ s.locks)
      × (s'.txns ≡ s.txns)
      × (s'.event_log ≡ s.event_log)
unfolding count_conflict count_up
count_conflict-locks txnid s = elim (Bool-cases (txnid == 0)) [
  | inl backup ↦ (
    record s { counters = record (s.counters) { tb_conflict = s.counters.tb_conflict + 1 } },
    rw backup refl,
    refl,
    refl,
    refl,
  )
  | inr user ↦ (
    record s { counters = record (s.counters) { u_conflict = s.counters.u_conflict + 1 } },
    rw user refl,
    refl,
    refl,
    refl,
  )
]

block-IsValid :
    (f flags txnid : ℕ) (new : Ptr) (o : Option WaitNode) (s : Server) (n0 : FileLock) (cs : Cells)
    → IsNew s.locks new n0 f cs
    → IsValid s.locks cs
    → (s' : Server) × (block f flags txnid new o s ≡ ok (blocked, s'))
      × IsValid s'.locks cs
      × SameLog s s'
unfolding block modify_txn
block-IsValid f flags txnid new o s n0 cs new_one v =
    let freed = free_file_node-run s.locks new n0 new_one.ne new_one.at in
    let (s', counted, same, same_txns, same_log) = count_conflict-locks txnid (record s {
      txns =
          update_txn_node txnid
            (λ t. record t {
              cur_state = waiting;
              waiting_for_inode = f;
              wait_mode = if flags == 0 then pos 0 else pos 1;
            })
            s.txns;
      locks = write s.locks new none;
      waits = enter_waits f o s.waits;
    }) in
    (
      s',
      rw (freed, counted) refl,
      subst (λ l. IsValid l cs) (sym same) (write_out-IsValid s.locks new none cs v new_one.out),
      (
        same_log,
        subst (LastKept s.txns) (sym same_txns)
            (update_txn_node-LastKept txnid _ (λ t. (refl, refl)) s.txns),
      ),
    )

-- Every lock is shared or exclusive.
abbrev pub HasModes : Cells → Type 0
HasModes cs = All (λ (c : Cell). (c.1).mode ≤ 1) cs

pub HasModes-place :
    (f flags txnid : ℕ) (new : Ptr) (cs : Cells)
    → HasModes cs
    → HasModes (place (new, lock_of (file_node f (pos 0) flags txnid)) cs)
HasModes-place f flags txnid new cs all =
    All-place (λ (c : Cell). (c.1).mode ≤ 1) _ cs (ground arith) all

HasModes-at : (a : Ptr) (l : Lock) (pre post : Cells) → HasModes (pre ++ (a, l) ∷ post) → l.mode ≤ 1
HasModes-at a l [] post all = all.0
HasModes-at a l (c ∷ pre) post all = HasModes-at a l pre post all.1

and_right : (a b : Bool) → (a && b) ≡ true → b ≡ true
and_right true b e = e
and_right false b e = absurd cc

module _ (on_txn_abort : ℕ → Code Server ℤ) (fuel f flags txnid read_bit : ℕ) where
  -- What a request ends with: an outcome, and the locks that go with it.
  abbrev pub Answers : (new : Ptr) → Cells → Code Server Outcome → Server → Type 0
  Answers new cs c s =
      (o : Outcome) × (s' : Server) × (cs' : Cells) × (c s ≡ ok (o, s'))
      × IsValid s'.locks cs'
      × HasModes cs'
      × Leaves f flags txnid new cs o cs'
      × SameLog s s'

  pub Answers-if :
      (new : Ptr) (s : Server) (cs : Cells) (b : Bool) (c d : Code Server Outcome)
      → (b ≡ true → Answers new cs c s)
      → (b ≡ false → Answers new cs d s)
      → Answers new cs (if b then c else d) s
  Answers-if new s cs true c d x y = x refl
  Answers-if new s cs false c d x y = y refl

  abbrev pub request_node : FileLock
  request_node = file_node f (pos 0) flags txnid

  block-Answers :
      (new : Ptr) (o : Option WaitNode) (s : Server) (cs : Cells)
      → IsNew s.locks new request_node f cs
      → IsValid s.locks cs
      → HasModes cs
      → holds f cs ≡ true
      → Answers new cs (block f flags txnid new o) s
  block-Answers new o s cs new_one v modes held =
      let (s', run, v', same) = block-IsValid f flags txnid new o s request_node cs new_one v in
      (blocked, s', cs, run, v', modes, (refl, held), same)

  module _ (s : Server) (t : TxnNode) (ps : List Ptr) (new loc : Ptr) (m : Lock) (pre post : Cells)
      (client : IsClient s txnid fuel t ps) (pass : IsLetThrough txnid read_bit t)
      (new_one : IsNew s.locks new request_node f (pre ++ (loc, m) ∷ post))
      (v : IsValid s.locks (pre ++ (loc, m) ∷ post)) (modes : HasModes (pre ++ (loc, m) ∷ post))
      (same_file : m.inode ≡ f) (enough : length (pre ++ (loc, m) ∷ post) ≤ fuel)
      (held : holds f (pre ++ (loc, m) ∷ post) ≡ true) where
    join-Answers :
        m.mode ≡ 0
        → (flags == 0) ≡ true
        → Answers new
            (pre ++ (loc, m) ∷ post)
            (join_shared on_txn_abort fuel txnid read_bit loc new)
            s
    join-Answers shared reads =
        let (s', run, v', same) =
          join_shared-IsValid on_txn_abort fuel f txnid read_bit s t ps new request_node loc m pre
            post client pass new_one v same_file shared (rw reads refl) enough in
        (
          granted new,
          s',
          place (new, lock_of request_node) (pre ++ (loc, m) ∷ post),
          run,
          v',
          HasModes-place f flags txnid new (pre ++ (loc, m) ∷ post) modes,
          inl (refl, refl),
          same,
        )

    shared-Answers :
        (o : Option WaitNode)
        → m.mode ≡ 0
        → Answers new
            (pre ++ (loc, m) ∷ post)
            (lock_shared_file on_txn_abort fuel f flags txnid read_bit loc new o)
            s
    unfolding lock_shared_file
    shared-Answers none shared =
        Answers-if new s (pre ++ (loc, m) ∷ post) (flags == 0) _ _ (join-Answers shared)
          (λ writes. block-Answers new none s (pre ++ (loc, m) ∷ post) new_one v modes held)
    shared-Answers (some w) shared =
        let (before, p, here) =
          Linked-from s.locks.cell s.locks.head s.locks.head loc m pre post v.linked in
        let walk =
          backup_among-backup_in s.locks fuel before p loc m post here
            (Chained-from s.locks.cell loc m pre post v.chained)
            (omega (arith, enough, length-append pre ((loc, m) ∷ post))) in
        rw walk (
          Answers-if new s (pre ++ (loc, m) ∷ post) (backup_in m post && (flags == 0)) _ _
            (λ both. join-Answers shared (and_right (backup_in m post) (flags == 0) both))
            (λ sleeps. block-Answers new (some w) s (pre ++ (loc, m) ∷ post) new_one v modes held))

    pub held-Answers :
        Answers new
          (pre ++ (loc, m) ∷ post)
          (lock_held_file on_txn_abort fuel f flags txnid read_bit m.mode loc new)
          s
    unfolding lock_held_file
    held-Answers =
        Answers-if new s (pre ++ (loc, m) ∷ post) (m.mode == 1) _ _
          (λ exclusive.
            block-Answers new (search_wait_list f s.waits) s (pre ++ (loc, m) ∷ post) new_one v
              modes held)
          (λ other.
            shared-Answers (search_wait_list f s.waits)
              (ground (arith, other, HasModes-at loc m pre post modes)))
