-- ===== src/Locking/Request.antt =====
-- A request for a lock as a whole.
use backup_lfs.Base.{
  ℕ, ◌≤◌, ◌≡◌, ◌≢◌, refl, pure, sym, ◌∙◌, ap, List, [], ◌∷◌, ◌++◌, true, none, some, ◌==◌,
  if◌then◌else◌, length, subst, ne→==, Bool-cases, inl, inr, Code, ◌>>=◌, ==→eq,
}
use backup_lfs.Base.Int.{ℤ, pos}
use backup_lfs.Header.{Ptr, null, TxnNode}
use backup_lfs.LockList.{write, load, file_node}
use backup_lfs.LockList.Chain.{Lock, lock_of, Cells, IsValid, IsNew}
use backup_lfs.LockList.Search.{
  holds, search_cells, search_file_list-search_cells, search_cells-holds,
}
use backup_lfs.LockList.Place.{place}
use backup_lfs.LockList.Join.{MemLock-split}
use backup_lfs.Server.{Server, on_locks, load_txn}
use backup_lfs.Locking.{Outcome, granted, lock_free_file, lock_held_file, insert_file_list, resume}
use backup_lfs.Locking.Same.{same-LastKept}
use backup_lfs.Locking.Owned.{Owns-Kept}
use backup_lfs.Locking.Fresh.{
  Linked-from, fresh-out, write_out-IsValid, write_fresh-Kept, get_file_node-IsNew,
}
use backup_lfs.Locking.Answers.{
  OwnLock, HasModes, HasModes-place, Answers, Answers-if, held-Answers,
}
use backup_lfs.Locking.Grant.{IsLetThrough, IsClient, lock_free_file-IsValid}

OwnLock-at :
    (f txnid : ℕ) (a : Ptr) (l : Lock) (pre post : Cells)
    → l.inode ≡ f
    → l.owner ≡ txnid
    → OwnLock f txnid a (pre ++ (a, l) ∷ post)
OwnLock-at f txnid a l [] post same mine = inl (refl, same, mine)
OwnLock-at f txnid a l (c ∷ pre) post same mine = inr (OwnLock-at f txnid a l pre post same mine)

module _ (on_txn_abort : ℕ → Code Server ℤ) (fuel f flags txnid read_bit : ℕ) where
  -- The part of `insert_file_list` behind the two walks.
  abbrev locked_file : (loc new : Ptr) → Code Server Outcome
  locked_file loc new = do
    l ← on_locks (load loc)
    if l.parent_txn == txnid
        then pure (granted loc)
        else lock_held_file on_txn_abort fuel f flags txnid read_bit (l.file_mode) loc new

  found-Answers :
      (s : Server) (t : TxnNode) (ps : List Ptr) (new loc : Ptr) (m : Lock) (pre post : Cells)
      → IsClient s txnid fuel t ps
      → IsLetThrough txnid read_bit t
      → IsNew s.locks new (file_node f (pos 0) flags txnid) f (pre ++ (loc, m) ∷ post)
      → IsValid s.locks (pre ++ (loc, m) ∷ post)
      → HasModes (pre ++ (loc, m) ∷ post)
      → m.inode ≡ f
      → length (pre ++ (loc, m) ∷ post) ≤ fuel
      → holds f (pre ++ (loc, m) ∷ post) ≡ true
      → Answers on_txn_abort fuel f flags txnid read_bit new
          (pre ++ (loc, m) ∷ post)
          (locked_file loc new)
          s
  unfolding load
  found-Answers s t ps new loc m pre post client pass new_one v modes same_file enough held =
      let (before, p, (n, e, ne, at, lk, bk, out, rest)) =
        Linked-from s.locks.cell s.locks.head s.locks.head loc m pre post v.linked in
      rw (ne→== loc null ne, at)
        (Answers-if on_txn_abort fuel f flags txnid read_bit new s (pre ++ (loc, m) ∷ post)
          (n.parent_txn == txnid) _ _
          (λ mine. (
            granted loc,
            s,
            pre ++ (loc, m) ∷ post,
            refl,
            v,
            modes,
            inr (
              refl,
              OwnLock-at f txnid loc m pre post same_file
                  (sym (ap (λ (l : Lock). l.owner) lk) ∙ ==→eq n.parent_txn txnid mine),
            ),
            (refl, same-LastKept s.txns),
          ))
          (λ others. rw (ap (λ (l : Lock). l.mode) lk) (
            held-Answers on_txn_abort fuel f flags txnid read_bit s t ps new loc m pre post client
              pass new_one v modes same_file enough held)))

  searched-Answers :
      (s : Server) (t : TxnNode) (ps : List Ptr) (new : Ptr) (cs : Cells)
      → IsClient s txnid fuel t ps
      → IsLetThrough txnid read_bit t
      → IsNew s.locks new (file_node f (pos 0) flags txnid) f cs
      → IsValid s.locks cs
      → HasModes cs
      → length cs ≤ fuel
      → Answers on_txn_abort fuel f flags txnid read_bit new cs
          (if (search_cells f cs).0 == 0
            then lock_free_file on_txn_abort fuel f txnid read_bit (search_cells f cs).1 new
            else locked_file (search_cells f cs).1 new)
          s
  searched-Answers s t ps new cs client pass new_one v modes enough =
      let (answer, mem) = search_cells-holds f cs v.ordered in
      elim (Bool-cases (holds f cs)) [
        | inl held ↦
            let loc = (search_cells f cs).1 in
            let (pre, m, post, e, same_file) = MemLock-split f loc cs (mem held) in
            rw (answer, held)
              (subst
                (λ ds.
                  Answers on_txn_abort fuel f flags txnid read_bit new ds (locked_file loc new) s)
                (sym e)
                (found-Answers s t ps new loc m pre post client pass
                  (subst (IsNew s.locks new (file_node f (pos 0) flags txnid) f) e new_one)
                  (subst (IsValid s.locks) e v) (subst HasModes e modes) same_file
                  (subst (λ ds. length ds ≤ fuel) e enough)
                  (subst (λ ds. holds f ds ≡ true) e held)))
        | inr free ↦
            let (s', run, v', same) =
              lock_free_file-IsValid on_txn_abort fuel f txnid read_bit s t ps new _ cs client pass
                new_one v free in
            rw (answer, free)
              (
                granted new,
                s',
                place (new, lock_of (file_node f (pos 0) flags txnid)) cs,
                run,
                v',
                HasModes-place f flags txnid new cs modes,
                inl (refl, refl),
                same,
              )
      ]

  -- A live transaction that the backup lets through asks for a file, with a fresh node and a round of
  -- fuel for each lock: the request ends without a fault. It puts a new lock in its place, finds a
  -- lock on the file that the transaction has already, or puts the transaction to sleep on a file
  -- that is locked; the last two leave the locks as they were. The list stays valid, so that two
  -- locks on one file are shared ones; the log and the last record of each live transaction are as
  -- before.
  pub resume-Answers :
      (s : Server) (t : TxnNode) (ps : List Ptr) (new : Ptr) (cs : Cells)
      → IsClient s txnid fuel t ps
      → IsLetThrough txnid read_bit t
      → new ≢ null
      → s.locks.cell new ≡ none
      → IsValid s.locks cs
      → HasModes cs
      → length cs ≤ fuel
      → Answers on_txn_abort fuel f flags txnid read_bit new cs
          (resume on_txn_abort fuel f flags txnid read_bit new)
          s
  unfolding resume insert_file_list load_txn
  resume-Answers s t ps new cs client pass ne fresh v modes enough =
      let n0 = file_node f (pos 0) flags txnid in
      let (made, new_one) = get_file_node-IsNew s.locks new f flags txnid cs ne fresh v in
      let s1 : Server = record s { locks = write s.locks new (some n0) } in
      let client1 : IsClient s1 txnid fuel t ps = record {
        live = client.live;
        owns =
            Owns-Kept s.locks s1.locks t.file_rec_no ps (write_fresh-Kept s.locks new n0 fresh)
              client.owns;
        enough = client.enough;
        room = client.room;
      } in
      let v1 =
        write_out-IsValid s.locks new (some n0) cs v
          (fresh-out s.locks.cell new s.locks.head s.locks.head cs v.linked fresh) in
      rw (search_file_list-search_cells s.locks f fuel cs v.linked enough, made, client.live)
        (searched-Answers s1 t ps new cs client1 pass new_one v1 modes enough)
