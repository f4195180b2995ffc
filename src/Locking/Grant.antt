-- ===== src/Locking/Grant.antt =====
-- A lock is put into the list: on a file that nobody has locked, and beside the shared ones.
use backup_lfs.Base.{
  ℕ, suc, ◌≤◌, ◌≡◌, ◌≢◌, refl, ◌⊎◌, List, ◌∷◌, ◌++◌, true, false, some, arith, ◌==◌, ◌||◌, length,
  ok, eq→==, ne→==, inl, inr, Code,
}
use backup_lfs.Base.Int.{ℤ, pos, negsuc, eqb_ℤ}
use backup_lfs.Header.{Ptr, FileLock, TxnNode, BckState, inactive, active}
use backup_lfs.Txn.{find_txn}
use backup_lfs.LockList.{link_file_node, link_shared_node}
use backup_lfs.LockList.Chain.{Lock, lock_of, Cells, IsValid, IsNew}
use backup_lfs.LockList.Search.{holds, search_cells}
use backup_lfs.LockList.Place.{place}
use backup_lfs.LockList.Insert.{link_file_node-IsValid}
use backup_lfs.LockList.Join.{link_shared_node-IsValid}
use backup_lfs.Pause.{Pauses}
use backup_lfs.Server.{Server}
use backup_lfs.Serial.Verdict.{IsAdmissible, mutually_serializable-admits}
use backup_lfs.Locking.{
  granted, check_backup, check_serializable, check_shared, lock_free_file, join_shared,
}
use backup_lfs.LockList.Frame.{Keeps-run}
use backup_lfs.Locking.Frame.{link_file_node-Keeps, link_shared_node-Keeps}
use backup_lfs.Locking.Same.{SameLog}
use backup_lfs.Locking.Owned.{Owns, Owns-Kept, insert_same_txn_list-IsValid}

-- The transaction is the backup, or on the same side of it as the file.
abbrev pub IsLetThrough : (txnid read_bit : ℕ) → TxnNode → Type 0
IsLetThrough txnid read_bit t = (txnid ≡ 0) ⊎ ((txnid ≢ 0) × IsAdmissible t read_bit)

-- The transaction's node in the list, its locks, and enough fuel.
pub record IsClient (s : Server) (txnid fuel : ℕ) (t : TxnNode) (ps : List Ptr) : Type 0 where
  pub live : find_txn txnid s.txns ≡ some t
  pub owns : Owns s.locks t.file_rec_no ps
  pub enough : length ps ≤ fuel
  pub room : suc s.pauses.index_pause_array ≤ length s.pauses.pause_array

module _ (on_txn_abort : ℕ → Code Server ℤ) (fuel f txnid read_bit : ℕ) where
  check_shared-passes :
      (s : Server) (t : TxnNode) (ps : List Ptr)
      → IsClient s txnid fuel t ps
      → IsLetThrough txnid read_bit t
      → (r : ℤ) × (p : Pauses) × (check_shared on_txn_abort txnid read_bit s
          ≡ ok (r, record s { pauses = p }))
        × ((eqb_ℤ r (pos 1) || (txnid == 0)) ≡ true)
        × ((eqb_ℤ r (pos 1) || eqb_ℤ r (negsuc 1)) ≡ true)
  unfolding check_shared
  check_shared-passes s t ps c (inl backup) =
      (negsuc 1, s.pauses, rw (eq→== txnid 0 backup) refl, ground (arith, backup), refl)
  check_shared-passes s t ps c (inr (user, fits)) =
      let (p, run, _) =
        mutually_serializable-admits on_txn_abort txnid read_bit s t c.live c.room fits in
      (pos 1, p, rw (ne→== txnid 0 user) run, refl, refl)

  check_backup-passes :
      (b : BckState) (s : Server) (t : TxnNode) (ps : List Ptr)
      → IsClient s txnid fuel t ps
      → IsAdmissible t read_bit
      → (p : Pauses) × (check_backup on_txn_abort txnid read_bit b s
          ≡ ok (pos 1, record s { pauses = p }))
  unfolding check_backup
  check_backup-passes inactive s t ps c fits = (s.pauses, refl)
  check_backup-passes active s t ps c fits =
      let (p, run, _) =
        mutually_serializable-admits on_txn_abort txnid read_bit s t c.live c.room fits in
      (p, run)

  check_serializable-passes :
      (s : Server) (t : TxnNode) (ps : List Ptr)
      → IsClient s txnid fuel t ps
      → IsLetThrough txnid read_bit t
      → (r : ℤ) × (p : Pauses) × (check_serializable on_txn_abort txnid read_bit s
          ≡ ok (r, record s { pauses = p }))
        × ((eqb_ℤ r (pos 1) || eqb_ℤ r (negsuc 1)) ≡ true)
  unfolding check_serializable
  check_serializable-passes s t ps c (inl backup) =
      (negsuc 1, s.pauses, rw (eq→== txnid 0 backup) refl, refl)
  check_serializable-passes s t ps c (inr (user, fits)) =
      let (p, run) = check_backup-passes s.backup s t ps c fits in
      (pos 1, p, rw (ne→== txnid 0 user, run) refl, refl)

  pub lock_free_file-IsValid :
      (s : Server) (t : TxnNode) (ps : List Ptr) (new : Ptr) (n0 : FileLock) (cs : Cells)
      → IsClient s txnid fuel t ps
      → IsLetThrough txnid read_bit t
      → IsNew s.locks new n0 f cs
      → IsValid s.locks cs
      → holds f cs ≡ false
      → (s' : Server) × (lock_free_file on_txn_abort fuel f txnid read_bit
            (search_cells f cs).1
            new
            s
          ≡ ok (granted new, s'))
        × IsValid s'.locks (place (new, lock_of n0) cs)
        × SameLog s s'
  unfolding lock_free_file
  lock_free_file-IsValid s t ps new n0 cs c pass new_one v free =
      let (r, p, checked, yes_go) = check_serializable-passes s t ps c pass in
      let (l', linked, v') = link_file_node-IsValid s.locks f new n0 cs new_one v free in
      let kept =
        Keeps-run (link_file_node f (search_cells f cs).1 new) tt s.locks l'
          (link_file_node-Keeps f (search_cells f cs).1 new) linked in
      let (s', inserted, v'', same) =
        insert_same_txn_list-IsValid fuel txnid read_bit new (record s { pauses = p; locks = l' }) t
          ps (place (new, lock_of n0) cs) c.live (Owns-Kept s.locks l' t.file_rec_no ps kept c.owns)
          c.enough v' in
      (s', rw (checked, yes_go, linked, inserted) refl, v'', same)

  pub join_shared-IsValid :
      (s : Server) (t : TxnNode) (ps : List Ptr) (new : Ptr) (n0 : FileLock) (loc : Ptr) (m : Lock)
      (pre post : Cells)
      → IsClient s txnid fuel t ps
      → IsLetThrough txnid read_bit t
      → IsNew s.locks new n0 f (pre ++ (loc, m) ∷ post)
      → IsValid s.locks (pre ++ (loc, m) ∷ post)
      → m.inode ≡ f
      → m.mode ≡ 0
      → n0.file_mode ≡ 0
      → length (pre ++ (loc, m) ∷ post) ≤ fuel
      → (s' : Server) × (join_shared on_txn_abort fuel txnid read_bit loc new s
          ≡ ok (granted new, s'))
        × IsValid s'.locks (place (new, lock_of n0) (pre ++ (loc, m) ∷ post))
        × SameLog s s'
  unfolding join_shared
  join_shared-IsValid s t ps new n0 loc m pre post c pass new_one v i z z' enough =
      let (r, p, checked, yes_go, _) = check_shared-passes s t ps c pass in
      let (l', linked, v') =
        link_shared_node-IsValid s.locks fuel f new n0 loc m pre post new_one v i z z' enough in
      let kept =
        Keeps-run (link_shared_node fuel loc new) tt s.locks l'
          (link_shared_node-Keeps fuel loc new) linked in
      let (s', inserted, v'', same) =
        insert_same_txn_list-IsValid fuel txnid read_bit new (record s { pauses = p; locks = l' }) t
          ps (place (new, lock_of n0) (pre ++ (loc, m) ∷ post)) c.live
          (Owns-Kept s.locks l' t.file_rec_no ps kept c.owns) c.enough v' in
      (s', rw (checked, yes_go, linked, inserted) refl, v'', same)
