-- ===== src/Release.antt =====
-- The release of locks: `release_locks_on_success` of TxFS_Mam/server/Lock_manager1.c,
-- `release_locks_on_abort` of TxFS_Mam/server/Lock_manager2.c, and `release_locks_by_backup` of
-- TxFS_Mam/server/backup_manager.c. `close` is tr_yaffs_close, tr_yaffs_close_abort or nothing, and
-- `before` what happens to a file's writes before: both are parameters. The results are the files
-- whose waiting threads are woken, in order.
pub mod Remove
pub mod Exclusive
pub mod Survive
pub mod Held
pub mod Loop
pub mod Success
mod Tests
use backup_lfs.Base.{
  ℕ, zero, suc, Option, none, some, List, [], ◌∷◌, ◌++◌, Bool, true, false, ◌==◌, ◌&&◌, not,
  if◌then◌else◌, ltb, Code, pure, ◌>>=◌, ◌>>◌, get, out_of_fuel,
}
use backup_lfs.Base.Int.{ℤ, pos, ltb_ℤ, leb_ℤ, eqb_ℤ}
use backup_lfs.Header.{Ptr, null, FileLock, WaitNode, WriteRecord}
use backup_lfs.LockList.{Locks, load, modify, delete_file_list, unlink_shared}
use backup_lfs.WaitList.{search_wait_list}
use backup_lfs.Server.{Server, on_locks, load_txn, modify_txn}

-- `if (fd …) close(fd)`, with the test on the descriptor as a parameter.
unfoldable pub close_file :
    (closes : ℤ → Bool) (close : ℤ → Code Server (Unit {0})) (fd : ℤ) → Code Server (Unit {0})
close_file closes close fd = if closes fd then close fd else pure tt

-- Lines 570 to 659 of Lock_manager1.c, 73 to 123 of Lock_manager2.c and 191 to 231 of
-- backup_manager.c for one lock, with the node of the lock and that of the wait list.
unfoldable pub release_lock :
    (closes_idle closes : ℤ → Bool) (close : ℤ → Code Server (Unit {0})) (p : Ptr) (n : FileLock)
    → Option WaitNode
    → Code Server (List ℕ)
unfolding delete_file_list unlink_shared close_file
release_lock closes_idle closes close p n none = do
  close_file closes_idle close (n.fd)
  on_locks (delete_file_list p)
  pure []
release_lock closes_idle closes close p n (some w) =
    if n.file_mode == 0
    then if (n.next_shared_rec == null) && (n.prev_shared_rec == null)
      then (do
        close_file closes close (n.fd)
        on_locks (delete_file_list p)
        pure (n.file_inode ∷ []))
      else (do
        on_locks (unlink_shared p)
        close_file closes close (n.fd)
        on_locks (delete_file_list p)
        pure [])
    else (do
      close_file closes close (n.fd)
      on_locks (delete_file_list p)
      pure (n.file_inode ∷ []))

-- The loop over the locks of a transaction from `p` on. The `next_txn` of a node is read before the
-- node is freed, and the wait list before that.
unfoldable pub release_loop :
    (closes_idle closes : ℤ → Bool) (close : ℤ → Code Server (Unit {0}))
    (before : Ptr → Code Server (Unit {0}))
    → ℕ
    → Ptr
    → Code Server (List ℕ)
unfolding load search_wait_list release_lock
release_loop closes_idle closes close before zero p = λ _. out_of_fuel
release_loop closes_idle closes close before (suc k) p = if p == null then pure [] else do
  before p
  n ← on_locks (load p)
  s ← get
  woken ← release_lock closes_idle closes close p n (search_wait_list (n.file_inode) (s.waits))
  rest ← release_loop closes_idle closes close before k (n.next_txn)
  pure (woken ++ rest)

-- The transaction's list is taken from its node before the loop.
unfoldable pub release_locks :
    (closes_idle closes : ℤ → Bool) (close : ℤ → Code Server (Unit {0}))
    (before : Ptr → Code Server (Unit {0})) (fuel txnid : ℕ)
    → Code Server (List ℕ)
unfolding load_txn modify_txn release_loop
release_locks closes_idle closes close before fuel txnid = do
  t ← load_txn txnid
  modify_txn txnid (λ u. record u { file_rec_no = null })
  release_loop closes_idle closes close before fuel (t.file_rec_no)

-- The first record says which of the two applies them all.
abbrev pub apply_all :
    (delayed_update delayed_write : Ptr → Code Server (Unit {0}))
    → Ptr
    → List WriteRecord
    → Code Server (Unit {0})
apply_all delayed_update delayed_write p [] = pure tt
apply_all delayed_update delayed_write p (w ∷ ws) =
    if ltb_ℤ w.write_length (pos 0) then delayed_update p else delayed_write p

-- The writes of a file that was opened to write are applied first.
unfoldable pub apply_writes :
    (delayed_update delayed_write : Ptr → Code Server (Unit {0})) → Ptr → Code Server (Unit {0})
unfolding load
apply_writes delayed_update delayed_write p = do
  n ← on_locks (load p)
  if n.flags == 0 then pure tt else apply_all delayed_update delayed_write p (n.writes_at)

unfoldable pub release_locks_on_success :
    (delayed_update delayed_write : Ptr → Code Server (Unit {0}))
    (tr_yaffs_close : ℤ → Code Server (Unit {0})) (fuel txnid : ℕ)
    → Code Server (List ℕ)
unfolding apply_writes release_locks
release_locks_on_success delayed_update delayed_write tr_yaffs_close fuel txnid =
    release_locks (λ fd. ltb_ℤ (pos 0) fd) (λ fd. not (eqb_ℤ fd (pos 0))) tr_yaffs_close
      (apply_writes delayed_update delayed_write) fuel txnid

-- The records of the writes are freed with `free_write_at`; they are a list of the node here, which
-- is freed with it.
unfoldable pub release_locks_on_abort :
    (tr_yaffs_close_abort : ℤ → Code Server (Unit {0})) (fuel txnid : ℕ) → Code Server (List ℕ)
unfolding release_locks
release_locks_on_abort tr_yaffs_close_abort fuel txnid =
    release_locks (λ fd. leb_ℤ (pos 0) fd) (λ fd. leb_ℤ (pos 0) fd) tr_yaffs_close_abort
      (λ p. pure tt) fuel txnid

-- `while(txn_id_file_list->file_inode != f_inode)`, with the node before.
unfoldable pub find_own_lock : ℕ → ℕ → (foll p : Ptr) → Code Locks (Ptr × Ptr)
unfolding load
find_own_lock zero f_inode foll p = λ _. out_of_fuel
find_own_lock (suc k) f_inode foll p = do
  n ← load p
  if n.file_inode == f_inode then pure (foll, p) else find_own_lock k f_inode p (n.next_txn)

unfoldable pub release_locks_by_backup : (fuel txnid f_inode : ℕ) → Code Server (List ℕ)
unfolding load_txn modify_txn find_own_lock load modify search_wait_list release_lock
release_locks_by_backup fuel txnid f_inode = do
  t ← load_txn txnid
  (foll, p) ← on_locks (find_own_lock fuel f_inode null (t.file_rec_no))
  n ← on_locks (load p)
  if foll == null
      then modify_txn txnid (λ u. record u { file_rec_no = n.next_txn })
      else on_locks (modify foll (λ m. record m { next_txn = n.next_txn }))
  s ← get
  release_lock (λ fd. false) (λ fd. false) (λ fd. pure tt) p n
      (search_wait_list (n.file_inode) (s.waits))
