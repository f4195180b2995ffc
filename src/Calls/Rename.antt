-- ===== src/Calls/Rename.antt =====
-- `on_rename` and `lock_subtree` of TxFS_Mam/server/TxFS_manager.c. `oldpath` is what `dirname` leaves
-- of the old path.
use backup_lfs.Base.{
  ℕ, List, [], ◌∷◌, Bool, ◌==◌, not, ltb, length, ◌&&◌, crash, if◌then◌else◌, Code, pure, ◌>>=◌,
  ◌>>◌, or_fault,
}
use backup_lfs.Base.Int.{pos, minus_one}
use backup_lfs.Header.{Ptr, null}
use backup_lfs.LockList.{search_file_list}
use backup_lfs.Server.{Server, on_locks}
use backup_lfs.Locking.{Outcome, granted, blocked, paused, aborted, insert_file_list}
use backup_lfs.Handlers.{on_txn_abort}
use backup_lfs.Update.{rename_log}
use backup_lfs.Calls.{
  Outside, Progress, finished, suspended, same_text, set_fd, then_locked, fail, lock_file,
}

-- An entry that `fts_read` gives below the root, with the node for its lock; `hidden` where its name
-- begins with a dot. The test `fts_info && FTS_F` holds for all of them.
pub record Fts : Type 0 where
  pub hidden : Bool
  pub new : Ptr

-- What a subtree leaves to the rename.
pub data Subtree : Type 0 where
  locked : Subtree
  stopped : Progress → Subtree

-- A lock that the transaction had already keeps its descriptor.
unfoldable pub set_fd_unless : (loc inserted_pos : Ptr) → Code Server (Unit {0})
unfolding set_fd
set_fd_unless loc inserted_pos =
    if inserted_pos == loc then pure tt else on_locks (set_fd inserted_pos (pos 0))

module _ (o : Outside) (fuel txnid : ℕ) where
  -- One lock of a subtree: the inode is that of `path` itself each time.
  unfoldable pub lock_entry : (path : List ℕ) (new : Ptr) → Code Server Outcome
  unfolding lock_file
  lock_entry path new = do
    buff_subtree ← (o.stat) path
    (inode_subtree, _) ← or_fault buff_subtree
    lock_file o fuel txnid inode_subtree 0 new

  abbrev pub subtree_then : Outcome → Code Server Subtree → Code Server Subtree
  subtree_then (granted p) rest = do on_locks (set_fd p (pos 0)); rest
  subtree_then blocked rest = pure (stopped suspended)
  subtree_then paused rest = pure (stopped suspended)
  subtree_then aborted rest = pure (stopped (finished minus_one))

  unfoldable pub lock_subtree : (path : List ℕ) → List Fts → Code Server Subtree
  unfolding lock_entry set_fd
  lock_subtree path [] = pure locked
  lock_subtree path (node ∷ nodes) =
      let rest = lock_subtree path nodes in
      if node.hidden
      then rest
      else (do outcome ← lock_entry path (node.new); subtree_then outcome rest)

  abbrev pub rename_if_locked :
      (path newpath : List ℕ) (inserted_pos_old inserted_pos_new : Ptr)
      → Subtree
      → Code Server Progress
  rename_if_locked path newpath inserted_pos_old inserted_pos_new locked = do
    rename_log path newpath inserted_pos_old inserted_pos_new txnid
    pure (finished (pos 1))
  rename_if_locked path newpath inserted_pos_old inserted_pos_new (stopped progress) = pure progress

  -- The file to be moved is locked.
  unfoldable pub on_rename_moved :
      (path newpath oldpath : List ℕ) (is_dir : Bool) (tree : List Fts)
      (inserted_pos_old inserted_pos_new inserted_pos_mov : Ptr)
      → Code Server Progress
  unfolding set_fd lock_subtree rename_log
  on_rename_moved path newpath oldpath is_dir tree inserted_pos_old inserted_pos_new
        inserted_pos_mov =
      do
        on_locks (set_fd inserted_pos_mov (pos 0))
        below ← if is_dir then lock_subtree oldpath tree else pure locked
        rename_if_locked path newpath inserted_pos_old inserted_pos_new below

  -- Both directories are locked.
  unfoldable pub on_rename_both :
      (path newpath oldpath : List ℕ) (tree : List Fts)
      (new_mov inserted_pos_old inserted_pos_new : Ptr)
      → Code Server Progress
  unfolding lock_file on_rename_moved
  on_rename_both path newpath oldpath tree new_mov inserted_pos_old inserted_pos_new = do
    buff_mov ← (o.stat) path
    (inode_mov, is_dir) ← or_fault buff_mov
    outcome ← lock_file o fuel txnid inode_mov 2 new_mov
    then_locked outcome
        (on_rename_moved path newpath oldpath is_dir tree inserted_pos_old inserted_pos_new)

  -- The new directory is locked.
  unfoldable pub on_rename_new :
      (path newpath oldpath : List ℕ) (tree : List Fts)
      (new_mov inserted_pos_old loc_new inserted_pos_new : Ptr)
      → Code Server Progress
  unfolding set_fd_unless on_rename_both
  on_rename_new path newpath oldpath tree new_mov inserted_pos_old loc_new inserted_pos_new = do
    set_fd_unless loc_new inserted_pos_new
    on_rename_both path newpath oldpath tree new_mov inserted_pos_old inserted_pos_new

  -- The old directory is locked.
  unfoldable pub on_rename_old :
      (path newpath : List ℕ) (tree : List Fts) (new_new new_mov loc_old inserted_pos_old : Ptr)
      → Code Server Progress
  unfolding search_file_list insert_file_list set_fd_unless on_rename_new on_rename_both same_text
  on_rename_old path newpath tree new_new new_mov loc_old inserted_pos_old = do
    set_fd_unless loc_old inserted_pos_old
    let oldpath_parent = (o.dirname path).0
    let newpath_parent = (o.dirname newpath).0
    let oldpath = (o.dirname path).1
    if same_text oldpath_parent newpath_parent
        then on_rename_both path newpath oldpath tree new_mov inserted_pos_old null
        else (do
          buff_new ← (o.stat) newpath_parent
          (inode_new, _) ← or_fault buff_new
          (search_ret_new, loc_new) ← on_locks (search_file_list fuel inode_new)
          outcome ←
              insert_file_list (on_txn_abort (o.tr_yaffs_close_abort) fuel) fuel inode_new 2 txnid
                (o.read_bit) new_new search_ret_new loc_new
          then_locked outcome
              (on_rename_new path newpath oldpath tree new_mov inserted_pos_old loc_new))

  unfoldable pub on_rename :
      (path newpath : List ℕ) (tree : List Fts) (new_old new_new new_mov : Ptr)
      → Code Server Progress
  unfolding fail search_file_list insert_file_list on_rename_old
  on_rename path newpath tree new_old new_new new_mov =
      if not (ltb (length path) 255 && ltb (length newpath) 255) then crash else do
        there ← (o.access) path
        if not there then fail o fuel txnid else (do
          there ← (o.access) ((o.dirname newpath).0)
          if not there then fail o fuel txnid else (do
            buff_old ← (o.stat) ((o.dirname path).0)
            (inode_old, _) ← or_fault buff_old
            (search_ret_old, loc_old) ← on_locks (search_file_list fuel inode_old)
            outcome ←
                insert_file_list (on_txn_abort (o.tr_yaffs_close_abort) fuel) fuel inode_old 2 txnid
                  (o.read_bit) new_old search_ret_old loc_old
            then_locked outcome (on_rename_old path newpath tree new_new new_mov loc_old)))
