-- ===== src/Locking.antt =====
-- Requests for a lock: `insert_file_list` of TxFS_Mam/server/Lock_manager1.c, cut where the thread
-- sleeps or was paused, `resume` of TxFS_Mam/server/Lock_manager2.c, and what follows a sleep.
-- `read_bit` is never set in the source, since the code that reads it from the file is commented
-- out; it is a parameter. `new` is what `malloc` returns. The node of a request that is granted
-- nothing is freed, except where the source forgets it.
pub mod Frame
pub mod Same
pub mod Owned
pub mod Fresh
pub mod Grant
pub mod Answers
pub mod Request
mod Tests
use backup_lfs.Base.{
  ℕ, zero, suc, ◌+◌, Option, none, some, List, Bool, true, false, ◌==◌, ◌&&◌, ◌||◌, not,
  if◌then◌else◌, Code, pure, ◌>>=◌, ◌>>◌, get, out_of_fuel, put,
}
use backup_lfs.Base.Int.{ℤ, pos, minus_one, negsuc, eqb_ℤ}
use backup_lfs.Header.{Ptr, null, TxnNode, running, waiting, BckState, inactive, active, WaitNode}
use backup_lfs.LockList.{
  Locks, load, modify, get_file_node, free_file_node, search_file_list, link_file_node,
  link_shared_node,
}
use backup_lfs.WaitList.{search_wait_list, begin_wait_list, join_wait_list}
use backup_lfs.Server.{Server, on_locks, on_waits, load_txn, modify_txn, count_up}
use backup_lfs.Serial.{mutually_serializable}

-- `insert_file_list` returns a node, puts the thread to sleep, was paused and goes on with `resume`,
-- or returns NULL since the transaction has been aborted.
pub data Outcome : Type 0 where
  granted : Ptr → Outcome
  blocked paused aborted : Outcome

-- `while(ptr_file_node->next_txn!=NULL) ptr_file_node = ptr_file_node->next_txn;`
unfoldable pub last_of_txn : ℕ → Ptr → Code Locks Ptr
last_of_txn zero p = λ _. out_of_fuel
last_of_txn (suc k) p = do
  n ← load p
  if n.next_txn == null then pure p else last_of_txn k n.next_txn

unfoldable pub insert_same_txn_list :
    (fuel txnid read_bit : ℕ) (new_file_node : Ptr) → Code Server (Unit {0})
unfolding load_txn modify_txn last_of_txn modify load
insert_same_txn_list fuel txnid read_bit new_file_node = do
  t ← load_txn txnid
  if t.file_rec_no == null
      then modify_txn txnid (λ u. record u { file_rec_no = new_file_node; before_after = read_bit })
      else (do
        p ← on_locks (last_of_txn fuel t.file_rec_no)
        on_locks (modify p (λ n. record n { next_txn = new_file_node })))

unfoldable pub check_backup :
    (on_txn_abort : ℕ → Code Server ℤ) (txnid read_bit : ℕ) → BckState → Code Server ℤ
unfolding mutually_serializable
check_backup on_txn_abort txnid read_bit inactive = pure (pos 1)
check_backup on_txn_abort txnid read_bit active = mutually_serializable on_txn_abort txnid read_bit

-- The check before a file that nobody has locked; -2 for the backup itself.
unfoldable pub check_serializable :
    (on_txn_abort : ℕ → Code Server ℤ) (txnid read_bit : ℕ) → Code Server ℤ
unfolding check_backup
check_serializable on_txn_abort txnid read_bit = do
  s ← get
  if txnid == 0 then pure (negsuc 1) else check_backup on_txn_abort txnid read_bit (s.backup)

unfoldable pub lock_free_file :
    (on_txn_abort : ℕ → Code Server ℤ) (fuel f_inode txnid read_bit : ℕ) (loc new : Ptr)
    → Code Server Outcome
unfolding check_serializable link_file_node insert_same_txn_list free_file_node
lock_free_file on_txn_abort fuel f_inode txnid read_bit loc new = do
  ret_ms ← check_serializable on_txn_abort txnid read_bit
  if eqb_ℤ ret_ms (pos 1) || eqb_ℤ ret_ms (negsuc 1)
      then (do
        on_locks (link_file_node f_inode loc new)
        insert_same_txn_list fuel txnid read_bit new
        pure (granted new))
      else (do
        on_locks (free_file_node new)
        pure (if eqb_ℤ ret_ms (pos 0) then paused else aborted))

-- The check before a lock that joins the shared ones; `BACKUP` is not looked at.
unfoldable pub check_shared :
    (on_txn_abort : ℕ → Code Server ℤ) (txnid read_bit : ℕ) → Code Server ℤ
unfolding mutually_serializable
check_shared on_txn_abort txnid read_bit =
    if txnid == 0 then pure (negsuc 1) else mutually_serializable on_txn_abort txnid read_bit

-- A node that is not linked in is forgotten.
unfoldable pub join_shared :
    (on_txn_abort : ℕ → Code Server ℤ) (fuel txnid read_bit : ℕ) (loc new : Ptr)
    → Code Server Outcome
unfolding check_shared link_shared_node insert_same_txn_list
join_shared on_txn_abort fuel txnid read_bit loc new = do
  ret_ms ← check_shared on_txn_abort txnid read_bit
  if eqb_ℤ ret_ms (pos 1) || (txnid == 0)
      then (do
        on_locks (link_shared_node fuel loc new)
        insert_same_txn_list fuel txnid read_bit new
        pure (granted new))
      else pure (if eqb_ℤ ret_ms (pos 0) then paused else aborted)

unfoldable pub count_conflict : (txnid : ℕ) → Code Server (Unit {0})
unfolding count_up
count_conflict txnid =
    if txnid == 0
    then count_up (λ c. record c { tb_conflict = c.tb_conflict + 1 })
    else count_up (λ c. record c { u_conflict = c.u_conflict + 1 })

-- `insert_wait_list` where there is no wait node yet, otherwise `update_wait_list`.
unfoldable pub enter_waits : ℕ → Option WaitNode → List WaitNode → List WaitNode
unfolding begin_wait_list join_wait_list
enter_waits f_inode none ws = begin_wait_list f_inode ws
enter_waits f_inode (some w) ws = join_wait_list f_inode ws

-- Up to the sleep.
unfoldable pub block :
    (f_inode f_flags txnid : ℕ) (new : Ptr) → Option WaitNode → Code Server Outcome
unfolding modify_txn free_file_node enter_waits count_conflict
block f_inode f_flags txnid new loc_in_wait = do
  modify_txn txnid (λ t. record t {
    cur_state = waiting;
    waiting_for_inode = f_inode;
    wait_mode = if f_flags == 0 then pos 0 else pos 1;
  })
  on_locks (free_file_node new)
  s ← get
  on_waits (put (enter_waits f_inode loc_in_wait (s.waits)))
  count_conflict txnid
  pure blocked

-- `while(file_ptr->parent_txn != 0)`: whether the backup is among the shared locks.
unfoldable pub backup_among : ℕ → Ptr → Code Locks Bool
backup_among zero p = λ _. out_of_fuel
backup_among (suc k) p = do
  n ← load p
  if n.parent_txn == 0
      then pure true
      else if n.next_shared_rec == null
      then pure false
      else backup_among k n.next_shared_rec

-- The file is locked in shared mode by others.
unfoldable pub lock_shared_file :
    (on_txn_abort : ℕ → Code Server ℤ) (fuel f_inode f_flags txnid read_bit : ℕ) (loc new : Ptr)
    → Option WaitNode
    → Code Server Outcome
unfolding block join_shared backup_among
lock_shared_file on_txn_abort fuel f_inode f_flags txnid read_bit loc new none =
    if f_flags == 0
    then join_shared on_txn_abort fuel txnid read_bit loc new
    else block f_inode f_flags txnid new none
lock_shared_file on_txn_abort fuel f_inode f_flags txnid read_bit loc new (some w) = do
  among ← on_locks (backup_among fuel loc)
  if among && (f_flags == 0)
      then join_shared on_txn_abort fuel txnid read_bit loc new
      else block f_inode f_flags txnid new (some w)

-- The file is locked by another transaction, in the mode `file_mode`.
unfoldable pub lock_held_file :
    (on_txn_abort : ℕ → Code Server ℤ) (fuel f_inode f_flags txnid read_bit file_mode : ℕ)
    (loc new : Ptr)
    → Code Server Outcome
unfolding search_wait_list block lock_shared_file
lock_held_file on_txn_abort fuel f_inode f_flags txnid read_bit file_mode loc new = do
  s ← get
  if file_mode == 1
      then block f_inode f_flags txnid new (search_wait_list f_inode (s.waits))
      else lock_shared_file on_txn_abort fuel f_inode f_flags txnid read_bit loc new
          (search_wait_list f_inode (s.waits))

unfoldable pub insert_file_list :
    (on_txn_abort : ℕ → Code Server ℤ) (fuel f_inode f_flags txnid read_bit : ℕ) (new : Ptr)
    (search_ret : ℕ) (loc : Ptr)
    → Code Server Outcome
unfolding get_file_node load_txn lock_free_file load lock_held_file
insert_file_list on_txn_abort fuel f_inode f_flags txnid read_bit new search_ret loc = do
  _ ← on_locks (get_file_node new f_inode (pos 0) f_flags txnid)
  _ ← load_txn txnid
  if search_ret == 0 then lock_free_file on_txn_abort fuel f_inode txnid read_bit loc new else (do
    l ← on_locks (load loc)
    if l.parent_txn == txnid
        then pure (granted loc)
        else lock_held_file on_txn_abort fuel f_inode f_flags txnid read_bit (l.file_mode) loc new)

unfoldable pub resume :
    (on_txn_abort : ℕ → Code Server ℤ) (fuel f_inode f_flags txnid read_bit : ℕ) (new : Ptr)
    → Code Server Outcome
unfolding search_file_list insert_file_list
resume on_txn_abort fuel f_inode f_flags txnid read_bit new = do
  (search_ret, loc) ← on_locks (search_file_list fuel f_inode)
  insert_file_list on_txn_abort fuel f_inode f_flags txnid read_bit new search_ret loc

-- What follows a sleep that ends with 1, before `resume`.
unfoldable pub stop_waiting : (txnid : ℕ) → Code Server (Unit {0})
unfolding modify_txn
stop_waiting txnid =
    modify_txn txnid
      (λ t. record t { cur_state = running; waiting_for_inode = 0; wait_mode = minus_one })
