-- ===== src/WaitList.antt =====
-- The list of files that transactions wait for, TxFS_Mam/server/Wait_list_manager.c. A file has at
-- most one node, so a thread's pointer to a node is the file's inode number here; following it where
-- the file has no node is a fault. `insert_wait_list` and `update_wait_list` are cut where they call
-- `pthread_cond_wait` or wait for a mutex: `begin_wait_list` and `join_wait_list` run up to the
-- sleep, `on_wake` from waking up to the next sleep or the end, `wait_for_others` under `wake_mutex`,
-- and `leave_to_abort` under `file_mutex` to the end.
pub mod Order
pub mod Waiters
pub mod Count
pub mod Safety
mod Tests
use backup_lfs.Base.{
  ℕ, suc, ◌+◌, ◌-◌, Option, none, some, List, [], ◌∷◌, Bool, true, false, ltb, ◌==◌, if◌then◌else◌,
  fault, Code, pure, ◌>>=◌, ◌>>◌, crash, get, put,
}
use backup_lfs.Header.{WaitNode}

unfoldable pub get_wait_node : (f_inode : ℕ) → WaitNode
get_wait_node f_inode = record {
  file_inode = f_inode;
  in_wait = 1;
  txnid_abort = none;
  woke_up = 0;
}

unfoldable pub search_wait_list : ℕ → List WaitNode → Option WaitNode
search_wait_list f_inode [] = none
search_wait_list f_inode (w ∷ ws) =
    if w.file_inode == f_inode then some w else search_wait_list f_inode ws

-- `wait_list_loc->field = …`
unfoldable pub update_wait_node : ℕ → (WaitNode → WaitNode) → List WaitNode → List WaitNode
update_wait_node f_inode g [] = []
update_wait_node f_inode g (w ∷ ws) =
    if w.file_inode == f_inode then g w ∷ ws else w ∷ update_wait_node f_inode g ws

-- The node taken out of the list and freed.
unfoldable pub remove_wait_node : ℕ → List WaitNode → List WaitNode
remove_wait_node f_inode [] = []
remove_wait_node f_inode (w ∷ ws) =
    if w.file_inode == f_inode then ws else w ∷ remove_wait_node f_inode ws

-- A count of 0 would become negative; it is a fault here.
unfoldable pub update_wait_list_on_wake : ℕ → Code (List WaitNode) (Unit {0})
unfolding search_wait_list update_wait_node remove_wait_node
update_wait_list_on_wake f_inode ws = elim (search_wait_list f_inode ws) [
  | none ↦ fault
  | some w ↦
      if w.in_wait == 0
      then fault
      else if w.in_wait == 1
      then put (remove_wait_node f_inode ws) ws
      else put (update_wait_node f_inode (λ v. record v { in_wait = v.in_wait - 1 }) ws) ws
]

-- Before the first node of a larger inode number.
unfoldable pub insert_wait_node : WaitNode → List WaitNode → List WaitNode
insert_wait_node new [] = new ∷ []
insert_wait_node new (w ∷ ws) =
    if ltb new.file_inode w.file_inode then new ∷ w ∷ ws else w ∷ insert_wait_node new ws

-- `insert_wait_list` up to the sleep.
unfoldable pub begin_wait_list : ℕ → List WaitNode → List WaitNode
unfolding insert_wait_node get_wait_node
begin_wait_list f_inode ws = insert_wait_node (get_wait_node f_inode) ws

-- `update_wait_list` up to the sleep.
unfoldable pub join_wait_list : ℕ → List WaitNode → List WaitNode
unfolding update_wait_node
join_wait_list f_inode ws = update_wait_node f_inode (λ v. record v { in_wait = v.in_wait + 1 }) ws

-- The two callers' choice between them.
unfoldable pub enter_wait_list : ℕ → List WaitNode → List WaitNode
unfolding search_wait_list begin_wait_list join_wait_list
enter_wait_list f_inode ws = elim (search_wait_list f_inode ws) [
  | none ↦ begin_wait_list f_inode ws
  | some w ↦ join_wait_list f_inode ws
]

-- What a thread that has woken up does: it sleeps again (and signals `wake_cond` or not), returns
-- 1 to resume, returns 0 after it has aborted, or lets the others go first.
pub data Wake : Type 0 where
  sleeps : (signals : Bool) → Wake
  resumes aborts holds_back : Wake

unfoldable pub on_wake : (f_inode txnid : ℕ) → Code (List WaitNode) Wake
unfolding search_wait_list update_wait_node update_wait_list_on_wake
on_wake f_inode txnid ws =
    let counted = update_wait_node f_inode (λ v. record v { woke_up = suc v.woke_up }) ws in
    let reset =
      update_wait_node f_inode (λ v. record v { woke_up = suc v.woke_up; txnid_abort = none }) ws in
    elim (search_wait_list f_inode ws) [
      | none ↦ fault
      | some w ↦ elim w.txnid_abort [
        | none ↦ (do update_wait_list_on_wake f_inode; pure resumes) ws
        | some v ↦
            if v == txnid
            then (if suc w.woke_up == w.in_wait
                then (do update_wait_list_on_wake f_inode; pure aborts) reset
                else pure holds_back counted)
            else pure (sleeps (suc w.woke_up == w.in_wait)) counted
      ]
    ]

-- `if (woke_up < in_wait)`, under `wake_mutex`: whether the thread waits for `wake_cond`.
unfoldable pub wait_for_others : (f_inode : ℕ) → Code (List WaitNode) Bool
unfolding search_wait_list
wait_for_others f_inode ws = elim (search_wait_list f_inode ws) [
  | none ↦ fault
  | some w ↦ pure (ltb w.woke_up w.in_wait) ws
]

-- The end of the abort; `on_txn_abort` follows it.
unfoldable pub leave_to_abort : (f_inode : ℕ) → Code (List WaitNode) (Unit {0})
unfolding search_wait_list update_wait_node update_wait_list_on_wake
leave_to_abort f_inode ws = elim (search_wait_list f_inode ws) [
  | none ↦ fault
  | some w ↦
      update_wait_list_on_wake f_inode
        (update_wait_node f_inode (λ v. record v { txnid_abort = none }) ws)
]

-- The part of `deadlock_detection` that names the transaction to abort. A missing node is reported
-- and then followed all the same.
unfoldable pub doom : (f_inode txnid : ℕ) → Code (List WaitNode) (Unit {0})
unfolding search_wait_list update_wait_node
doom f_inode txnid ws = elim (search_wait_list f_inode ws) [
  | none ↦ fault
  | some w ↦
      put (update_wait_node f_inode (λ v. record v { txnid_abort = some txnid; woke_up = 0 }) ws) ws
]
