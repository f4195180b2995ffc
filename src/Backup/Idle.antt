-- ===== src/Backup/Idle.antt =====
-- The backup alone on the server: it is given each lock, and gives it back.
use backup_lfs.Base.{
  ℕ, suc, ◌≡◌, ◌≢◌, refl, ◌∙◌, sym, some, none, [], ok, ==_self, eq→==, ne→==, ℕ_discrete, Code,
}
use backup_lfs.Base.Int.{ℤ, pos}
use backup_lfs.Header.{Ptr, null, FileLock, TxnNode}
use backup_lfs.Txn.{find_txn, update_txn_node}
use backup_lfs.Txn.Order.{update_txn_node-find}
use backup_lfs.LockList.{
  write, load, modify, set_head, file_node, get_file_node, free_file_node, search_file_list,
  link_file_node, delete_file_list,
}
use backup_lfs.WaitList.{search_wait_list}
use backup_lfs.Server.{Server, on_locks, load_txn, modify_txn}
use backup_lfs.Locking.{
  granted, resume, insert_file_list, lock_free_file, check_serializable, insert_same_txn_list,
}
use backup_lfs.Update.Runs.{load-run}
use backup_lfs.Release.{release_locks_by_backup, find_own_lock, release_lock}

-- Nobody has a lock or waits for one, and the backup is live.
pub record IsIdle (s : Server) : Type 0 where
  pub empty : s.locks.head ≡ null
  pub free : (a : Ptr) → s.locks.cell a ≡ none
  pub nobody : s.waits ≡ []
  pub client : TxnNode
  pub live : find_txn 0 s.txns ≡ some client
  pub lockless : client.file_rec_no ≡ null

-- The backup has the only lock, on the file `f`, at `p`.
pub record HoldsOne (f : ℕ) (p : Ptr) (s : Server) : Type 0 where
  pub ne : p ≢ null
  pub first : s.locks.head ≡ p
  pub node : FileLock
  pub at : s.locks.cell p ≡ some node
  pub inode : node.file_inode ≡ f
  pub alone : node.next ≡ null
  pub only : node.next_txn ≡ null
  pub others : (a : Ptr) → a ≢ p → s.locks.cell a ≡ none
  pub nobody : s.waits ≡ []
  pub client : TxnNode
  pub live : find_txn 0 s.txns ≡ some client
  pub owned : client.file_rec_no ≡ p

pub resume-HoldsOne :
    (on_txn_abort : ℕ → Code Server ℤ) (fuel f read_bit : ℕ) (new : Ptr) (s : Server)
    → new ≢ null
    → IsIdle s
    → (s' : Server) × (resume on_txn_abort fuel f 1 0 read_bit new s ≡ ok (granted new, s'))
      × HoldsOne f new s'
unfolding resume search_file_list insert_file_list get_file_node load_txn lock_free_file
    check_serializable link_file_node set_head modify load insert_same_txn_list modify_txn
resume-HoldsOne on_txn_abort fuel f read_bit new s ne idle =
    let n0 = file_node f (pos 0) 1 0 in
    let node = record n0 { prev = new } in
    let owner = λ (u : TxnNode). record u { file_rec_no = new; before_after = read_bit } in
    let l = write (record (write s.locks new (some n0)) { head = new }) new (some node) in
    let s' : Server = record s { locks = l; txns = update_txn_node 0 owner s.txns } in
    (
      s',
      rw
          (
            eq→== s.locks.head null idle.empty,
            ne→== new null ne,
            idle.live,
            ==_self new,
            insert_same_txn_list,
            idle.live,
            eq→== idle.client.file_rec_no null idle.lockless,
          )
          refl,
      record {
        ne = ne;
        first = refl;
        node = node;
        at = rw (==_self new) refl;
        inode = refl;
        alone = refl;
        only = refl;
        others = λ a other. rw (ne→== new a (λ e. other (sym e))) (idle.free a);
        nobody = idle.nobody;
        client = owner idle.client;
        live = update_txn_node-find 0 0 owner s.txns idle.client (λ u. refl) idle.live;
        owned = refl;
      },
    )

pub modify-HoldsOne :
    (f : ℕ) (p : Ptr) (g : FileLock → FileLock) (s : Server)
    → ((n : FileLock)
        → ((g n).file_inode ≡ n.file_inode) × ((g n).next ≡ n.next) × ((g n).next_txn ≡ n.next_txn))
    → HoldsOne f p s
    → (s' : Server) × (on_locks (modify p g) s ≡ ok (tt, s')) × HoldsOne f p s'
unfolding modify load
modify-HoldsOne f p g s keeps h =
    let (i, x, y) = keeps h.node in
    (
      record s { locks = write s.locks p (some (g h.node)) },
      rw (ne→== p null h.ne, h.at) refl,
      record {
        ne = h.ne;
        first = h.first;
        node = g h.node;
        at = rw (==_self p) refl;
        inode = i ∙ h.inode;
        alone = x ∙ h.alone;
        only = y ∙ h.only;
        others = λ a other. rw (ne→== p a (λ e. other (sym e))) (h.others a other);
        nobody = h.nobody;
        client = h.client;
        live = h.live;
        owned = h.owned;
      },
    )

pub release-IsIdle :
    (fuel f : ℕ) (p : Ptr) (s : Server)
    → HoldsOne f p s
    → (s' : Server) × (release_locks_by_backup (suc fuel) 0 f s ≡ ok ([], s')) × IsIdle s'
unfolding release_locks_by_backup load_txn modify_txn find_own_lock modify search_wait_list
    release_lock delete_file_list set_head free_file_node
release-IsIdle fuel f p s h =
    let loses = λ (u : TxnNode). record u { file_rec_no = h.node.next_txn } in
    let l = write (record (s.locks) { head = h.node.next }) p none in
    let here = load-run s.locks p h.node h.ne h.at in
    let s' : Server = record s { locks = l; txns = update_txn_node 0 loses s.txns } in
    (
      s',
      rw
          (
            h.live,
            h.owned,
            here,
            eq→== h.node.file_inode f h.inode,
            here,
            h.nobody,
            eq→== s.locks.head p h.first,
            here,
            eq→== h.node.next null h.alone,
            ne→== p null h.ne,
            h.at,
          )
          refl,
      record {
        empty = h.alone;
        free = λ a. elim (ℕ_discrete p a) [
          | yes same ↦ rw (eq→== p a same) refl
          | no other ↦ rw (ne→== p a other) (h.others a (λ e. other (sym e)))
        ];
        nobody = h.nobody;
        client = loses h.client;
        live = update_txn_node-find 0 0 loses s.txns h.client (λ u. refl) h.live;
        lockless = h.only;
      },
    )
