-- ===== src/LockList.antt =====
-- The list of locked files of TxFS_Mam/server/Lock_manager1.c, on an explicit heap of
-- `struct file_lock` nodes. The loops run on fuel.
pub mod Frame
pub mod Chain
pub mod Search
pub mod Place
pub mod Splice
pub mod Insert
pub mod Delete
pub mod Shared
pub mod Join
pub mod Leave
mod Tests
use backup_lfs.Base.{
  ℕ, zero, suc, Option, none, some, [], ltb, leb, ◌==◌, if◌then◌else◌, not, ◌&&◌, fault,
  out_of_fuel, Code, pure, ◌>>=◌, ◌>>◌, get, put, crash, or_fault,
}
use backup_lfs.Base.Int.{ℤ, minus_one}
use backup_lfs.Header.{Ptr, null, FileLock}

-- The nodes that are allocated, and `head_lock_list`.
pub record Locks : Type 0 where
  pub cell : Ptr → Option FileLock
  pub head : Ptr

abbrev pub update : (Ptr → Option FileLock) → Ptr → Option FileLock → Ptr → Option FileLock
update f p v q = if p == q then v else f q

abbrev pub write : Locks → Ptr → Option FileLock → Locks
write s p v = record s { cell = update s.cell p v }

-- `*p`
unfoldable pub load : Ptr → Code Locks FileLock
load p s = if p == null then fault else or_fault (s.cell p) s

-- `p->field = …`
unfoldable pub modify : Ptr → (FileLock → FileLock) → Code Locks (Unit {0})
unfolding load
modify p f = do n ← load p; s ← get; put (write s p (some (f n)))

-- `head_lock_list = p`
unfoldable pub set_head : Ptr → Code Locks (Unit {0})
set_head p = do s ← get; put (record s { head = p })

-- What `get_file_node` writes into the node that `malloc` returned.
abbrev pub file_node : (f_inode : ℕ) (f_length : ℤ) (f_flags txnid : ℕ) → FileLock
file_node f_inode f_length f_flags txnid = record {
  file_inode = f_inode;
  file_mode = if f_flags == 0 then 0 else 1;
  fd = minus_one;
  file_offset = minus_one;
  file_size = f_length;
  flags = f_flags;
  parent_txn = txnid;
  next_txn = null;
  prev_shared_rec = null;
  next_shared_rec = null;
  next = null;
  prev = null;
  writes_at = [];
}

-- `new` is what `malloc` returns; it is not tested, so writing through NULL is a fault.
unfoldable pub get_file_node :
    (new : Ptr) (f_inode : ℕ) (f_length : ℤ) (f_flags txnid : ℕ) → Code Locks Ptr
get_file_node new f_inode f_length f_flags txnid =
    if new == null
    then crash
    else do s ← get; put (write s new (some (file_node f_inode f_length f_flags txnid))); pure new

-- The links are set to NULL before the node is freed, and are gone with it.
unfoldable pub free_file_node : Ptr → Code Locks (Unit {0})
unfolding load
free_file_node p = do n ← load p; s ← get; put (write s p none)

-- The `while` of `search_file_list`.
unfoldable pub search_loop : ℕ → ℕ → (foll ptr : Ptr) → Code Locks (Ptr × Ptr)
search_loop zero f_inode foll ptr = λ _. out_of_fuel
search_loop (suc k) f_inode foll ptr = if ptr == null then pure (foll, ptr) else do
  n ← load ptr
  if leb f_inode n.file_inode then pure (foll, ptr) else search_loop k f_inode ptr n.next

-- What `search_file_list` makes of the two pointers that its loop ends with.
unfoldable pub search_result : ℕ → (foll ptr : Ptr) → Code Locks (ℕ × Ptr)
unfolding load
search_result f_inode foll ptr =
    if not (ptr == null)
    then (do
      n ← load ptr
      if n.file_inode == f_inode
          then pure (1, ptr)
          else do m ← load foll; pure (if m.file_inode == f_inode then (1, foll) else (0, foll)))
    else (do m ← load foll; pure (if m.file_inode == f_inode then (1, foll) else (0, foll)))

-- The result is 1 or 0, and what is stored in `*add_loc`.
unfoldable pub search_file_list : ℕ → ℕ → Code Locks (ℕ × Ptr)
unfolding search_loop search_result load
search_file_list fuel f_inode = do
  s ← get
  if s.head == null then pure (0, null) else do
    first ← load s.head
    (foll, ptr) ← search_loop fuel f_inode s.head first.next
    search_result f_inode foll ptr

unfoldable pub delete_file_list : Ptr → Code Locks (Unit {0})
unfolding load modify set_head free_file_node
delete_file_list p = do
  s ← get
  if s.head == p
      then (do
        n ← load p
        set_head n.next
        if not (n.next == null) then modify n.next (λ m. record m { prev = n.next }) else pure tt
        free_file_node p)
      else (do
        n ← load p
        if n.next == null
            then (do modify n.prev (λ m. record m { next = null }); free_file_node p)
            else (do
              modify n.prev (λ m. record m { next = n.next })
              modify n.next (λ m. record m { prev = n.prev })
              free_file_node p))

-- The `next` and `prev` links that put the node `new` behind `loc`.
unfoldable pub link_behind : (loc new : Ptr) → Code Locks (Unit {0})
unfolding load modify
link_behind loc new = do
  l ← load loc
  modify new (λ n. record n { next = l.next })
  if not (l.next == null) then modify l.next (λ n. record n { prev = new }) else pure tt
  modify loc (λ n. record n { next = new })
  modify new (λ n. record n { prev = loc })

-- The part of `insert_file_list` that links the new node of a file that nobody has locked.
unfoldable pub link_file_node : (f_inode : ℕ) (loc new : Ptr) → Code Locks (Unit {0})
unfolding load modify set_head
link_file_node f_inode loc new =
    if loc == null then (do set_head new; modify new (λ n. record n { prev = new })) else (do
      s ← get
      l ← load loc
      if (loc == s.head) && ltb f_inode l.file_inode
          then (do
            modify new (λ n. record n { next = loc })
            modify loc (λ n. record n { prev = new })
            modify new (λ n. record n { prev = new })
            set_head new)
          else link_behind loc new)

-- `while(ptr->next_shared_rec!=NULL) ptr = ptr->next_shared_rec;`
unfoldable pub last_shared : ℕ → Ptr → Code Locks Ptr
last_shared zero ptr = λ _. out_of_fuel
last_shared (suc k) ptr = do
  n ← load ptr
  if n.next_shared_rec == null then pure ptr else last_shared k n.next_shared_rec

-- The part of `insert_file_list` that adds a shared lock behind the last one on the file.
unfoldable pub link_shared_at : (ptr new : Ptr) → Code Locks (Unit {0})
unfolding load modify
link_shared_at ptr new = do
  link_behind ptr new
  modify new (λ n. record n { prev_shared_rec = ptr })
  modify ptr (λ n. record n { next_shared_rec = new })

unfoldable pub link_shared_node : ℕ → (loc new : Ptr) → Code Locks (Unit {0})
link_shared_node fuel loc new = do ptr ← last_shared fuel loc; link_shared_at ptr new

-- The part of the release that takes a shared lock out of those on the file.
unfoldable pub unlink_shared : Ptr → Code Locks (Unit {0})
unfolding load modify
unlink_shared p = do
  n ← load p
  if (n.next_shared_rec == null) && not (n.prev_shared_rec == null)
      then modify n.prev_shared_rec (λ m. record m { next_shared_rec = null })
      else pure tt
  if (n.prev_shared_rec == null) && not (n.next_shared_rec == null)
      then modify n.next_shared_rec (λ m. record m { prev_shared_rec = null })
      else pure tt
  if not (n.next_shared_rec == null) && not (n.prev_shared_rec == null)
      then (do
        modify n.prev_shared_rec (λ m. record m { next_shared_rec = n.next_shared_rec })
        modify n.next_shared_rec (λ m. record m { prev_shared_rec = n.prev_shared_rec }))
      else pure tt
