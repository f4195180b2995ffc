-- ===== src/Backup.antt =====
-- The traversal of TxFS_Mam/server/backup_manager.c, and `on_bck_beg` of TxFS_Mam/server/TxFS_manager.c,
-- which runs it. The kernel's file system is a state `W` of its own, on which `Kernel` has the calls;
-- a round is cut where the lock of a file is waited for.
pub mod Idle
pub mod Order
pub mod Visits
pub mod Whole
mod Tests
use backup_lfs.Base.{
  ℕ, zero, suc, ◌+◌, ◌/◌, ◌%◌, Option, none, some, List, [], ◌∷◌, ◌++◌, Bool, true, false, not, ltb,
  ◌==◌, ◌||◌, length, if◌then◌else◌, Code, and_then, ok, pure, ◌>>=◌, ◌>>◌, get, put, crash,
  out_of_fuel,
}
use backup_lfs.Base.Int.{ℤ, pos}
use backup_lfs.Header.{Ptr, active, inactive}
use backup_lfs.LockList.{modify}
use backup_lfs.Server.{Server, on_locks}
use backup_lfs.Locking.{Outcome, granted, blocked, paused, aborted, resume}
use backup_lfs.Release.{release_locks_by_backup}
use backup_lfs.Log.{log_txn_beg, log_txn_end, get_prev_log_lrn}
use backup_lfs.Handlers.{insert_txn, delete_txn}

abbrev pub PathName : Type 0
PathName = List ℕ

-- What `stat` says; `sticky` is S_ISVTX.
pub record Stat : Type 0 where
  pub inode : ℕ
  pub is_dir : Bool
  pub is_reg : Bool
  pub sticky : Bool

-- The kernel: `readdir` gives all names of a directory, `chmod` sets or resets the sticky bit, `write`
-- adds to the backup file, and `copying` copies between two files of its own.
pub record Kernel (W : Type 0) : Type 0 where
  pub stat : PathName → W → Option Stat
  pub readdir : PathName → W → List PathName
  pub chmod : PathName → Bool → W → W
  pub write : List ℕ → W → W
  pub copying : W → W
  pub open_read : PathName → W → ℤ

-- The server, the kernel's state, the stack from the top down, and `read_indicate`. The offsets on the
-- stack, which are all -1, are left out.
pub record Traversal (W : Type 0) : Type 0 where
  pub server : Server
  pub disk : W
  pub stack : List PathName
  pub read_indicate : Bool

-- A visit has been finished, or waits for the lock of a path.
pub data Round : Type 0 where
  visited : Round
  waits : PathName → Stat → Round

unfoldable pub copy_inode_text : (decimal : ℕ → List ℕ) (inode : ℕ) → List ℕ
copy_inode_text decimal inode = 10 ∷ (decimal inode ++ 35 ∷ 35 ∷ [])

-- "copied contents of directory" and "Copying file".
abbrev pub directory_text : List ℕ
directory_text =
    99 ∷ 111 ∷ 112 ∷ 105 ∷ 101 ∷ 100 ∷ 32 ∷ 99 ∷ 111 ∷ 110 ∷ 116 ∷ 101 ∷ 110 ∷ 116 ∷ 115 ∷ 32 ∷ 111
    ∷ 102 ∷ 32 ∷ 100 ∷ 105 ∷ 114 ∷ 101 ∷ 99 ∷ 116 ∷ 111 ∷ 114 ∷ 121 ∷ []

abbrev pub file_text : List ℕ
file_text = 67 ∷ 111 ∷ 112 ∷ 121 ∷ 105 ∷ 110 ∷ 103 ∷ 32 ∷ 102 ∷ 105 ∷ 108 ∷ 101 ∷ []

abbrev pub starts_with_dot : PathName → Bool
starts_with_dot [] = false
starts_with_dot (c ∷ cs) = c == 46

abbrev pub is_empty : List PathName → Bool
is_empty [] = true
is_empty (_ ∷ _) = false

module _ (W : Type 0) (kernel : Kernel W) (decimal : ℕ → List ℕ) where
  abbrev pub on_server : {A : Type 0} → Code Server A → Code (Traversal W) A
  on_server c s = and_then (c s.server) (λ r. ok (r.0, record s { server = r.1 }))

  abbrev pub on_disk : (W → W) → Code (Traversal W) (Unit {0})
  on_disk f s = ok (tt, record s { disk = f s.disk })

  -- A string with the zero that ends it must fit into 300 bytes.
  abbrev pub fits : List ℕ → Code (Traversal W) (Unit {0})
  fits text = if ltb (length text) 300 then pure tt else crash

  -- `stack` has 200 entries, and the first is not used.
  unfoldable pub push : PathName → Code (Traversal W) (Unit {0})
  push path = do
    fits path
    s ← get
    if ltb (length s.stack + 1) 200 then put (record s { stack = path ∷ s.stack }) else crash

  -- Whether the file has been read already.
  unfoldable pub is_read : (path_buf : Stat) → Code (Traversal W) Bool
  is_read path_buf = do
    s ← get
    pure (if path_buf.sticky then s.read_indicate else not s.read_indicate)

  unfoldable pub copy_inode : (path_buf : Stat) → Code (Traversal W) (Unit {0})
  unfolding copy_inode_text
  copy_inode path_buf = on_disk (kernel.write (copy_inode_text decimal (path_buf.inode)))

  unfoldable pub copy_text : (text : List ℕ) → Code (Traversal W) (Unit {0})
  copy_text text = do fits text; on_disk (kernel.write text); on_disk (kernel.copying)

  unfoldable pub copy_directory : PathName → Code (Traversal W) (Unit {0})
  unfolding copy_text
  copy_directory path = copy_text (directory_text ++ path)

  unfoldable pub copy_file : PathName → Code (Traversal W) (Unit {0})
  unfolding copy_text
  copy_file path = copy_text (file_text ++ path)

  unfoldable pub mark_as_read : PathName → (path_buf : Stat) → Code (Traversal W) (Unit {0})
  mark_as_read path path_buf = on_disk (kernel.chmod path (not (path_buf.sticky)))

  -- The children in the order of the directory, so that the last is on top.
  unfoldable pub push_children :
      (path : PathName) (names : List PathName) → Code (Traversal W) (Unit {0})
  unfolding push
  push_children path [] = pure tt
  push_children path (name ∷ names) =
      let rest = push_children path names in
      if starts_with_dot name then rest else (do push (path ++ 47 ∷ name); rest)

  -- The lock is exclusive; the backup is transaction 0.
  unfoldable pub lock_path :
      (on_txn_abort : ℕ → Code Server ℤ) (fuel read_bit : ℕ) (new : Ptr) (path_buf : Stat)
      → Code (Traversal W) Outcome
  unfolding resume
  lock_path on_txn_abort fuel read_bit new path_buf =
      on_server (resume on_txn_abort fuel (path_buf.inode) 1 0 read_bit new)

  unfoldable pub visit_directory :
      (fuel : ℕ) (path : PathName) (path_buf : Stat) (inserted_pos : Ptr) → Code (Traversal W) Round
  unfolding copy_inode copy_directory mark_as_read push_children modify release_locks_by_backup
  visit_directory fuel path path_buf inserted_pos = do
    copy_inode path_buf
    on_server (on_locks (modify inserted_pos (λ n. record n { file_offset = pos 0 })))
    copy_directory path
    mark_as_read path path_buf
    s ← get
    push_children path (kernel.readdir path (s.disk))
    _ ← on_server (release_locks_by_backup fuel 0 (path_buf.inode))
    pure visited

  unfoldable pub visit_file :
      (fuel : ℕ) (path : PathName) (path_buf : Stat) (inserted_pos : Ptr) → Code (Traversal W) Round
  unfolding copy_inode copy_file mark_as_read modify release_locks_by_backup
  visit_file fuel path path_buf inserted_pos = do
    copy_inode path_buf
    s ← get
    on_server (
        on_locks (
          modify inserted_pos
            (λ n. record n { fd = kernel.open_read path (s.disk); file_offset = pos 0 })))
    copy_file path
    mark_as_read path path_buf
    _ ← on_server (release_locks_by_backup fuel 0 (path_buf.inode))
    pure visited

  -- What follows the request for a lock; NULL for an abort is followed.
  unfoldable pub visit_locked :
      (fuel : ℕ) (path : PathName) (path_buf : Stat) → Outcome → Code (Traversal W) Round
  unfolding visit_directory visit_file
  visit_locked fuel path path_buf (granted p) =
      if path_buf.is_dir
      then visit_directory fuel path path_buf p
      else visit_file fuel path path_buf p
  visit_locked fuel path path_buf blocked = pure (waits path path_buf)
  visit_locked fuel path path_buf paused = pure (waits path path_buf)
  visit_locked fuel path path_buf aborted = crash

  -- A path without a file is left out, as is what is neither a directory nor a regular file.
  unfoldable pub visit :
      (on_txn_abort : ℕ → Code Server ℤ) (fuel read_bit : ℕ) (new : Ptr) (path : PathName)
      → Option Stat
      → Code (Traversal W) Round
  unfolding lock_path visit_locked
  visit on_txn_abort fuel read_bit new path none = pure visited
  visit on_txn_abort fuel read_bit new path (some path_buf) =
      if path_buf.is_dir || path_buf.is_reg
      then (do
        outcome ← lock_path on_txn_abort fuel read_bit new path_buf
        visit_locked fuel path path_buf outcome)
      else pure visited

  abbrev pub pop_to :
      (PathName → Code (Traversal W) Round) → List PathName → Code (Traversal W) Round
  pop_to go [] = pure visited
  pop_to go (path ∷ paths) = do s ← get; put (record s { stack = paths }); go path

  -- One round of the loop, which ends where the stack is empty.
  unfoldable pub round :
      (on_txn_abort : ℕ → Code Server ℤ) (fuel read_bit : ℕ) (new : Ptr) → Code (Traversal W) Round
  unfolding visit
  round on_txn_abort fuel read_bit new = do
    s ← get
    pop_to (λ path. visit on_txn_abort fuel read_bit new path (kernel.stat path s.disk)) (s.stack)

  abbrev pub go_on : Round → Code (Traversal W) Round → Code (Traversal W) Round
  go_on visited rest = rest
  go_on (waits path path_buf) rest = pure (waits path path_buf)

  -- The loop, of at most so many rounds; `malloc` gives the node of each.
  unfoldable pub traverse :
      (on_txn_abort : ℕ → Code Server ℤ) (fuel read_bit : ℕ) (malloc : ℕ → Ptr) (rounds : ℕ)
      → Code (Traversal W) Round
  unfolding round
  traverse on_txn_abort fuel read_bit malloc zero = λ _. out_of_fuel
  traverse on_txn_abort fuel read_bit malloc (suc k) = do
    s ← get
    if is_empty (s.stack) then pure visited else (do
      r ← round on_txn_abort fuel read_bit (malloc k)
      go_on r (traverse on_txn_abort fuel read_bit malloc k))

  abbrev pub start_from : PathName → Option Stat → Code (Traversal W) (Unit {0})
  start_from path none = crash
  start_from path (some path_buf) = do
    s ← get
    put (record s { read_indicate = not path_buf.sticky })
    push path

  -- The part of `online_bck` before the loop. A root without a file leaves the mode without a value.
  unfoldable pub start : (path : PathName) → Code (Traversal W) (Unit {0})
  unfolding push
  start path = do s ← get; start_from path (kernel.stat path s.disk)

-- `on_bck_beg` before `online_bck`, and behind it.
unfoldable pub backup_begins : Code Server (Unit {0})
unfolding log_txn_beg insert_txn
backup_begins = do
  s ← get
  put (record s { backup = active })
  log_rec_no ← log_txn_beg 0
  insert_txn 0 log_rec_no

unfoldable pub backup_ends : Code Server (Unit {0})
unfolding get_prev_log_lrn delete_txn log_txn_end
backup_ends = do
  prev_lrn ← get_prev_log_lrn 0
  delete_txn 0
  _ ← log_txn_end 0 prev_lrn
  s ← get
  put (record s { backup = inactive })
