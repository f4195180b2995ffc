-- ===== src/Update.antt =====
-- The list of what a transaction has done to a file, and the log of it: the rest of
-- TxFS_Mam/server/Update_manager.c but for `do_read_old`. `lseek_end` is the call of `lseek` to the
-- end of a file, which is not the repository's. The server does not call `write_log` any more: its one
-- call, in `on_write`, is commented out, and a write goes to YAFFS at once.
pub mod Contiguous
pub mod Points
pub mod Runs
mod Tests
use backup_lfs.Base.{
  ℕ, zero, suc, Option, none, some, List, [], ◌∷◌, ◌++◌, ◌==◌, ◌||◌, if◌then◌else◌, Code, pure,
  ◌>>=◌, ◌>>◌, get, out_of_fuel,
}
use backup_lfs.Base.Int.{ℤ, pos, negsuc, minus_one, ◌+ℤ◌, ltb_ℤ, eqb_ℤ}
use backup_lfs.Header.{Ptr, null, FileLock, WriteRecord}
use backup_lfs.LockList.{Locks, load, modify}
use backup_lfs.Server.{Server, on_locks}
use backup_lfs.Log.{log_write}
use backup_lfs.Log.Paths.{log_rename, log_creat, log_unlink}

-- `while(ptr_file_node->fd != fd) ptr_file_node = ptr_file_node->next;`
unfoldable pub seek_fd : ℕ → ℤ → Ptr → Code Locks Ptr
unfolding load
seek_fd zero fd p = λ _. out_of_fuel
seek_fd (suc k) fd p = do n ← load p; if eqb_ℤ (n.fd) fd then pure p else seek_fd k fd (n.next)

-- The end of the last write.
abbrev pub end_of_writes : List WriteRecord → Option ℤ
end_of_writes [] = none
end_of_writes (w ∷ []) = some (w.initial_off +ℤ w.write_length)
end_of_writes (w ∷ v ∷ ws) = end_of_writes (v ∷ ws)

-- Where a write to a file that was opened to append goes.
abbrev pub append_offset : (lseek_end : ℤ → Code Server ℤ) (fd : ℤ) → Option ℤ → Code Server ℤ
append_offset lseek_end fd none = lseek_end fd
append_offset lseek_end fd (some offset) = pure offset

unfoldable pub write_offset :
    (lseek_end : ℤ → Code Server ℤ) (fd : ℤ) (n : FileLock) → Code Server ℤ
write_offset lseek_end fd n =
    if (n.flags == 3) || (n.flags == 4)
    then append_offset lseek_end fd (end_of_writes (n.writes_at))
    else pure (n.file_offset)

-- What is written into the node of the file: its offset, its size and the new record, with no `LRN`
-- yet.
abbrev pub noted_write : (offset : ℤ) (write_length : ℕ) → FileLock → FileLock
noted_write offset write_length n =
    let end = offset +ℤ pos write_length in
    record n {
      file_offset = end;
      file_size = if ltb_ℤ n.file_size end then end else n.file_size;
      writes_at =
          n.writes_at
          ++ record { initial_off = offset; write_length = pos write_length; lrn = pos 0 } ∷ [];
    }

-- `new_write_record->LRN = log_rec_no`, the record being the last.
abbrev pub set_last_lrn : ℤ → List WriteRecord → List WriteRecord
set_last_lrn lrn [] = []
set_last_lrn lrn (w ∷ []) = record w { lrn = lrn } ∷ []
set_last_lrn lrn (w ∷ v ∷ ws) = w ∷ set_last_lrn lrn (v ∷ ws)

unfoldable pub write_log :
    (lseek_end : ℤ → Code Server ℤ) (fuel : ℕ) (fd : ℤ) (text : List ℕ) (write_length txnid : ℕ)
    → Code Server ℤ
unfolding seek_fd write_offset load modify
write_log lseek_end fuel fd text write_length txnid = do
  s ← get
  p ← on_locks (seek_fd fuel fd (s.locks.head))
  n ← on_locks (load p)
  offset ← write_offset lseek_end fd n
  on_locks (modify p (noted_write offset write_length))
  log_rec_no ← log_write txnid fd offset write_length text
  on_locks (modify p (λ m. record m { writes_at = set_last_lrn log_rec_no (m.writes_at) }))
  pure (pos write_length)

-- `whence` is 0 for the start, 1 for the current offset and 2 for the end.
abbrev pub sought : (offset : ℤ) (whence : ℕ) → FileLock → FileLock
sought offset whence n =
    if whence == 0
    then record n { file_offset = offset }
    else if whence == 1
    then record n { file_offset = n.file_offset +ℤ offset }
    else if whence == 2
    then record n { file_offset = offset +ℤ n.file_size }
    else n

unfoldable pub update_on_lseek : (fuel : ℕ) (fd offset : ℤ) (whence : ℕ) → Code Locks ℤ
unfolding seek_fd load modify
update_on_lseek fuel fd offset whence = do
  s ← get
  p ← seek_fd fuel fd (s.head)
  modify p (sought offset whence)
  n ← load p
  pure (n.file_offset)

-- A record at the end of the list of a node; `code` says what was done.
unfoldable pub note_call : (p : Ptr) (code lrn : ℤ) → Code Locks (Unit {0})
unfolding modify
note_call p code lrn = modify p (λ n. record n {
  writes_at = n.writes_at ++ record { initial_off = pos 0; write_length = code; lrn = lrn } ∷ [];
})

-- -3 for both ends of a rename in one directory, otherwise -1 for the old and -2 for the new one.
unfoldable pub rename_log :
    (oldpath newpath : List ℕ) (inserted_pos_old inserted_pos_new : Ptr) (txnid : ℕ)
    → Code Server (Unit {0})
unfolding note_call
rename_log oldpath newpath inserted_pos_old inserted_pos_new txnid = do
  log_rec_no ← log_rename txnid oldpath newpath
  if inserted_pos_new == null
      then on_locks (note_call inserted_pos_old (negsuc 2) log_rec_no)
      else (do
        on_locks (note_call inserted_pos_old minus_one log_rec_no)
        on_locks (note_call inserted_pos_new (negsuc 1) log_rec_no))

unfoldable pub creat_log :
    (path mode : List ℕ) (inserted_pos : Ptr) (txnid : ℕ) → Code Server (Unit {0})
unfolding note_call
creat_log path mode inserted_pos txnid = do
  log_rec_no ← log_creat txnid path mode
  on_locks (note_call inserted_pos (negsuc 3) log_rec_no)

unfoldable pub unlink_log :
    (path : List ℕ) (inserted_pos_parent : Ptr) (txnid : ℕ) → Code Server (Unit {0})
unfolding note_call
unlink_log path inserted_pos_parent txnid = do
  log_rec_no ← log_unlink txnid path
  on_locks (note_call inserted_pos_parent (negsuc 4) log_rec_no)
