-- ===== src/Redo.antt =====
-- What reads the log back in TxFS_Mam/server/Log_manager.c when a transaction commits:
-- `delayed_write`, `delayed_rename`, `delayed_creat`, `delayed_unlink` and `delayed_update`. The calls
-- of the kernel and of YAFFS, whose answers are only printed, are parameters. A read that comes to
-- the end of the log leaves what was in memory, which is taken for a fault, as is a record that has
-- been freed.
pub mod Decode
pub mod Reads
pub mod Entries
pub mod Writes
pub mod Commits
pub mod Applied
pub mod Durable
pub mod Names
mod Tests
use backup_lfs.Base.{
  ℕ, zero, suc, ◌+◌, ◌-◌, ◌*◌, ◌^◌, Option, none, some, List, [], ◌∷◌, Bool, true, false, ltb, ◌==◌,
  ◌&&◌, ◌||◌, if◌then◌else◌, Code, pure, ◌>>=◌, ◌>>◌, get, crash, or_fault, out_of_fuel,
}
use backup_lfs.Base.Int.{ℤ, pos, negsuc, minus_one, eqb_ℤ}
use backup_lfs.Header.{Ptr, null, FileLock, WriteRecord}
use backup_lfs.LockList.{Locks, load, modify}
use backup_lfs.Server.{Server, on_locks}

unfoldable pub number_of : List ℕ → ℕ
number_of [] = 0
number_of (b ∷ bs) = b + 256 * number_of bs

-- Two's complement; half of the values, from `half` on, stand for the negative numbers.
unfoldable pub signed_of : (half n : ℕ) → ℤ
signed_of half n = if ltb n half then pos n else negsuc (half + half - 1 - n)

abbrev pub int_of : List ℕ → ℤ
int_of bs = signed_of (2 ^ 31) (number_of bs)

abbrev pub long_of : List ℕ → ℤ
long_of bs = signed_of (2 ^ 63) (number_of bs)

abbrev pub cut : ℕ → Option (List ℕ × List ℕ) → Option (List ℕ × List ℕ)
cut b none = none
cut b (some (bs, rest)) = some (b ∷ bs, rest)

-- The first bytes, and those behind them.
unfoldable pub split_at : ℕ → List ℕ → Option (List ℕ × List ℕ)
split_at zero bs = some ([], bs)
split_at (suc n) [] = none
split_at (suc n) (b ∷ bs) = cut b (split_at n bs)

-- A file at a position: `fread` gives the bytes and moves on.
unfoldable pub fread : (size : ℕ) (stream : List ℕ) → Code Server (List ℕ × List ℕ)
unfolding split_at
fread size stream = or_fault (split_at size stream)

abbrev pub skip : Option (List ℕ × List ℕ) → Code Server (List ℕ)
skip none = crash
skip (some (_, rest)) = pure rest

-- `fseek` to a record and past its first fields. An offset that is negative is a fault.
unfoldable pub fseek : (lrn : ℤ) (past : ℕ) → Code Server (List ℕ)
unfolding split_at
fseek (pos o) past s = skip (split_at (o + past) s.event_log) s
fseek (negsuc n) past s = crash s

-- What a record of a write says: the descriptor, the offset and the data.
pub record Redone : Type 0 where
  pub fd : ℤ
  pub offset : ℤ
  pub text : List ℕ

unfoldable pub read_write : (lrn : ℤ) → Code Server Redone
unfolding fseek fread
read_write lrn = do
  stream ← fseek lrn (8 + 4 + 8 + 8 + 4)
  (fd, stream) ← fread 4 stream
  (offset, stream) ← fread 8 stream
  (write_length, stream) ← fread 8 stream
  (text, _) ← fread (number_of write_length) stream
  pure (record { fd = int_of fd; offset = long_of offset; text = text })

-- One write in place.
unfoldable pub write_in_place :
    (lseek : ℤ → ℤ → Code Server (Unit {0})) (write : ℤ → List ℕ → Code Server (Unit {0}))
    → Redone
    → Code Server (Unit {0})
write_in_place lseek write r = do lseek (r.fd) (r.offset); write (r.fd) (r.text)

unfoldable pub write_each :
    (lseek : ℤ → ℤ → Code Server (Unit {0})) (write : ℤ → List ℕ → Code Server (Unit {0}))
    → List WriteRecord
    → Code Server (Unit {0})
unfolding read_write write_in_place
write_each lseek write [] = pure tt
write_each lseek write (w ∷ ws) = do
  r ← read_write (w.lrn)
  write_in_place lseek write r
  write_each lseek write ws

-- The records are freed; the node that has them is freed next, by the release.
unfoldable pub delayed_write :
    (lseek : ℤ → ℤ → Code Server (Unit {0})) (write : ℤ → List ℕ → Code Server (Unit {0}))
    → Ptr
    → Code Server (Unit {0})
unfolding write_each load
delayed_write lseek write file_to_write = do
  n ← on_locks (load file_to_write)
  write_each lseek write (n.writes_at)

-- The two texts of a record.
unfoldable pub read_texts : (lrn : ℤ) → Code Server (List ℕ × List ℕ)
unfolding fseek fread
read_texts lrn = do
  stream ← fseek lrn (8 + 4 + 8 + 8 + 4 + 4 + 8)
  (write_length1, stream) ← fread 8 stream
  (text, stream) ← fread (number_of write_length1) stream
  (write_length2, stream) ← fread 8 stream
  (text1, _) ← fread (number_of write_length2) stream
  pure (text, text1)

-- `delayed_unlink` reads the first only.
unfoldable pub read_text : (lrn : ℤ) → Code Server (List ℕ)
unfolding fseek fread
read_text lrn = do
  stream ← fseek lrn (8 + 4 + 8 + 8 + 4 + 4 + 8)
  (write_length1, stream) ← fread 8 stream
  (text, _) ← fread (number_of write_length1) stream
  pure text

-- The characters up to the zero that ends a C string.
abbrev pub c_string : List ℕ → List ℕ
c_string [] = []
c_string (zero ∷ bs) = []
c_string (suc c ∷ bs) = suc c ∷ c_string bs

-- `strcmp(mode,"256")==0`
abbrev pub is_256 : List ℕ → Bool
is_256 (a ∷ b ∷ c ∷ []) = (a == 50) && ((b == 53) && (c == 54))
is_256 _ = false

-- The file is written to the disk if the mode is 256, and otherwise not.
unfoldable pub delayed_creat :
    (tr_sync_file_to_disk : List ℕ → Code Server (Unit {0})) → WriteRecord → Code Server (Unit {0})
unfolding read_texts
delayed_creat tr_sync_file_to_disk w = do
  (newpath, mode) ← read_texts (w.lrn)
  if is_256 (c_string mode) then tr_sync_file_to_disk (c_string newpath) else pure tt

unfoldable pub delayed_unlink :
    (unlink : List ℕ → Code Server (Unit {0})) → WriteRecord → Code Server (Unit {0})
unfolding read_text
delayed_unlink unlink w = do newpath ← read_text (w.lrn); unlink (c_string newpath)

abbrev pub has_lrn : (lrn : ℤ) → List WriteRecord → Bool
has_lrn lrn [] = false
has_lrn lrn (w ∷ ws) = eqb_ℤ w.lrn lrn || has_lrn lrn ws

-- Without the first record of the number.
abbrev pub unlink_lrn : (lrn : ℤ) → List WriteRecord → List WriteRecord
unlink_lrn lrn [] = []
unlink_lrn lrn (w ∷ ws) = if eqb_ℤ w.lrn lrn then ws else w ∷ unlink_lrn lrn ws

-- The lock of the other directory, NULL if there is none further on.
unfoldable pub find_other : (fuel : ℕ) (file_rename2 : Ptr) (lrn : ℤ) → Code Locks Ptr
unfolding load
find_other zero p lrn = λ _. out_of_fuel
find_other (suc k) p lrn = if p == null then pure null else (do
  n ← load p
  if has_lrn lrn (n.writes_at) then pure p else find_other k (n.next_txn) lrn)

-- -3 marks a rename within one directory.
abbrev pub within_one : WriteRecord → Bool
within_one w = eqb_ℤ w.write_length (negsuc 2)

-- `w` is the first record of the directory's lock, and is freed at the end.
unfoldable pub delayed_rename :
    (rename : List ℕ → List ℕ → Code Server (Unit {0})) (fuel : ℕ) (n : FileLock)
    → WriteRecord
    → Code Server (Unit {0})
unfolding find_other read_texts modify
delayed_rename rename fuel n w = do
  file_rename2 ← on_locks (if within_one w then pure null else find_other fuel (n.next_txn) (w.lrn))
  (oldpath, newpath) ← read_texts (w.lrn)
  rename (c_string oldpath) (c_string newpath)
  if within_one w
      then pure tt
      else on_locks
          (modify file_rename2 (λ m. record m { writes_at = unlink_lrn (w.lrn) (m.writes_at) }))

abbrev pub is_rename : WriteRecord → Bool
is_rename w =
    eqb_ℤ w.write_length minus_one
    || (eqb_ℤ w.write_length (negsuc 1) || eqb_ℤ w.write_length (negsuc 2))

-- One round. Behind a rename `file_update->writes_at` still points to the record that has been freed.
unfoldable pub update_one :
    (rename : List ℕ → List ℕ → Code Server (Unit {0}))
    (tr_sync_file_to_disk unlink : List ℕ → Code Server (Unit {0})) (fuel : ℕ) (n : FileLock)
    → WriteRecord
    → Code Server (Unit {0})
unfolding delayed_rename delayed_creat delayed_unlink
update_one rename tr_sync_file_to_disk unlink fuel n w =
    if is_rename w
    then (do delayed_rename rename fuel n w; crash)
    else if eqb_ℤ w.write_length (negsuc 3)
    then delayed_creat tr_sync_file_to_disk w
    else if eqb_ℤ w.write_length (negsuc 4)
    then delayed_unlink unlink w
    else pure tt

-- The list of the lock at `p` becomes shorter by a record in each round.
unfoldable pub update_each :
    (rename : List ℕ → List ℕ → Code Server (Unit {0}))
    (tr_sync_file_to_disk unlink : List ℕ → Code Server (Unit {0})) (fuel : ℕ) (p : Ptr)
    → List WriteRecord
    → Code Server (Unit {0})
unfolding update_one load modify
update_each rename tr_sync_file_to_disk unlink fuel p [] = pure tt
update_each rename tr_sync_file_to_disk unlink fuel p (w ∷ ws) = do
  n ← on_locks (load p)
  update_one rename tr_sync_file_to_disk unlink fuel n w
  on_locks (modify p (λ m. record m { writes_at = ws }))
  update_each rename tr_sync_file_to_disk unlink fuel p ws

unfoldable pub delayed_update :
    (rename : List ℕ → List ℕ → Code Server (Unit {0}))
    (tr_sync_file_to_disk unlink : List ℕ → Code Server (Unit {0})) (fuel : ℕ) (file_update : Ptr)
    → Code Server (Unit {0})
unfolding update_each load
delayed_update rename tr_sync_file_to_disk unlink fuel file_update = do
  n ← on_locks (load file_update)
  update_each rename tr_sync_file_to_disk unlink fuel file_update (n.writes_at)
