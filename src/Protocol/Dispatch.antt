-- ===== src/Protocol/Dispatch.antt =====
-- What `handler` of TxFS_Mam/server/Reader.c does for a call, once it has its strings, and the messages
-- that it sends for it. The strings are those of this round: `incall` of the source has further ones
-- only as pointers that are not set or that were freed when the round before ended, so that reading
-- them is a fault.
use backup_lfs.Base.{
  ℕ, ltb, List, [], ◌∷◌, get_elem?, length, if◌then◌else◌, Code, ok, and_then, pure, ◌>>=◌, ◌>>◌,
  get, put, crash, or_fault,
}
use backup_lfs.Base.Int.{ℤ, pos, minus_one, eqb_ℤ}
use backup_lfs.Header.{Ptr}
use backup_lfs.Server.{Server}
use backup_lfs.Handlers.{Disk, on_txn_beg, on_txn_commit, on_txn_abort, on_write}
use backup_lfs.Calls.{
  Outside, Progress, finished, suspended, on_open, on_stat, on_inode_stat, on_lseek, on_read,
  on_creat, on_unlink,
}
use backup_lfs.Calls.Rename.{Fts, on_rename}
use backup_lfs.Protocol.{
  Call, txn_beg, open_call, txn_commit, txn_abort, quit, write_call, lseek_call, read_call,
  rename_call, creat_call, unlink_call, stat_call, inode_stat, bck_beg, unknown,
}

-- What a thread keeps from call to call: the transaction, and `str`, which has the last answer.
pub record Session : Type 0 where
  pub server : Server
  pub txnid : ℕ
  pub str : List ℕ

-- The messages of a reply, or the thread waits for a lock.
pub data Served : Type 0 where
  replies : List (List ℕ) → Served
  stalled : Served

-- The C library's numbers, the handlers' parameters, the addresses that `malloc` returns in turn, and
-- what `fts_read` finds. `number` is `atoi` of a text without a sign, and `decimal` is `snprintf`, whose
-- text fits.
pub record Around : Type 0 where
  pub atoi : List ℕ → ℤ
  pub number : List ℕ → ℕ
  pub decimal : ℤ → List ℕ
  pub tr_file_write : ℤ → List ℕ → ℤ → ℕ → Code Server ℤ
  pub disk : Disk
  pub set_transaction_id : ℕ → Code Server (Unit {0})
  pub on_bck_beg : List ℕ → List ℕ → Code Server (Unit {0})
  pub new_first : Ptr
  pub new_second : Ptr
  pub new_third : Ptr
  pub tree : List Fts

-- A handler, run on the server of the session.
abbrev pub on_session : {A : Type 0} → Code Server A → Code Session A
on_session c s = and_then (c s.server) (λ r. ok (r.0, record s { server = r.1 }))

-- A string that has not been taken is a fault.
abbrev pub string_at : (incall : List (List ℕ)) → ℕ → Code Session (List ℕ)
string_at incall i = or_fault (get_elem? incall i)

abbrev pub set_str : List ℕ → Code Session (Unit {0})
set_str text s = put (record s { str = text }) s

abbrev pub answer_str : Code Session Served
answer_str s = ok (replies (s.str ∷ []), s)

-- A message of no bytes is none.
abbrev pub with_contents : (contents answer : List ℕ) → List (List ℕ)
with_contents [] answer = answer ∷ []
with_contents contents answer = contents ∷ answer ∷ []

-- "Backup done"
abbrev pub backup_done : List ℕ
backup_done = 66 ∷ 97 ∷ 99 ∷ 107 ∷ 117 ∷ 112 ∷ 32 ∷ 100 ∷ 111 ∷ 110 ∷ 101 ∷ []

module _ (o : Outside) (a : Around) (fuel : ℕ) where
  abbrev pub answer_number : ℤ → Code Session Served
  answer_number z = do set_str (a.decimal z); answer_str

  abbrev pub answer_progress : Progress → Code Session Served
  answer_progress (finished z) = answer_number z
  answer_progress suspended = pure stalled

  abbrev pub in_session : (ℕ → Code Server Progress) → Code Session Served
  in_session c = do s ← get; p ← on_session (c (s.txnid)); answer_progress p

  unfoldable pub begin_session : List ℕ → Code Session Served
  unfolding on_txn_beg
  begin_session text =
      if ltb (length text) 12
      then (do
        s ← get
        put (record s { str = text; txnid = a.number text })
        on_session (a.set_transaction_id (a.number text))
        _ ← on_session (on_txn_beg (a.number text))
        answer_str)
      else crash

  -- Nothing is sent of a read that is not allowed, and of what has been read as much as was read.
  abbrev pub read_reply : ℤ × List ℕ → Code Session Served
  read_reply r = do
    set_str (a.decimal (r.0))
    s ← get
    pure (replies (if eqb_ℤ (r.0) minus_one then s.str ∷ [] else with_contents (r.1) (s.str)))

  unfoldable pub dispatch : Call → (incall : List (List ℕ)) → Code Session Served
  unfolding begin_session on_open on_txn_commit on_txn_abort on_write on_rename on_creat on_unlink
      on_stat on_inode_stat on_lseek on_read
  dispatch txn_beg incall = do text ← string_at incall 1; begin_session text
  dispatch open_call incall = do
    path ← string_at incall 1
    flags ← string_at incall 2
    in_session (λ txnid. on_open o fuel txnid path flags (a.new_first))
  dispatch txn_commit incall = do
    s ← get
    _ ← on_session (on_txn_commit (a.disk) fuel (s.txnid))
    answer_number (pos (s.txnid))
  dispatch txn_abort incall = do
    s ← get
    _ ← on_session (on_txn_abort (o.tr_yaffs_close_abort) fuel (s.txnid))
    answer_number (pos (s.txnid))
  dispatch quit incall = do s ← get; answer_number (pos (s.txnid))
  dispatch write_call incall = do
    fd ← string_at incall 1
    buf ← string_at incall 2
    nbyte ← string_at incall 3
    s ← get
    _ ← on_session (on_write (a.tr_file_write) fuel (a.atoi fd) buf (a.atoi nbyte) (s.txnid))
    answer_str
  dispatch lseek_call incall = do
    fd ← string_at incall 1
    offset ← string_at incall 2
    whence ← string_at incall 3
    in_session (λ txnid. on_lseek o fuel txnid (a.atoi fd) (a.atoi offset) (a.number whence))
  dispatch read_call incall = do
    fd ← string_at incall 1
    nbytes ← string_at incall 3
    s ← get
    r ← on_session (on_read o fuel (s.txnid) (a.atoi fd) (a.atoi nbytes))
    read_reply r
  dispatch rename_call incall = do
    path ← string_at incall 1
    newpath ← string_at incall 2
    in_session (λ txnid.
        on_rename o fuel txnid path newpath (a.tree) (a.new_first) (a.new_second) (a.new_third))
  dispatch creat_call incall = do
    path ← string_at incall 1
    mode ← string_at incall 2
    in_session (λ txnid. on_creat o fuel txnid path mode (a.new_first))
  dispatch unlink_call incall = do
    path ← string_at incall 1
    in_session (λ txnid. on_unlink o fuel txnid path (a.new_first) (a.new_second))
  dispatch stat_call incall = do
    path ← string_at incall 1
    in_session (λ txnid. on_stat o fuel txnid path (a.new_first))
  dispatch inode_stat incall = do
    path ← string_at incall 1
    in_session (λ txnid. on_inode_stat o fuel txnid path)
  dispatch bck_beg incall = do
    root ← string_at incall 1
    destination ← string_at incall 2
    on_session (a.on_bck_beg root destination)
    set_str backup_done
    answer_str
  dispatch unknown incall = pure (replies [])
