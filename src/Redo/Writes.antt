-- ===== src/Redo/Writes.antt =====
-- `delayed_write` of TxFS_Mam/server/Log_manager.c writes in place what the log says.
use backup_lfs.Base.{
  ℕ, ◌≡◌, ◌≢◌, refl, ◌∙◌, sym, ap, subst, some, List, [], ◌∷◌, ok, pure, Code, ◌>>◌,
}
use backup_lfs.Base.Int.{ℤ}
use backup_lfs.Header.{Ptr, FileLock, WriteRecord}
use backup_lfs.Server.{Server}
use backup_lfs.Log.{na}
use backup_lfs.Redo.{Redone, read_write, write_in_place, write_each, delayed_write}
use backup_lfs.Redo.Reads.{Stands, read_write-back}
use backup_lfs.Redo.Entries.{Entry, log_bytes, HasWrite, HasWrite-Stands}
use backup_lfs.Update.Runs.{load-run}

-- Each write that the node of a file has is in the log, and says this.
abbrev pub Matches : List Entry → List WriteRecord → List Redone → Type 0
Matches es [] [] = Unit
Matches es (w ∷ ws) (r ∷ rs) = HasWrite 0 es w.lrn r × Matches es ws rs
Matches es _ _ = ⊥

-- The calls leave the log alone.
abbrev pub KeepsLog : (Code Server (Unit {0})) → Type 0
KeepsLog c = (s : Server) → (s' : Server) × (c s ≡ ok (tt, s')) × (s'.event_log ≡ s.event_log)

-- The writes in place, one after the other.
abbrev pub in_place :
    (lseek : ℤ → ℤ → Code Server (Unit {0})) (write : ℤ → List ℕ → Code Server (Unit {0}))
    → List Redone
    → Code Server (Unit {0})
in_place lseek write [] = pure tt
in_place lseek write (r ∷ rs) = do
  lseek (r.fd) (r.offset)
  write (r.fd) (r.text)
  in_place lseek write rs

module _ (lseek : ℤ → ℤ → Code Server (Unit {0})) (write : ℤ → List ℕ → Code Server (Unit {0}))
    (lseek-KeepsLog : (fd offset : ℤ) → KeepsLog (lseek fd offset))
    (write-KeepsLog : (fd : ℤ) (text : List ℕ) → KeepsLog (write fd text)) where
  read_write-Says :
      (es : List Entry) (lrn : ℤ) (r : Redone) (s : Server)
      → s.event_log ≡ log_bytes es
      → HasWrite 0 es lrn r
      → read_write lrn s ≡ ok (r, s)
  read_write-Says es lrn r s file h =
      let (e, first, at, says, (next, later, there)) = HasWrite-Stands [] es lrn r s file h in
      let stands : Stands first e.content e.text na s =
        subst (λ (text1 : List ℕ). Stands first e.content e.text text1 s) says.plain
          (next, later, there) in
      let same : record { fd = e.content.fd; offset = e.content.offset; text = e.text } ≡ r =
        rw (sym says.same_fd, sym says.same_offset, sym says.same_text) refl in
      subst (λ k. read_write k s ≡ ok (r, s)) (sym at)
        (read_write-back first e.text e.content s stands says.size says.small says.fd_fits
            says.offset_fits
          ∙ ap (λ (x : Redone). ok (x, s)) same)

  write_each-in_place :
      (es : List Entry) (ws : List WriteRecord) (rs : List Redone) (s : Server)
      → s.event_log ≡ log_bytes es
      → Matches es ws rs
      → write_each lseek write ws s ≡ in_place lseek write rs s
  unfolding write_each write_in_place
  write_each-in_place es [] [] s file m = refl
  write_each-in_place es [] (r ∷ rs) s file m = absurd m
  write_each-in_place es (w ∷ ws) [] s file m = absurd m
  write_each-in_place es (w ∷ ws) (r ∷ rs) s file (h, m) =
      let (s1, sought, same1) = lseek-KeepsLog r.fd r.offset s in
      let (s2, wrote, same2) = write-KeepsLog r.fd r.text s1 in
      rw (read_write-Says es w.lrn r s file h, sought, wrote)
        (write_each-in_place es ws rs s2 (same2 ∙ same1 ∙ file) m)

  -- Where the log is a sequence of records, each write that the node of a file has is among them with
  -- its data, and `lseek` and `write` end and leave the log alone: the writes are applied with exactly
  -- these descriptors, offsets and data, in the order in which they were made.
  pub delayed_write-in_place :
      (es : List Entry) (p : Ptr) (n : FileLock) (rs : List Redone) (s : Server)
      → p ≢ 0
      → s.locks.cell p ≡ some n
      → s.event_log ≡ log_bytes es
      → Matches es n.writes_at rs
      → delayed_write lseek write p s ≡ in_place lseek write rs s
  unfolding delayed_write
  delayed_write-in_place es p n rs s ne at file m =
      rw (load-run s.locks p n ne at) (write_each-in_place es n.writes_at rs s file m)
