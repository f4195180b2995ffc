-- ===== src/Redo/Applied.antt =====
-- What `apply_writes` of TxFS_Mam/server/Lock_manager1.c and `delayed_update` do with the notes of a
-- directory, where they are creations and removals.
use backup_lfs.Base.{
  ℕ, ◌≡◌, ◌≢◌, refl, ◌∙◌, ap, ◌⊎◌, some, List, [], ◌∷◌, All, ok, Code, ◌==◌, Bool-cases, inl, inr,
  true, ==_self,
}
use std.Path.{fun_ext}
use backup_lfs.Base.Int.{pos, negsuc, ltb_ℤ}
use backup_lfs.Header.{Ptr, null, FileLock, WriteRecord}
use backup_lfs.LockList.{Locks, write}
use backup_lfs.Server.{Server}
use backup_lfs.Update.Runs.{modify-run, load-run}
use backup_lfs.Release.{apply_all, apply_writes}
use backup_lfs.Release.Exclusive.{IsQuiet}
use backup_lfs.Release.Loop.{IsQuietAt, write-same}
use backup_lfs.Redo.{
  read_texts, read_text, c_string, is_256, delayed_creat, delayed_unlink, update_one, update_each,
  delayed_update,
}

-- A creation or a removal, whose texts the log has.
abbrev pub IsNoted : (log : List ℕ) → WriteRecord → Type 0
IsNoted log w =
    ((w.write_length ≡ negsuc 3)
      × (texts : List ℕ × List ℕ) × ((s : Server)
          → s.event_log ≡ log
          → read_texts w.lrn s ≡ ok (texts, s)))
    ⊎ ((w.write_length ≡ negsuc 4)
        × (text : List ℕ) × ((s : Server) → s.event_log ≡ log → read_text w.lrn s ≡ ok (text, s)))

write-write :
    (l : Locks) (p : Ptr) (m n : FileLock)
    → write (write l p (some m)) p (some n) ≡ write l p (some n)
write-write l p m n = ap (λ cell. record l { cell = cell }) (fun_ext last)
  where
    last : (q : Ptr) → (write (write l p (some m)) p (some n)).cell q ≡ (write l p (some n)).cell q
    last q = elim (Bool-cases (p == q)) [ inl here ↦ rw here refl | inr other ↦ rw other refl ]

module _ (rename_file : List ℕ → List ℕ → Code Server (Unit {0}))
    (tr_sync_file_to_disk unlink_file : List ℕ → Code Server (Unit {0}))
    (quiet_sync : IsQuiet tr_sync_file_to_disk) (quiet_unlink : IsQuiet unlink_file) where
  -- A call that ends with the server's lists and the log as before.
  abbrev Leaves : Code Server (Unit {0}) → Server → Type 0
  Leaves c s =
      (s' : Server) × (c s ≡ ok (tt, s'))
      × (s'.locks ≡ s.locks)
      × (s'.waits ≡ s.waits)
      × (s'.txns ≡ s.txns)
      × (s'.event_log ≡ s.event_log)

  delayed_creat-Leaves :
      (w : WriteRecord) (texts : List ℕ × List ℕ) (s : Server)
      → read_texts w.lrn s ≡ ok (texts, s)
      → Leaves (delayed_creat tr_sync_file_to_disk w) s
  unfolding delayed_creat
  delayed_creat-Leaves w texts s reads = elim (Bool-cases (is_256 (c_string texts.1))) [
    | inl sync ↦
        let (s', run, locks, waits, txns, same) = quiet_sync (c_string texts.0) s in
        (s', rw (reads, sync) run, locks, waits, txns, same)
    | inr stay ↦ (s, rw (reads, stay) refl, refl, refl, refl, refl)
  ]

  update_one-creat :
      (fuel : ℕ) (n : FileLock) (w : WriteRecord) (s : Server)
      → w.write_length ≡ negsuc 3
      → update_one rename_file tr_sync_file_to_disk unlink_file fuel n w s
        ≡ delayed_creat tr_sync_file_to_disk w s
  unfolding update_one
  update_one-creat fuel n w s creates = rw creates refl

  update_one-Leaves :
      (log : List ℕ) (fuel : ℕ) (n : FileLock) (w : WriteRecord) (s : Server)
      → IsNoted log w
      → s.event_log ≡ log
      → Leaves (update_one rename_file tr_sync_file_to_disk unlink_file fuel n w) s
  unfolding update_one delayed_unlink
  update_one-Leaves log fuel n w s (inl (creates, texts, reads)) is =
      let (s', run, locks, waits, txns, same) = delayed_creat-Leaves w texts s (reads s is) in
      (s', update_one-creat fuel n w s creates ∙ run, locks, waits, txns, same)
  update_one-Leaves log fuel n w s (inr (removes, text, reads)) is =
      let (s', run, locks, waits, txns, same) = quiet_unlink (c_string text) s in
      (s', rw (removes, reads s is) run, locks, waits, txns, same)

  -- The loop takes the notes one after the other.
  update_each-quiet :
      (log : List ℕ) (fuel : ℕ) (p : Ptr) (n : FileLock) (ws : List WriteRecord) (s : Server)
      → p ≢ null
      → s.locks.cell p ≡ some n
      → s.event_log ≡ log
      → All (IsNoted log) ws
      → (vs : List WriteRecord) × (s' : Server) × (update_each rename_file tr_sync_file_to_disk
            unlink_file fuel p ws s
          ≡ ok (tt, s'))
        × (s'.locks ≡ write s.locks p (some (record n { writes_at = vs })))
        × (s'.waits ≡ s.waits)
        × (s'.txns ≡ s.txns)
        × (s'.event_log ≡ s.event_log)
  unfolding update_each
  update_each-quiet log fuel p n [] s ne at is noted =
      (n.writes_at, s, refl, write-same s.locks p n at, refl, refl, refl)
  update_each-quiet log fuel p n (w ∷ ws) s ne at is (here, noted) =
      let (s1, one, locks1, waits1, txns1, log1) = update_one-Leaves log fuel n w s here is in
      let at1 : s1.locks.cell p ≡ some n = ap (λ (l : Locks). l.cell p) locks1 ∙ at in
      let n2 = record n { writes_at = ws } in
      let s2 : Server = record s1 { locks = write s1.locks p (some n2) } in
      let at2 : s2.locks.cell p ≡ some n2 = rw (==_self p) refl in
      let (vs, s', rest, locks, waits, txns, same) =
        update_each-quiet log fuel p n2 ws s2 ne at2 (log1 ∙ is) noted in
      (
        vs,
        s',
        rw
            (
              load-run s.locks p n ne at,
              one,
              modify-run s1.locks p n (λ m. record m { writes_at = ws }) ne at1,
            )
            rest,
        locks
            ∙ write-write s1.locks p n2 (record n { writes_at = vs })
            ∙ ap (λ l. write l p (some (record n { writes_at = vs }))) locks1,
        waits ∙ waits1,
        txns ∙ txns1,
        same ∙ log1,
      )

  delayed_update-IsQuietAt :
      (log : List ℕ) (fuel : ℕ)
      → IsQuietAt log
          (All (IsNoted log))
          (delayed_update rename_file tr_sync_file_to_disk unlink_file fuel)
  unfolding delayed_update
  delayed_update-IsQuietAt log fuel p n s ne at is noted =
      let (vs, s', run, locks, waits, txns, same) =
        update_each-quiet log fuel p n n.writes_at s ne at is noted in
      (vs, s', rw (load-run s.locks p n ne at) run, locks, waits, txns, same)

  negative : (log : List ℕ) (w : WriteRecord) → IsNoted log w → ltb_ℤ w.write_length (pos 0) ≡ true
  negative log w (inl (creates, _, _)) = rw creates refl
  negative log w (inr (removes, _, _)) = rw removes refl

  applied :
      (log : List ℕ) (fuel : ℕ) (delayed_write : Ptr → Code Server (Unit {0})) (p : Ptr)
      (n : FileLock) (ws : List WriteRecord) (s : Server)
      → p ≢ null
      → s.locks.cell p ≡ some n
      → s.event_log ≡ log
      → All (IsNoted log) n.writes_at
      → All (IsNoted log) ws
      → (vs : List WriteRecord) × (s' : Server) × (apply_all
            (delayed_update rename_file tr_sync_file_to_disk unlink_file fuel)
            delayed_write
            p
            ws
            s
          ≡ ok (tt, s'))
        × (s'.locks ≡ write s.locks p (some (record n { writes_at = vs })))
        × (s'.waits ≡ s.waits)
        × (s'.txns ≡ s.txns)
        × (s'.event_log ≡ s.event_log)
  applied log fuel delayed_write p n [] s ne at is noted all =
      (n.writes_at, s, refl, write-same s.locks p n at, refl, refl, refl)
  applied log fuel delayed_write p n (w ∷ ws) s ne at is noted (here, all) =
      rw (negative log w here) (delayed_update-IsQuietAt log fuel p n s ne at is noted)

  pub apply_writes-IsQuietAt :
      (log : List ℕ) (fuel : ℕ) (delayed_write : Ptr → Code Server (Unit {0}))
      → IsQuietAt log (All (IsNoted log)) (
          apply_writes
            (delayed_update rename_file tr_sync_file_to_disk unlink_file fuel)
            delayed_write)
  unfolding apply_writes
  apply_writes-IsQuietAt log fuel delayed_write p n s ne at is noted =
      elim (Bool-cases (n.flags == 0)) [
        | inl reads ↦ (
          n.writes_at,
          s,
          rw (load-run s.locks p n ne at, reads) refl,
          write-same s.locks p n at,
          refl,
          refl,
          refl,
        )
        | inr writes ↦
            let (vs, s', run, locks, waits, txns, same) =
              applied log fuel delayed_write p n n.writes_at s ne at is noted noted in
            (vs, s', rw (load-run s.locks p n ne at, writes) run, locks, waits, txns, same)
      ]
