-- ===== src/Serial/Verdict.antt =====
-- When a transaction is let through, is paused, and is aborted.
use backup_lfs.Base.{
  ℕ, zero, suc, ◌+◌, ◌≤◌, ◌≡◌, ◌≢◌, refl, ◌∙◌, ◌⊎◌, inl, inr, some, List, arith, ◌==◌, ◌&&◌, length,
  replicate, ok, fault, out_of_fuel, Run, and_then, Code, ◌>>=◌, pure, Bool-cases, subst, ==_self,
  eq→==, ne→==, [], ◌∷◌,
}
use backup_lfs.Base.Int.{ℤ, pos, minus_one}
use backup_lfs.Header.{null, TxnNode, running}
use backup_lfs.Txn.{find_txn}
use backup_lfs.Txn.Order.{update_txn_node-find}
use backup_lfs.Pause.{Pauses, Turn, first_pause, pause_again, too_often, take_turn}
use backup_lfs.Pause.Turns.{IsNotPaused, IsPaused, take_turn-first, take_turn-again, take_turn-end}
use backup_lfs.Pause.Clear.{Cleared, OthersKept, clear_pauses-Cleared}
use backup_lfs.Server.{Server, Counters, on_pauses, load_txn, modify_txn, count_up}
use backup_lfs.Serial.{end_pause, pause_or_abort, mutually_serializable}

-- The transaction has no lock yet, or the file is on its side of the backup.
abbrev pub IsAdmissible : TxnNode → ℕ → Type 0
IsAdmissible t read_bit =
    (t.file_rec_no ≡ null) ⊎ ((t.file_rec_no ≢ null) × (read_bit ≡ t.before_after))

module _ (on_txn_abort : ℕ → Code Server ℤ) (txnid : ℕ) where
  -- What a transaction that is let through leaves of the array of paused transactions: all of it where
  -- it has no lock yet, and otherwise all but its own entries, of which none is left in use.
  abbrev pub Forgotten : TxnNode → Pauses → Pauses → Type 0
  Forgotten t s s' =
      ((t.file_rec_no ≡ null) × (s' ≡ s))
      ⊎ ((t.file_rec_no ≢ null)
          × Cleared txnid 0 (0 + suc s.index_pause_array) s s'
          × OthersKept txnid s s')

  -- A live transaction that holds no lock, or whose side of the backup is that of the file, is let
  -- through, and nothing changes but the array of paused transactions. That is as before where it holds
  -- no lock; otherwise no entry in use is the transaction's any more, and every other transaction's
  -- entry and what lies behind those in use are as before.
  pub mutually_serializable-admits :
      (read_bit : ℕ) (s : Server) (t : TxnNode)
      → find_txn txnid s.txns ≡ some t
      → suc s.pauses.index_pause_array ≤ length s.pauses.pause_array
      → IsAdmissible t read_bit
      → (ps : Pauses) × (mutually_serializable on_txn_abort txnid read_bit s
          ≡ ok (pos 1, record s { pauses = ps }))
        × Forgotten t s.pauses ps
  unfolding mutually_serializable load_txn
  mutually_serializable-admits read_bit s t live room (inl free) =
      (s.pauses, rw (live, eq→== t.file_rec_no null free) refl, inl (free, refl))
  mutually_serializable-admits read_bit s t live room (inr (owns, agrees)) =
      let (ps, run, cleared, others) =
        clear_pauses-Cleared (suc s.pauses.index_pause_array) 0 txnid s.pauses
          (omega (arith, room)) in
      (
        ps,
        rw (live, ne→== t.file_rec_no null owns, eq→== read_bit t.before_after agrees, run) refl,
        inr (owns, cleared, others),
      )

  -- The transaction is live and after the backup, and its next file is before it.
  record IsConflicting (n : ℕ) (s : Server) : Type 0 where
    node : TxnNode
    live : find_txn txnid s.txns ≡ some node
    owns : node.file_rec_no ≢ null
    after : node.before_after ≡ 1
    paused : IsPaused txnid n s.pauses

  conflict :
      (s : Server) (t : TxnNode)
      → find_txn txnid s.txns ≡ some t
      → t.file_rec_no ≢ null
      → t.before_after ≡ 1
      → mutually_serializable on_txn_abort txnid 0 s
        ≡ (on_pauses (take_turn txnid) >>= pause_or_abort on_txn_abort txnid) s
  unfolding mutually_serializable load_txn
  conflict s t live owns after = rw (live, ne→== t.file_rec_no null owns, after) refl

  pauses_once :
      (s : Server) (t : TxnNode) (c : Counters) (ps : Pauses) (n : ℕ)
      → find_txn txnid s.txns ≡ some t
      → t.file_rec_no ≢ null
      → t.before_after ≡ 1
      → IsPaused txnid n ps
      → (s' : Server) × (end_pause txnid (record s { pauses = ps; counters = c }) ≡ ok (pos 0, s'))
        × IsConflicting n s'
  unfolding end_pause modify_txn count_up
  pauses_once s t c ps n live owns after x = (
    _,
    refl,
    record {
      node = record t { cur_state = running };
      live =
          update_txn_node-find txnid txnid (λ u. record u { cur_state = running }) s.txns t
            (λ u. refl) live
          ∙ rw (==_self txnid) refl;
      owns = owns;
      after = after;
      paused = x;
    },
  )

  first_conflict :
      (s : Server) (t : TxnNode)
      → find_txn txnid s.txns ≡ some t
      → t.file_rec_no ≢ null
      → t.before_after ≡ 1
      → IsNotPaused txnid s.pauses
      → (s' : Server) × (mutually_serializable on_txn_abort txnid 0 s ≡ ok (pos 0, s'))
        × IsConflicting 1 s'
  unfolding pause_or_abort count_up
  first_conflict s t live owns after free =
      let (ps, run, x) = take_turn-first txnid s.pauses free in
      let (s', ended, c) =
        pauses_once s t (record (s.counters) { no_on_wait = s.counters.no_on_wait + 1 }) ps 1 live
          owns after x in
      (s', conflict s t live owns after ∙ rw run ended, c)

  later_conflict :
      (s : Server) (n : ℕ)
      → IsConflicting n s
      → n ≤ 5
      → (s' : Server) × (mutually_serializable on_txn_abort txnid 0 s ≡ ok (pos 0, s'))
        × IsConflicting (suc n) s'
  unfolding pause_or_abort
  later_conflict s n c few =
      let (ps, run, x) = take_turn-again txnid n s.pauses c.paused few in
      let (s', ended, c') = pauses_once s c.node s.counters ps (suc n) c.live c.owns c.after x in
      (s', conflict s c.node c.live c.owns c.after ∙ rw run ended, c')

  -- The lock request that is tried again after each pause, `n` times.
  unfoldable pub tries : ℕ → Code Server (List ℤ)
  tries zero = pure []
  tries (suc n) = do r ← mutually_serializable on_txn_abort txnid 0; rs ← tries n; pure (r ∷ rs)

  later_tries :
      (n k : ℕ) (s : Server)
      → IsConflicting k s
      → n + k ≤ 6
      → (s' : Server) × (tries n s ≡ ok (replicate n (pos 0), s')) × IsConflicting (n + k) s'
  unfolding tries
  later_tries zero k s c few = (s, refl, subst (λ j. IsConflicting j s) (omega arith) c)
  later_tries (suc n) k s c few =
      let (s', run, c') = later_conflict s k c (omega arith) in
      let (s'', rest, c'') = later_tries n (suc k) s' c' (omega arith) in
      (s'', rw (run, rest) refl, subst (λ j. IsConflicting j s'') (omega arith) c'')

  -- A live transaction that is after the backup and not paused yet, with an entry left for it, and
  -- asks for a file that the backup has not read: six requests in a row return 0, and the next one
  -- calls `on_txn_abort`, counts it and returns -1 when that returns.
  pub tries-six :
      (s : Server) (t : TxnNode)
      → find_txn txnid s.txns ≡ some t
      → t.file_rec_no ≢ null
      → t.before_after ≡ 1
      → IsNotPaused txnid s.pauses
      → (s' : Server) × (tries 6 s ≡ ok (replicate 6 (pos 0), s'))
        × (mutually_serializable on_txn_abort txnid 0 s'
            ≡ (do _ ← on_txn_abort txnid; pure minus_one)
                (record s' {
                  counters = record (s'.counters) {
                    abrt_after_pause = s'.counters.abrt_after_pause + 1;
                  };
                }))
  unfolding tries pause_or_abort count_up
  tries-six s t live owns after free =
      let (s1, run, c) = first_conflict s t live owns after free in
      let (s', rest, c') = later_tries 5 1 s1 c (omega arith) in
      (
        s',
        rw (run, rest) refl,
        conflict s' c'.node c'.live c'.owns c'.after
            ∙ rw (take_turn-end txnid 6 s'.pauses c'.paused (omega arith)) refl,
      )

  abbrev Refuses : Run (ℤ × Server) → Type 0
  Refuses (ok (r, _)) = (r ≡ pos 0) ⊎ (r ≡ minus_one)
  Refuses _ = Unit

  abort-Refuses : (m : Run (ℤ × Server)) → Refuses (and_then m (λ r. ok (minus_one, r.1)))
  abort-Refuses (ok r) = inr refl
  abort-Refuses fault = tt
  abort-Refuses out_of_fuel = tt

  turn-Refuses : (turn : Turn) (s : Server) → Refuses (pause_or_abort on_txn_abort txnid turn s)
  unfolding pause_or_abort end_pause modify_txn count_up
  turn-Refuses too_often s = abort-Refuses (on_txn_abort txnid _)
  turn-Refuses pause_again s = inl refl
  turn-Refuses first_pause s = inl refl

  turns-Refuses :
      (s : Server) (m : Run (Turn × Pauses))
      → Refuses ((on_pauses {A = Turn} (λ _. m) >>= pause_or_abort on_txn_abort txnid) s)
  turns-Refuses s (ok (turn, ps)) = turn-Refuses turn (record s { pauses = ps })
  turns-Refuses s fault = tt
  turns-Refuses s out_of_fuel = tt

  -- A live transaction that holds a lock and is on the other side of the backup than the file is
  -- never let through: where the check returns, it returns 0 or -1.
  pub mutually_serializable-refuses :
      (read_bit : ℕ) (s s' : Server) (t : TxnNode) (r : ℤ)
      → find_txn txnid s.txns ≡ some t
      → t.file_rec_no ≢ null
      → read_bit ≢ t.before_after
      → mutually_serializable on_txn_abort txnid read_bit s ≡ ok (r, s')
      → (r ≡ pos 0) ⊎ (r ≡ minus_one)
  unfolding mutually_serializable load_txn count_up
  mutually_serializable-refuses read_bit s s' t r live owns differs run = subst Refuses run verdict
    where
      verdict : Refuses (mutually_serializable on_txn_abort txnid read_bit s)
      verdict = elim (Bool-cases ((read_bit == 0) && (t.before_after == 1))) [
        | inl pauses ↦
            rw (live, ne→== t.file_rec_no null owns, ne→== read_bit t.before_after differs, pauses)
              (turns-Refuses s (take_turn txnid s.pauses))
        | inr aborted ↦
            rw (live, ne→== t.file_rec_no null owns, ne→== read_bit t.before_after differs, aborted)
              (abort-Refuses (on_txn_abort txnid _))
      ]
