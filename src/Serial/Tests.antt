-- ===== src/Serial/Tests.antt =====
-- Transactions 7 and 8 hold a lock, and stand after the backup and before it.
use backup_lfs.Base.{
  ℕ, ◌+◌, ◌≡◌, refl, some, none, [], ◌∷◌, ok, inr, ◌⊎◌, arith, replicate, Code, pure, ◌>>=◌,
}
use backup_lfs.Base.Int.{ℤ, pos, minus_one}
use backup_lfs.Header.{TxnNode, active, running}
use backup_lfs.Txn.{find_txn}
use backup_lfs.Pause.{Pauses, no_pauses}
use backup_lfs.Pause.Turns.{no_pauses-IsNotPaused}
use backup_lfs.Server.{Server}
use backup_lfs.Serial.{mutually_serializable}
use backup_lfs.Serial.Verdict.{
  Forgotten, mutually_serializable-admits, tries, tries-six, mutually_serializable-refuses,
}

abbrev after : TxnNode
after = record {
  txn_id = 7;
  cur_state = running;
  first_lrn = pos 0;
  last_lrn = pos 0;
  file_rec_no = 10;
  wait_mode = minus_one;
  waiting_for_inode = 0;
  before_after = 1;
}

abbrev busy : Server
busy = record {
  locks = record { cell = λ _. none; head = 0 };
  txns = after ∷ [];
  waits = [];
  latest_txn_id = 7;
  backup = active;
  pauses = no_pauses;
  counters = record {
    u_conflict = 0;
    tb_conflict = 0;
    no_of_abrt = 0;
    no_on_wait = 0;
    total_wait_time = 0;
    abrt_after_pause = 0;
    abrt_on_dead = 0;
  };
  event_log = [];
}

abbrev never_aborts : ℕ → Code Server ℤ
never_aborts txnid = pure (pos 0)

live : find_txn 7 busy.txns ≡ some after
unfolding find_txn
live = refl

mutually_serializable-admits_example :
    (ps : Pauses) × (mutually_serializable never_aborts 7 1 busy
      ≡ ok (pos 1, record busy { pauses = ps }))
    × Forgotten never_aborts 7 after busy.pauses ps
mutually_serializable-admits_example =
    mutually_serializable-admits never_aborts 7 1 busy after live (omega arith)
      (inr (omega arith, refl))

tries-six_example :
    (s' : Server) × (tries never_aborts 7 6 busy ≡ ok (replicate 6 (pos 0), s'))
    × (mutually_serializable never_aborts 7 0 s'
        ≡ (do _ ← never_aborts 7; pure minus_one)
            (record s' {
              counters = record (s'.counters) {
                abrt_after_pause = s'.counters.abrt_after_pause + 1;
              };
            }))
tries-six_example =
    tries-six never_aborts 7 busy after live (omega arith) refl
      (no_pauses-IsNotPaused 7 (omega arith))

aborted : (s' : Server) × (mutually_serializable never_aborts 7 2 busy ≡ ok (minus_one, s'))
unfolding mutually_serializable find_txn
aborted = (_, refl)

mutually_serializable-refuses_example : (minus_one ≡ pos 0) ⊎ (minus_one ≡ minus_one)
mutually_serializable-refuses_example =
    mutually_serializable-refuses never_aborts 7 2 busy aborted.0 after minus_one live (omega arith)
      (omega arith) aborted.1
