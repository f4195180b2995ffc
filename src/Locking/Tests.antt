-- ===== src/Locking/Tests.antt =====
-- Transaction 4, which has no lock, asks to read file 8, which transactions 2 and 3 read.
use backup_lfs.Base.{ℕ, ◌≡◌, refl, none, some, [], ◌∷◌, ok, inl, inr, arith, Code, pure}
use backup_lfs.Base.Int.{ℤ, pos}
use backup_lfs.Header.{FileLock}
use backup_lfs.Txn.{get_txn_node, find_txn}
use backup_lfs.LockList.{write, file_node}
use backup_lfs.LockList.Chain.{lock_of, Cells, IsValid}
use backup_lfs.Server.{Server, global_init}
use backup_lfs.Locking.{blocked, resume}
use backup_lfs.Locking.Grant.{IsClient}
use backup_lfs.Locking.Answers.{Answers}
use backup_lfs.Locking.Request.{resume-Answers}

abbrev first : FileLock
first = record (file_node 8 (pos 0) 0 2) { next = 30; prev = 20; next_shared_rec = 30 }

abbrev second : FileLock
second = record (file_node 8 (pos 0) 0 3) { prev = 20; prev_shared_rec = 20 }

abbrev cells : Cells
cells = (20, lock_of first) ∷ (30, lock_of second) ∷ []

abbrev server : Server
server = record (global_init []) {
  locks = write (write (record { cell = λ _. none; head = 20 }) 20 (some first)) 30 (some second);
  txns = get_txn_node 4 (pos 0) ∷ [];
}

cells-IsValid : IsValid server.locks cells
cells-IsValid = record {
  linked = (
    first,
    refl,
    omega arith,
    refl,
    refl,
    refl,
    refl,
    (second, refl, omega arith, refl, refl, refl, refl, refl),
  );
  ordered = ground arith;
  chained = (λ n at. ground arith, (λ n at. ground arith, tt));
}

client : IsClient server 4 2 (get_txn_node 4 (pos 0)) []
unfolding find_txn get_txn_node global_init
client = record { live = refl; owns = refl; enough = omega arith; room = omega arith }

abbrev never_aborts : ℕ → Code Server ℤ
never_aborts txnid = pure (pos 0)

resume-Answers_example :
    Answers never_aborts 2 8 0 4 0 40 cells (resume never_aborts 2 8 0 4 0 40) server
unfolding get_txn_node global_init
resume-Answers_example =
    resume-Answers never_aborts 2 8 0 4 0 server (get_txn_node 4 (pos 0)) [] 40 cells client
      (inr (omega arith, inl refl)) (omega arith) refl cells-IsValid
      (omega arith, (omega arith, tt)) (omega arith)

-- To write the file it must sleep.
writer_sleeps : (s : Server) × (resume never_aborts 2 8 1 4 0 40 server ≡ ok (blocked, s))
unfolding resume get_txn_node global_init find_txn
writer_sleeps = (_, refl)
