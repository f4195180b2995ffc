-- ===== src/Server.antt =====
-- The shared state of the server, and `global_init` of TxFS_Mam/server/Reader.c.
-- The mutexes are held through each stretch of code that the model runs at once. Counters of
-- TxFS_Mam/server/my_header.h that no code reads again (`tbu_conflict`, `avg_wait_time`) are left out.
use backup_lfs.Base.{ℕ, none, List, [], Code, put, or_fault, and_then, ok}
use backup_lfs.Header.{null, TxnNode, WaitNode, BckState, inactive}
use backup_lfs.LockList.{Locks}
use backup_lfs.Txn.{find_txn, update_txn_node}
use backup_lfs.Pause.{Pauses, no_pauses}

pub record Counters : Type 0 where
  pub u_conflict : ℕ
  pub tb_conflict : ℕ
  pub no_of_abrt : ℕ
  pub no_on_wait : ℕ
  pub total_wait_time : ℕ
  pub abrt_after_pause : ℕ
  pub abrt_on_dead : ℕ

pub record Server : Type 0 where
  pub locks : Locks
  pub txns : List TxnNode
  pub waits : List WaitNode
  pub latest_txn_id : ℕ  -- `txn_id`
  pub backup : BckState
  pub pauses : Pauses
  pub counters : Counters
  pub event_log : List ℕ  -- the bytes of the log file

-- The log file is opened as it is.
unfoldable pub global_init : (event_log : List ℕ) → Server
global_init event_log = record {
  locks = record { cell = λ _. none; head = null };
  txns = [];
  waits = [];
  latest_txn_id = 0;
  backup = inactive;
  pauses = no_pauses;
  counters = record {
    u_conflict = 0;
    tb_conflict = 0;
    no_of_abrt = 0;
    no_on_wait = 0;
    total_wait_time = 0;
    abrt_after_pause = 0;
    abrt_on_dead = 0;
  };
  event_log = event_log;
}

-- Code of one list, run on the server.
abbrev pub on_locks : {A : Type 0} → Code Locks A → Code Server A
on_locks c s = and_then (c s.locks) (λ r. ok (r.0, record s { locks = r.1 }))

abbrev pub on_pauses : {A : Type 0} → Code Pauses A → Code Server A
on_pauses c s = and_then (c s.pauses) (λ r. ok (r.0, record s { pauses = r.1 }))

abbrev pub on_waits : {A : Type 0} → Code (List WaitNode) A → Code Server A
on_waits c s = and_then (c s.waits) (λ r. ok (r.0, record s { waits = r.1 }))

-- The walk to a transaction's node, which must be live.
unfoldable pub load_txn : ℕ → Code Server TxnNode
load_txn txnid s = or_fault (find_txn txnid s.txns) s

-- A write through a pointer to the node of a live transaction.
unfoldable pub modify_txn : ℕ → (TxnNode → TxnNode) → Code Server (Unit {0})
modify_txn txnid f s = put (record s { txns = update_txn_node txnid f s.txns }) s

unfoldable pub count_up : (Counters → Counters) → Code Server (Unit {0})
count_up f s = put (record s { counters = f s.counters }) s
