-- ===== src/Pause.antt =====
-- The array of paused transactions, TxFS_Mam/server/my_header.h and the parts of
-- TxFS_Mam/server/MS_manager.c that read and write it. The array has 100 entries, all zero at first,
-- and an access behind them is a fault.
pub mod Turns
pub mod Clear
mod Tests
use backup_lfs.Base.{
  ℕ, zero, suc, ◌+◌, Option, none, some, List, Bool, true, false, ltb, ◌==◌, if◌then◌else◌,
  get_elem?, set, replicate, Code, pure, ◌>>=◌, ◌>>◌, get, put, or_fault, crash, length,
}
use backup_lfs.Header.{PauseNode}

pub record Pauses : Type 0 where
  pub pause_array : List PauseNode
  pub index_pause_array : ℕ

-- What `global_init` leaves: zeros in the array, which no code sets at the start.
abbrev pub no_pauses : Pauses
no_pauses = record {
  pause_array = replicate 100 (record { txnid = some 0; pause_times = 0 });
  index_pause_array = 0;
}

abbrev pub is_of : ℕ → PauseNode → Bool
is_of txnid p = elim p.txnid [ none ↦ false | some t ↦ t == txnid ]

unfoldable pub load_pause : ℕ → Code Pauses PauseNode
load_pause i s = or_fault (get_elem? s.pause_array i) s

unfoldable pub store_pause : ℕ → PauseNode → Code Pauses (Unit {0})
store_pause i p s =
    if ltb i (length s.pause_array)
    then put (record s { pause_array = set s.pause_array i p }) s
    else crash s

-- `for(i=…;i<=index_pause_array;i++)` with the rounds that are left: the first entry of the
-- transaction, or the index behind the last round.
unfoldable pub pause_search : (rounds i txnid : ℕ) → Code Pauses ℕ
pause_search zero i txnid = pure i
pause_search (suc k) i txnid = do
  p ← load_pause i
  if is_of txnid p then pure i else pause_search k (suc i) txnid

-- The same loop where it clears the transaction's entries.
unfoldable pub clear_pauses : (rounds i txnid : ℕ) → Code Pauses (Unit {0})
unfolding store_pause
clear_pauses zero i txnid = pure tt
clear_pauses (suc k) i txnid = do
  p ← load_pause i
  if is_of txnid p then store_pause i (record { txnid = none; pause_times = 0 }) else pure tt
  clear_pauses k (suc i) txnid

-- A transaction is paused for the first time, paused once more, or was paused too often.
pub data Turn : Type 0 where
  first_pause pause_again too_often : Turn

-- Lines 57 to 78, with the entry that the search ended at.
unfoldable pub turn_at : (i txnid : ℕ) → Code Pauses Turn
unfolding load_pause store_pause
turn_at i txnid = do
  s ← get
  p ← load_pause i
  if is_of txnid p
      then (if ltb 5 p.pause_times
          then pure too_often
          else (do store_pause i (record p { pause_times = p.pause_times + 1 }); pure pause_again))
      else (do
        put (record s { index_pause_array = s.index_pause_array + 1 })
        store_pause (s.index_pause_array + 1) (record { txnid = some txnid; pause_times = 1 })
        pure first_pause)

unfoldable pub take_turn : (txnid : ℕ) → Code Pauses Turn
take_turn txnid = do s ← get; i ← pause_search (suc s.index_pause_array) 0 txnid; turn_at i txnid
