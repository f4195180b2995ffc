-- ===== src/Serial.antt =====
-- The check that a transaction stays serializable against the backup, TxFS_Mam/server/MS_manager.c.
-- `on_txn_abort` of TxFS_Mam/server/TxFS_manager.c is a parameter. The code lets go of `file_mutex`
-- before it pauses or aborts; it does not run beside others here. The prints and the sleep are left
-- out.
pub mod Verdict
mod Tests
use backup_lfs.Base.{ℕ, suc, ◌+◌, ◌==◌, if◌then◌else◌, ◌&&◌, Code, pure, ◌>>=◌, ◌>>◌, get}
use backup_lfs.Base.Int.{ℤ, pos, minus_one}
use backup_lfs.Header.{null, TxnNode, running}
use backup_lfs.Pause.{Turn, first_pause, pause_again, too_often, take_turn, clear_pauses}
use backup_lfs.Server.{Server, on_pauses, load_txn, modify_txn, count_up}

-- The end of a pause.
unfoldable pub end_pause : (txnid : ℕ) → Code Server ℤ
unfolding modify_txn count_up
end_pause txnid = do
  modify_txn txnid (λ t. record t { cur_state = running })
  count_up (λ c. record c { total_wait_time = c.total_wait_time + 2 })
  pure (pos 0)

unfoldable pub pause_or_abort :
    (on_txn_abort : ℕ → Code Server ℤ) (txnid : ℕ) → Turn → Code Server ℤ
unfolding count_up end_pause
pause_or_abort on_txn_abort txnid too_often = do
  count_up (λ c. record c { abrt_after_pause = c.abrt_after_pause + 1 })
  _ ← on_txn_abort txnid
  pure minus_one
pause_or_abort on_txn_abort txnid pause_again = end_pause txnid
pause_or_abort on_txn_abort txnid first_pause = do
  count_up (λ c. record c { no_on_wait = c.no_on_wait + 1 })
  end_pause txnid

unfoldable pub mutually_serializable :
    (on_txn_abort : ℕ → Code Server ℤ) (txnid files_read_bit : ℕ) → Code Server ℤ
unfolding load_txn count_up pause_or_abort
mutually_serializable on_txn_abort txnid files_read_bit = do
  t ← load_txn txnid
  if t.file_rec_no == null
      then pure (pos 1)
      else if files_read_bit == t.before_after
      then (do
        s ← get
        on_pauses (clear_pauses (suc s.pauses.index_pause_array) 0 txnid)
        pure (pos 1))
      else if (files_read_bit == 0) && (t.before_after == 1)
      then (do turn ← on_pauses (take_turn txnid); pause_or_abort on_txn_abort txnid turn)
      else (do
        count_up (λ c. record c { no_of_abrt = c.no_of_abrt + 1 })
        _ ← on_txn_abort txnid
        pure minus_one)
