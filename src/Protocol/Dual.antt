-- ===== src/Protocol/Dual.antt =====
-- Where the client and the server agree on the messages of a call.
use backup_lfs.Base.{
  ◌+◌, ℕ, zero, suc, ◌≤◌, ◌<◌, ◌≡◌, refl, some, List, [], ◌∷◌, map, arith, true, false, Bool,
}
use backup_lfs.Protocol.{
  Call, txn_beg, open_call, txn_commit, txn_abort, quit, write_call, lseek_call, read_call,
  rename_call, creat_call, unlink_call, stat_call, inode_stat, bck_beg, unknown, Message, Action,
  sends, receives, argument, sends_bytes, Request, no_of_arg, take_arguments, reply, handler_round,
  strings_read, client_no_of_arg, send_arguments, await, call_execute,
}

abbrev pub dual : Action → Action
dual (sends m) = receives m
dual (receives m) = sends m

-- Each string of the call has a byte.
abbrev pub HasBytes : (sizes : ℕ → ℕ) → Type 0
HasBytes sizes = (i : ℕ) → 1 ≤ sizes i

-- The client's part of a call is the server's with sending and receiving exchanged.
abbrev pub IsDual : (before bytes_read : ℕ) (sizes : ℕ → ℕ) → Call → Type 0
IsDual before bytes_read sizes c =
    call_execute sizes c ≡ some (map dual (handler_round before bytes_read c))

abbrev pub is_odd_one : Call → (bytes_read : ℕ) → Bool
is_odd_one txn_beg n = true
is_odd_one stat_call n = true
is_odd_one unknown n = true
is_odd_one read_call zero = true
is_odd_one _ n = false

sends_bytes-some : (n : ℕ) (m : Message) → 1 ≤ n → sends_bytes n m ≡ sends m ∷ []
sends_bytes-some zero m some_bytes = absurd (omega arith)
sends_bytes-some (suc n) m some_bytes = refl

send_arguments-dual :
    (sizes : ℕ → ℕ) (i k : ℕ)
    → HasBytes sizes
    → send_arguments sizes i k ≡ map dual (take_arguments i k)
unfolding send_arguments take_arguments
send_arguments-dual sizes i zero has = refl
send_arguments-dual sizes i (suc k) has =
    rw (sends_bytes-some (sizes i) (argument i) (has i), send_arguments-dual sizes (i + 1) k has)
      refl

pub call_execute-IsDual :
    (before bytes_read : ℕ) (sizes : ℕ → ℕ) (c : Call)
    → HasBytes sizes
    → is_odd_one c bytes_read ≡ false
    → IsDual before bytes_read sizes c
unfolding call_execute client_no_of_arg await handler_round no_of_arg take_arguments reply
call_execute-IsDual before n sizes txn_beg has e = absurd cc
call_execute-IsDual before n sizes stat_call has e = absurd cc
call_execute-IsDual before n sizes unknown has e = absurd cc
call_execute-IsDual before zero sizes read_call has e = absurd cc
call_execute-IsDual before (suc n) sizes read_call has e =
    rw (send_arguments-dual sizes 0 4 has) refl
call_execute-IsDual before n sizes open_call has e = rw (send_arguments-dual sizes 0 3 has) refl
call_execute-IsDual before n sizes txn_commit has e = rw (send_arguments-dual sizes 0 1 has) refl
call_execute-IsDual before n sizes txn_abort has e = rw (send_arguments-dual sizes 0 1 has) refl
call_execute-IsDual before n sizes quit has e = rw (send_arguments-dual sizes 0 1 has) refl
call_execute-IsDual before n sizes write_call has e = rw (send_arguments-dual sizes 0 4 has) refl
call_execute-IsDual before n sizes lseek_call has e = rw (send_arguments-dual sizes 0 4 has) refl
call_execute-IsDual before n sizes rename_call has e = rw (send_arguments-dual sizes 0 3 has) refl
call_execute-IsDual before n sizes creat_call has e = rw (send_arguments-dual sizes 0 3 has) refl
call_execute-IsDual before n sizes unlink_call has e = rw (send_arguments-dual sizes 0 2 has) refl
call_execute-IsDual before n sizes inode_stat has e = rw (send_arguments-dual sizes 0 2 has) refl
call_execute-IsDual before n sizes bck_beg has e = rw (send_arguments-dual sizes 0 3 has) refl

-- At each call the server reads no more strings than it has taken.
abbrev pub ReadsTaken : (before : ℕ) → List Request → Type 0
ReadsTaken before [] = Unit
ReadsTaken before (r ∷ rs) =
    (strings_read r.call ≤ no_of_arg before r.call) × ReadsTaken (no_of_arg before r.call) rs

-- A call that the server knows, which is not txn_beg or stat, whose strings have a byte each, and which
-- reads a byte where it is a read.
abbrev pub IsUsual : Request → Type 0
IsUsual r = HasBytes r.sizes × (is_odd_one r.call r.bytes_read ≡ false)

-- For `txn_beg` the server takes fewer strings than the client sends and than it reads itself, and for
-- `stat` fewer than the client sends.
pub txn_beg-no_of_arg :
    (before n m : ℕ)
    → client_no_of_arg txn_beg ≡ some n
    → client_no_of_arg stat_call ≡ some m
    → (no_of_arg before txn_beg < n)
      × (no_of_arg before txn_beg < strings_read txn_beg)
      × (no_of_arg before stat_call < m)
unfolding client_no_of_arg no_of_arg strings_read
txn_beg-no_of_arg before n m e f = (ground (arith, e), omega arith, ground (arith, f))
