-- ===== src/Protocol.antt =====
-- The messages between a client and its thread in the server: `handler` of TxFS_Mam/server/Reader.c
-- and `call_execute` of TxFS_Mam/client/client.c. Each `read` and `write` of the socket is taken to
-- move one whole message.
pub mod Dual
pub mod Dispatch
pub mod Strings
mod Tests
use backup_lfs.Base.{
  ℕ, zero, suc, ◌+◌, ◌-◌, Bool, true, false, if◌then◌else◌, Option, none, some, List, [], ◌∷◌, ◌++◌,
}

-- The texts that `incall[0]` is compared with, and any other.
pub data Call : Type 0 where
  txn_beg open_call txn_commit txn_abort quit write_call lseek_call read_call : Call
  rename_call creat_call unlink_call stat_call inode_stat bck_beg unknown : Call

-- A string of the call, the reply to it, the result, what a read has read, and the reply to that.
pub data Message : Type 0 where
  argument : ℕ → Message
  received answer contents ack : Message

pub data Action : Type 0 where
  sends receives : Message → Action

-- The number of strings that the server takes for a call; another text leaves the number of the call
-- before.
unfoldable pub no_of_arg : (before : ℕ) → Call → ℕ
no_of_arg before txn_beg = 1
no_of_arg before open_call = 3
no_of_arg before txn_commit = 1
no_of_arg before txn_abort = 1
no_of_arg before quit = 1
no_of_arg before write_call = 4
no_of_arg before lseek_call = 4
no_of_arg before read_call = 4
no_of_arg before rename_call = 3
no_of_arg before creat_call = 3
no_of_arg before unlink_call = 2
no_of_arg before stat_call = 2
no_of_arg before bck_beg = 3
no_of_arg before inode_stat = 2
no_of_arg before unknown = before

-- `i = 1; while(i < no_of_arg)`: so many more strings, from the one with the index on.
unfoldable pub take_arguments : (i more : ℕ) → List Action
take_arguments i zero = []
take_arguments i (suc k) = receives (argument i) ∷ sends received ∷ take_arguments (i + 1) k

-- A message of no bytes is none.
abbrev pub sends_bytes : ℕ → Message → List Action
sends_bytes zero m = []
sends_bytes (suc n) m = sends m ∷ []

-- What the server sends and takes when it has done the call; `bytes_read` is what `on_read` has read,
-- nothing where it has not read.
unfoldable pub reply : (bytes_read : ℕ) → Call → List Action
reply bytes_read read_call = sends_bytes bytes_read contents ++ receives ack ∷ sends answer ∷ []
reply bytes_read unknown = []
reply bytes_read _ = sends answer ∷ []

-- One round of the loop of `handler`.
unfoldable pub handler_round : (before bytes_read : ℕ) → Call → List Action
unfolding no_of_arg take_arguments reply
handler_round before bytes_read c =
    receives (argument 0)
    ∷ sends received
    ∷ (take_arguments 1 (no_of_arg before c - 1) ++ reply bytes_read c)

-- How many strings of `incall` the server reads when it does the call, with what its handler reads.
unfoldable pub strings_read : Call → ℕ
strings_read txn_beg = 2
strings_read open_call = 3
strings_read txn_commit = 1
strings_read txn_abort = 1
strings_read quit = 1
strings_read write_call = 4
strings_read lseek_call = 4
strings_read read_call = 4
strings_read rename_call = 3
strings_read creat_call = 3
strings_read unlink_call = 2
strings_read stat_call = 2
strings_read bck_beg = 3
strings_read inode_stat = 2
strings_read unknown = 1

-- The number of strings that the client sends for a call; for another text it has no value.
unfoldable pub client_no_of_arg : Call → Option ℕ
client_no_of_arg txn_beg = some 2
client_no_of_arg open_call = some 3
client_no_of_arg txn_commit = some 1
client_no_of_arg txn_abort = some 1
client_no_of_arg quit = some 1
client_no_of_arg write_call = some 4
client_no_of_arg lseek_call = some 4
client_no_of_arg read_call = some 4
client_no_of_arg rename_call = some 3
client_no_of_arg creat_call = some 3
client_no_of_arg unlink_call = some 2
client_no_of_arg stat_call = some 3
client_no_of_arg bck_beg = some 3
client_no_of_arg inode_stat = some 2
client_no_of_arg unknown = none

-- `do{ … i++; }while(i<no_of_arg);`, with `strlen(argcalls[i])`, the bytes that are sent of a string.
unfoldable pub send_arguments : (sizes : ℕ → ℕ) (i more : ℕ) → List Action
send_arguments sizes i zero = []
send_arguments sizes i (suc k) =
    sends_bytes (sizes i) (argument i) ++ receives received ∷ send_arguments sizes (i + 1) k

unfoldable pub await : Call → List Action
await read_call = receives contents ∷ sends ack ∷ receives answer ∷ []
await _ = receives answer ∷ []

abbrev pub executed : (sizes : ℕ → ℕ) → Call → Option ℕ → Option (List Action)
executed sizes c none = none
executed sizes c (some n) = some (send_arguments sizes 0 n ++ await c)

unfoldable pub call_execute : (sizes : ℕ → ℕ) → Call → Option (List Action)
unfolding client_no_of_arg send_arguments await
call_execute sizes c = executed sizes c (client_no_of_arg c)

abbrev pub is_quit : Call → Bool
is_quit quit = true
is_quit _ = false

-- A call in a session: its name, the bytes of its strings, which are `argcalls` for the client, and of
-- what a read reads.
pub record Request : Type 0 where
  pub call : Call
  pub sizes : ℕ → ℕ
  pub bytes_read : ℕ

-- The loop of `handler` over the calls of a client; it ends with `quit`.
unfoldable pub handler : (before : ℕ) → List Request → List Action
handler before [] = []
handler before (r ∷ rs) =
    let rest = handler (no_of_arg before r.call) rs in
    handler_round before r.bytes_read r.call ++ (if is_quit r.call then [] else rest)

abbrev pub followed_by : Option (List Action) → Option (List Action) → Option (List Action)
followed_by none further = none
followed_by (some actions) none = none
followed_by (some actions) (some further) = some (actions ++ further)

-- The client's calls, one after the other; behind `quit` it closes its socket.
unfoldable pub calls : List Request → Option (List Action)
calls [] = some []
calls (r ∷ rs) =
    let rest = calls rs in
    followed_by (call_execute r.sizes r.call) (if is_quit r.call then some [] else rest)
