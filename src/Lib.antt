-- ===== src/Lib.antt =====
-- Verification of the TxFS transaction server of TxFS_Mam/server.
--
-- The server runs file-system calls of client transactions under two-phase locking, applies their
-- writes when they commit and drops them when they abort, keeps a log, and lets a backup transaction
-- (number 0) read the whole file system beside them. A request comes to Reader.c, which calls a
-- handler of TxFS_manager.c; the handler asks Lock_manager1.c for a lock on the file, does the call
-- and logs it. A transaction that cannot have a lock sleeps in the wait list of the file
-- (Wait_list_manager.c), and one whose next file is on the other side of the backup is paused or
-- aborted (MS_manager.c).
--
-- Base and its children hold what the files share: tests on the native numbers, lists, the integers
-- `int` and `long` (Base.Int), and the state passing `Code S A` with the results `ok`, `fault` (a
-- pointer that is NULL or dangling is followed, an array is left, or a walk leaves a list) and
-- `out_of_fuel`. Header has the structures of my_header.h, and Server the global variables as one
-- record with global_init of Reader.c.
--
-- LockList has the list of locked files of Lock_manager1.c on an explicit heap of nodes:
-- search_file_list, get_file_node, free_file_node, delete_file_list and the parts of
-- insert_file_list and release_locks_on_success that write links; its children say what they do to
-- the list, which Chain describes as a sequence of addresses and locks. Txn has Txn_manager.c.
-- WaitList has Wait_list_manager.c, cut where a thread sleeps or waits for a mutex, and its child
-- Waiters the threads as a step relation. Pause has the array of paused transactions and Serial the
-- rest of MS_manager.c. Locking has the whole of insert_file_list, insert_same_txn_list and, from
-- Lock_manager2.c, resume. Release has release_locks_on_success, release_locks_on_abort and
-- release_locks_by_backup of backup_manager.c.
--
-- Log has the log file as bytes, and of Log_manager.c the records of begin, commit, abort, end and
-- write; its child Paths has those of rename, creation and removal. Handlers has on_txn_beg,
-- on_txn_commit, on_txn_abort and on_write of TxFS_manager.c, and the tests write_possible and
-- read_possible of Update_manager.c; it puts Log, Release and Txn together as the code does.
--
-- Update has the rest of Update_manager.c: write_log, update_on_lseek, rename_log, creat_log and
-- unlink_log, which note in the lock on a file or directory what was done and where the log says so.
--
-- Redo has what reads the log back when a transaction commits: delayed_write, delayed_rename,
-- delayed_creat, delayed_unlink and delayed_update. Its child Entries takes the log for a sequence of
-- records, and Durable puts write_log, log_txn_commit and delayed_write together.
--
-- Calls has the handlers of TxFS_manager.c for the calls on files: on_open, on_stat, on_inode_stat,
-- on_lseek, on_read, on_creat, on_unlink and, in its child Rename, on_rename and lock_subtree. They are
-- cut where a lock is waited for, and put Locking, Handlers and Update together as the code does.
--
-- Backup has online_bck of backup_manager.c, with the stack, the marks and the locks of the backup, and
-- what on_bck_beg of TxFS_manager.c does before and behind it. Its child Order says what tree is backed
-- up, and Idle what the backup does alone on the server.
--
-- Protocol has the messages of a connection, as handler of TxFS_Mam/server/Reader.c and call_execute of
-- TxFS_Mam/client/client.c send and take them; Protocol.Dispatch has what handler does for each call.
--
-- Deadlock has deadlock.c: the wait-for graph that a round of the detection builds of the waiting
-- transactions and the locks, the depth-first search for cycles in it, and the naming of a victim.
-- Its child Walk says what a cycle is.
--
-- A stretch of code that holds a mutex runs at once. on_txn_abort, which Handlers models, is a
-- parameter of Serial and Locking, and Calls gives it; delayed_update and delayed_write, which Redo
-- models, are parameters of Release, and Handlers gives them. on_bck_beg, which Backup models, is a
-- parameter of Protocol.Dispatch. The calls of YAFFS and of the kernel are parameters, and so is
-- read_bit, since the source never sets it. `malloc` is the address that a definition is given.
--
-- Integers are unbounded but for the begin record's number, which new_txn_insert takes as an `int`, and
-- for the numbers of the log, which have the bytes that `fwrite` gives them on a machine with an `int`
-- of 4 bytes and a `long` of 8. An inode, which deadlock.c keeps in an `int`, is taken to fit. A path
-- that does not fit the array that a handler copies it to is a fault.
--
-- write_log of Update_manager.c is not called any more: its call in on_write is commented out, and a
-- write goes to YAFFS at once. It is modelled all the same, with log_write and delayed_write, which
-- only matter with it; creations, removals and renames are still logged and noted as Update says. The
-- records of writes_at are not on a heap: update_one has the use of a freed record behind a rename as
-- a fault.
--
-- The loops of LockList, Locking and Release run on fuel, one unit for each round; the theorems say
-- how many rounds are enough, which is the length of the list, or one more where the loop tests
-- before it ends; the traversal of Backup needs one for each file and one more. The loops over the
-- array of paused transactions run their rounds by the index.
--
-- Not modelled: do_read_old of Update_manager.c, which nothing calls; main, the sockets, the threads and
-- the result log of Reader.c; backup_manager_working.c, an earlier backup_manager.c; YAFFS itself, which
-- is another project's; prints and sleeping; the sockets of client/client.c, the load generator
-- client/transaction.c and the traces.
pub mod Base
pub mod Header
pub mod LockList
pub mod Txn
pub mod WaitList
pub mod Pause
pub mod Server
pub mod Serial
pub mod Locking
pub mod Release
pub mod Log
pub mod Handlers
pub mod Deadlock
pub mod Update
pub mod Redo
pub mod Calls
pub mod Backup
pub mod Protocol
