-- ===== src/Backup/Tests.antt =====
-- A backup of "/", a directory with one file, "a", and a hidden one.
use backup_lfs.Base.{
  ℕ, ◌≡◌, refl, some, List, [], ◌∷◌, ◌++◌, ok, arith, Code, pure, true, false, length, ◌==◌,
  if◌then◌else◌,
}
use backup_lfs.Base.Int.{ℤ, pos}
use backup_lfs.Txn.{get_txn_node, find_txn}
use backup_lfs.Server.{Server, global_init}
use backup_lfs.Backup.{Stat, Kernel, Traversal, visited, traverse}
use backup_lfs.Backup.Idle.{IsIdle}
use backup_lfs.Backup.Order.{Forest, nothing, file, directory, order}
use backup_lfs.Backup.Visits.{IsKernel, backed_up}
use backup_lfs.Backup.Whole.{traverse-Finishes}

abbrev a_directory : Stat
a_directory = record { inode = 1; is_dir = true; is_reg = false; sticky = false }

abbrev a_file : Stat
a_file = record { inode = 2; is_dir = false; is_reg = true; sticky = false }

-- The state is the backup file.
abbrev kernel : Kernel (List ℕ)
kernel = record {
  stat = λ path w. some (if length path == 1 then a_directory else a_file);
  readdir = λ path w. (97 ∷ []) ∷ (46 ∷ []) ∷ [];
  chmod = λ path sticky w. w;
  write = λ text w. w ++ text;
  copying = λ w. w;
  open_read = λ path w. pos 3;
}

laws : IsKernel (List ℕ) kernel
laws = record {
  chmod-Similar = λ p b w. (λ q st e. (st, e, refl, refl), λ q. refl);
  write-Similar = λ text w. (λ q st e. (st, e, refl, refl), λ q. refl);
  copying-Similar = λ w. (λ q st e. (st, e, refl, refl), λ q. refl);
}

abbrev tree : Forest
tree = directory (47 ∷ []) (file (47 ∷ 47 ∷ 97 ∷ []) nothing) nothing

abbrev server : Server
server = record (global_init []) { txns = get_txn_node 0 (pos 0) ∷ [] }

server-IsIdle : IsIdle server
unfolding global_init get_txn_node find_txn
server-IsIdle = record {
  empty = refl;
  free = λ a. refl;
  nobody = refl;
  client = get_txn_node 0 (pos 0);
  live = refl;
  lockless = refl;
}

abbrev begun : Traversal (List ℕ)
begun = record { server = server; disk = []; stack = (47 ∷ []) ∷ []; read_indicate = true }

abbrev decimal : ℕ → List ℕ
decimal n = 48 ∷ []

abbrev never_aborts : ℕ → Code Server ℤ
never_aborts txnid = pure (pos 0)

traverse-Finishes_example :
    (u : Server) × (traverse (List ℕ) kernel decimal never_aborts 1 0 (λ k. 40) 3 begun
      ≡ ok (
        visited,
        record begun {
          server = u;
          disk = backed_up (List ℕ) kernel decimal (order tree) [];
          stack = [];
        },
      ))
    × IsIdle u
traverse-Finishes_example =
    traverse-Finishes (List ℕ) kernel decimal laws never_aborts 0 0 (λ k. 40) (λ k. omega arith) 3
      tree begun server-IsIdle refl
      (
        a_directory,
        refl,
        refl,
        omega arith,
        (omega arith, (omega arith, tt)),
        refl,
        (a_file, refl, refl, refl, omega arith, tt),
        tt,
      )
      (omega arith) (omega arith)
