-- ===== src/LockList/Tests.antt =====
-- Small lists of locks: what the operations do to them, and the theorems at them.
use backup_lfs.Base.{◌≡◌, refl, true, none, some, [], ◌∷◌, arith, ok, fault}
use backup_lfs.Base.Int.{pos}
use backup_lfs.Header.{Ptr, FileLock}
use backup_lfs.LockList.{
  Locks, write, file_node, search_file_list, link_file_node, delete_file_list, link_shared_node,
  last_shared,
}
use backup_lfs.LockList.Chain.{lock_of, Cells, IsLockList, IsOrdered, IsValid, IsNew}
use backup_lfs.LockList.Search.{holds, MemLock, search_cells, search_file_list-holds}
use backup_lfs.LockList.Place.{place}
use backup_lfs.LockList.Insert.{link_file_node-IsValid}
use backup_lfs.LockList.Join.{link_shared_node-IsValid}
use backup_lfs.LockList.Leave.{delete_file_list-dangles}
use backup_lfs.LockList.Delete.{delete_file_list-remove}

-- Transaction 1 writes file 5, transactions 2 and 3 read file 8.
abbrev first : FileLock
first = record (file_node 5 (pos 0) 2 1) { next = 20; prev = 10 }

abbrev second : FileLock
second = record (file_node 8 (pos 0) 0 2) { next = 30; prev = 10; next_shared_rec = 30 }

abbrev third : FileLock
third = record (file_node 8 (pos 0) 0 3) { prev = 20; prev_shared_rec = 20 }

abbrev newcomer : FileLock
newcomer = file_node 7 (pos 0) 1 4

abbrev three : Locks
three =
    write (write (write (record { cell = λ _. none; head = 10 }) 10 (some first)) 20 (some second))
      30 (some third)

abbrev cells : Cells
cells = (10, lock_of first) ∷ (20, lock_of second) ∷ (30, lock_of third) ∷ []

three-IsLockList : IsLockList three cells
three-IsLockList = (
  first,
  refl,
  omega arith,
  refl,
  refl,
  refl,
  refl,
  (
    second,
    refl,
    omega arith,
    refl,
    refl,
    refl,
    refl,
    (third, refl, omega arith, refl, refl, refl, refl, refl),
  ),
)

cells-IsOrdered : IsOrdered cells
cells-IsOrdered = ground arith

search_file_list-holds_example :
    (loc : Ptr) × (search_file_list 3 8 three ≡ ok ((1, loc), three))
    × (holds 8 cells ≡ true → MemLock 8 loc cells)
search_file_list-holds_example =
    search_file_list-holds 3 8 three cells three-IsLockList cells-IsOrdered (omega arith)

abbrev four : Locks
four = write three 40 (some newcomer)

four-IsLockList : IsLockList four cells
four-IsLockList = (
  first,
  refl,
  omega arith,
  refl,
  refl,
  refl,
  refl,
  (
    second,
    refl,
    omega arith,
    refl,
    refl,
    refl,
    refl,
    (third, refl, omega arith, refl, refl, refl, refl, refl),
  ),
)

four-IsValid : IsValid four cells
four-IsValid = record {
  linked = four-IsLockList;
  ordered = cells-IsOrdered;
  chained = (λ n at. ground arith, (λ n at. ground arith, (λ n at. ground arith, tt)));
}

newcomer-IsNew : IsNew four 40 newcomer 7 cells
newcomer-IsNew = record {
  ne = omega arith;
  at = refl;
  inode = refl;
  last = refl;
  alone = refl;
  out = refl;
}

link_file_node-IsValid_example :
    (s' : Locks) × (link_file_node 7 (search_cells 7 cells).1 40 four ≡ ok (tt, s'))
    × IsValid s' (place (40, lock_of newcomer) cells)
link_file_node-IsValid_example =
    link_file_node-IsValid four 7 40 newcomer cells newcomer-IsNew four-IsValid refl

-- Transaction 4 asks to read file 8.
abbrev reader : FileLock
reader = file_node 8 (pos 0) 0 4

abbrev five : Locks
five = write three 40 (some reader)

five-IsValid : IsValid five cells
five-IsValid = record {
  linked = four-IsLockList;
  ordered = cells-IsOrdered;
  chained = (λ n at. ground arith, (λ n at. ground arith, (λ n at. ground arith, tt)));
}

reader-IsNew : IsNew five 40 reader 8 cells
reader-IsNew = record {
  ne = omega arith;
  at = refl;
  inode = refl;
  last = refl;
  alone = refl;
  out = refl;
}

link_shared_node-IsValid_example :
    (s' : Locks) × (link_shared_node 3 20 40 five ≡ ok (tt, s'))
    × IsValid s' (place (40, lock_of reader) cells)
link_shared_node-IsValid_example =
    link_shared_node-IsValid five 3 8 40 reader 20 (lock_of second) ((10, lock_of first) ∷ [])
      ((30, lock_of third) ∷ []) reader-IsNew five-IsValid refl refl refl (omega arith)

delete_file_list-dangles_example :
    (s' : Locks) × (delete_file_list 30 five ≡ ok (tt, s')) × (last_shared 2 20 s' ≡ fault)
delete_file_list-dangles_example =
    delete_file_list-dangles five 20 30 (lock_of second) (lock_of third) ((10, lock_of first) ∷ [])
      [] 0 five-IsValid.linked five-IsValid.chained refl

delete_file_list-remove_example :
    (s' : Locks) × (delete_file_list 20 three ≡ ok (tt, s'))
    × IsLockList s' ((10, lock_of first) ∷ (30, lock_of third) ∷ [])
    × (s'.cell 20 ≡ none)
delete_file_list-remove_example =
    delete_file_list-remove three 20 (lock_of second) ((10, lock_of first) ∷ [])
      ((30, lock_of third) ∷ []) three-IsLockList

-- The second node of file 8 is found when the list begins with that file.
abbrev two : Locks
two =
    write (write (record { cell = λ _. none; head = 20 }) 20 (some (record second { prev = 20 })))
      30 (some third)

finds_second : search_file_list 2 8 two ≡ ok ((1, 30), two)
unfolding search_file_list
finds_second = refl
