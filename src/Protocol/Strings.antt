-- ===== src/Protocol/Strings.antt =====
-- How many strings of a call are read.
use backup_lfs.Base.{
  ℕ, zero, suc, ◌<◌, ◌≡◌, refl, List, [], ◌∷◌, ◌++◌, arith, length, get_elem?, fault,
}
use backup_lfs.Calls.{Outside}
use backup_lfs.Protocol.{
  Call, txn_beg, open_call, txn_commit, txn_abort, quit, write_call, lseek_call, read_call,
  rename_call, creat_call, unlink_call, stat_call, inode_stat, bck_beg, unknown, no_of_arg,
  strings_read,
}
use backup_lfs.Protocol.Dispatch.{Session, Around, dispatch}

get_elem?-append :
    (xs ys : List (List ℕ)) (i : ℕ) → i < length xs → get_elem? (xs ++ ys) i ≡ get_elem? xs i
get_elem?-append [] ys i short = absurd (omega arith)
get_elem?-append (x ∷ xs) ys zero short = refl
get_elem?-append (x ∷ xs) ys (suc i) short = get_elem?-append xs ys i (omega arith)

same-strings :
    (o : Outside) (a : Around) (fuel : ℕ) (c : Call) (incall more : List (List ℕ)) (s : Session)
    → length incall ≡ strings_read c
    → dispatch o a fuel c (incall ++ more) s ≡ dispatch o a fuel c incall s
unfolding dispatch strings_read
same-strings o a fuel txn_beg incall more s e =
    rw (get_elem?-append incall more 1 (omega arith)) refl
same-strings o a fuel open_call incall more s e =
    rw (get_elem?-append incall more 1 (omega arith), get_elem?-append incall more 2 (omega arith))
      refl
same-strings o a fuel txn_commit incall more s e = refl
same-strings o a fuel txn_abort incall more s e = refl
same-strings o a fuel quit incall more s e = refl
same-strings o a fuel write_call incall more s e =
    rw
      (
        get_elem?-append incall more 1 (omega arith),
        get_elem?-append incall more 2 (omega arith),
        get_elem?-append incall more 3 (omega arith),
      )
      refl
same-strings o a fuel lseek_call incall more s e =
    rw
      (
        get_elem?-append incall more 1 (omega arith),
        get_elem?-append incall more 2 (omega arith),
        get_elem?-append incall more 3 (omega arith),
      )
      refl
same-strings o a fuel read_call incall more s e =
    rw (get_elem?-append incall more 1 (omega arith), get_elem?-append incall more 3 (omega arith))
      refl
same-strings o a fuel rename_call incall more s e =
    rw (get_elem?-append incall more 1 (omega arith), get_elem?-append incall more 2 (omega arith))
      refl
same-strings o a fuel creat_call incall more s e =
    rw (get_elem?-append incall more 1 (omega arith), get_elem?-append incall more 2 (omega arith))
      refl
same-strings o a fuel unlink_call incall more s e =
    rw (get_elem?-append incall more 1 (omega arith)) refl
same-strings o a fuel stat_call incall more s e =
    rw (get_elem?-append incall more 1 (omega arith)) refl
same-strings o a fuel inode_stat incall more s e =
    rw (get_elem?-append incall more 1 (omega arith)) refl
same-strings o a fuel bck_beg incall more s e =
    rw (get_elem?-append incall more 1 (omega arith), get_elem?-append incall more 2 (omega arith))
      refl
same-strings o a fuel unknown incall more s e = refl

txn_beg-fault :
    (o : Outside) (a : Around) (fuel : ℕ) (taken : List (List ℕ)) (s : Session)
    → length taken ≡ 1
    → dispatch o a fuel txn_beg taken s ≡ fault
unfolding dispatch
txn_beg-fault o a fuel [] s e = refl
txn_beg-fault o a fuel (x ∷ []) s e = refl
txn_beg-fault o a fuel (x ∷ y ∷ xs) s e = absurd (omega arith)

-- What the server does for a call depends on the first strings only, of which there are as many as it
-- is said to read; for `txn_beg`, with the strings that it has taken in this round, it follows a pointer
-- that has not been set, or that was freed after the round before.
pub dispatch-strings_read :
    (o : Outside) (a : Around) (fuel : ℕ) (c : Call) (incall more : List (List ℕ)) (s : Session)
    (before : ℕ) (taken : List (List ℕ))
    → length incall ≡ strings_read c
    → length taken ≡ no_of_arg before txn_beg
    → (dispatch o a fuel c (incall ++ more) s ≡ dispatch o a fuel c incall s)
      × (dispatch o a fuel txn_beg taken s ≡ fault)
unfolding no_of_arg
dispatch-strings_read o a fuel c incall more s before taken e f =
    (same-strings o a fuel c incall more s e, txn_beg-fault o a fuel taken s f)
