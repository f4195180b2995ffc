-- ===== src/WaitList/Tests.antt =====
-- Two transactions that wait for a file, one of them named to be aborted.
use backup_lfs.Base.{◌≡◌, ◌==◌, refl, Bool, some, List, [], ◌∷◌, ok}
use backup_lfs.Header.{WaitNode}
use backup_lfs.WaitList.{
  get_wait_node, enter_wait_list, Wake, sleeps, on_wake, wait_for_others, leave_to_abort, doom,
}
use backup_lfs.WaitList.Waiters.{
  waiter, Station, asleep, woken, enter, wakes, dooms, Reachable, start, step,
}
use backup_lfs.WaitList.Safety.{Counted, Reachable-Counted, waiter-Runs}

abbrev crowd : List WaitNode
crowd = record (get_wait_node 5) { in_wait = 2; txnid_abort = some 1 } ∷ []

doom_run : doom 5 1 (enter_wait_list 5 (enter_wait_list 5 [])) ≡ ok (tt, crowd)
unfolding doom enter_wait_list get_wait_node
doom_run = refl

abbrev station : Station
station = record { waits = crowd; waiters = waiter 2 5 woken ∷ waiter 1 5 asleep ∷ [] }

station-Reachable : Reachable station
station-Reachable =
    step _ _
      (step _ _
        (step _ _ (step _ _ start (enter [] 1 5 []))
          (enter (enter_wait_list 5 []) 2 5 (waiter 1 5 asleep ∷ [])))
        (dooms _ crowd 1 5 (waiter 2 5 asleep ∷ waiter 1 5 asleep ∷ []) doom_run))
      (wakes crowd 2 5 [] (waiter 1 5 asleep ∷ []))

Reachable-Counted_example : Counted crowd (waiter 2 5 woken ∷ waiter 1 5 asleep ∷ [])
Reachable-Counted_example = Reachable-Counted station station-Reachable

waiter-Runs_example :
    ((r : Wake) × (ws : List WaitNode) × (on_wake 5 2 crowd ≡ ok (r, ws)))
    × ((b : Bool) × (wait_for_others 5 crowd ≡ ok (b, crowd)))
    × ((ws : List WaitNode) × (leave_to_abort 5 crowd ≡ ok (tt, ws)))
waiter-Runs_example =
    waiter-Runs station 2 5 woken [] (waiter 1 5 asleep ∷ []) station-Reachable refl

-- The other transaction sleeps again, and the one that is to be aborted was not the last.
other_sleeps :
    on_wake 5 2 crowd
    ≡ ok (
      sleeps (1 == 2),
      record (get_wait_node 5) { in_wait = 2; txnid_abort = some 1; woke_up = 1 } ∷ [],
    )
unfolding on_wake get_wait_node
other_sleeps = refl
