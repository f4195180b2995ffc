-- ===== src/WaitList/Waiters.antt =====
-- The threads in the wait list as a step relation. A thread runs from one sleep or lock of a mutex
-- to the next without others; a broadcast wakes the sleepers one by one, and a thread may also wake
-- up with no signal, as POSIX allows.
use backup_lfs.Base.{ℕ, suc, ◌≡◌, Bool, List, [], ◌∷◌, ◌++◌, ◌==◌, if◌then◌else◌, ok}
use backup_lfs.Header.{WaitNode}
use backup_lfs.WaitList.{
  enter_wait_list, doom, on_wake, wait_for_others, leave_to_abort, Wake, sleeps, resumes, aborts,
  holds_back,
}

-- In `pthread_cond_wait` on `f_lock`; woken up there; before the lock of `wake_mutex`; in
-- `pthread_cond_wait` on `wake_cond`; before the lock of `file_mutex`.
pub data Stage : Type 0 where
  asleep woken unlocked held leaving : Stage

pub record Waiter : Type 0 where
  pub txnid : ℕ
  pub f_inode : ℕ
  pub stage : Stage

pub record Station : Type 0 where
  pub waits : List WaitNode
  pub waiters : List Waiter

abbrev pub waiter : ℕ → ℕ → Stage → Waiter
waiter t f p = record { txnid = t; f_inode = f; stage = p }

-- The threads that are left when a woken thread of `t` has run.
abbrev pub after_wake : (t f : ℕ) → Wake → List Waiter → List Waiter
after_wake t f (sleeps b) post = waiter t f asleep ∷ post
after_wake t f holds_back post = waiter t f unlocked ∷ post
after_wake t f resumes post = post
after_wake t f aborts post = post

pub data Step : Station → Station → Type 0 where
  enter :
      (ws : List WaitNode) (t f : ℕ) (ts : List Waiter)
      → Step
          (record { waits = ws; waiters = ts })
          (record { waits = enter_wait_list f ws; waiters = waiter t f asleep ∷ ts })
  wakes :
      (ws : List WaitNode) (t f : ℕ) (pre post : List Waiter)
      → Step
          (record { waits = ws; waiters = pre ++ waiter t f asleep ∷ post })
          (record { waits = ws; waiters = pre ++ waiter t f woken ∷ post })
  dooms :
      (ws ws' : List WaitNode) (t f : ℕ) (ts : List Waiter)
      → doom f t ws ≡ ok (tt, ws')
      → Step (record { waits = ws; waiters = ts }) (record { waits = ws'; waiters = ts })
  runs :
      (ws ws' : List WaitNode) (t f : ℕ) (r : Wake) (pre post : List Waiter)
      → on_wake f t ws ≡ ok (r, ws')
      → Step
          (record { waits = ws; waiters = pre ++ waiter t f woken ∷ post })
          (record { waits = ws'; waiters = pre ++ after_wake t f r post })
  tests :
      (ws ws' : List WaitNode) (t f : ℕ) (b : Bool) (pre post : List Waiter)
      → wait_for_others f ws ≡ ok (b, ws')
      → Step
          (record { waits = ws; waiters = pre ++ waiter t f unlocked ∷ post })
          (record { waits = ws'; waiters = pre ++ waiter t f (if b then held else leaving) ∷ post })
  notices :
      (ws : List WaitNode) (t f : ℕ) (pre post : List Waiter)
      → Step
          (record { waits = ws; waiters = pre ++ waiter t f held ∷ post })
          (record { waits = ws; waiters = pre ++ waiter t f leaving ∷ post })
  leaves :
      (ws ws' : List WaitNode) (t f : ℕ) (pre post : List Waiter)
      → leave_to_abort f ws ≡ ok (tt, ws')
      → Step
          (record { waits = ws; waiters = pre ++ waiter t f leaving ∷ post })
          (record { waits = ws'; waiters = pre ++ post })

-- From the empty list of `global_init`.
pub data Reachable : Station → Type 0 where
  start : Reachable (record { waits = []; waiters = [] })
  step : (s s' : Station) → Reachable s → Step s s' → Reachable s'

abbrev pub count : ℕ → List Waiter → ℕ
count f [] = 0
count f (t ∷ ts) = let rest = count f ts in if t.f_inode == f then suc rest else rest
