-- ===== src/WaitList/Safety.antt =====
-- A wait node lives as long as a thread is in it, and its count is the number of those threads.
use backup_lfs.Base.{
  ℕ, ◌+◌, ◌≡◌, refl, sym, ◌∙◌, none, some, List, [], ◌∷◌, ◌++◌, arith, if◌then◌else◌, Bool,
  Option-cases, inl, inr, ok, fault, subst, ltb, Run,
}
use backup_lfs.Header.{WaitNode}
use backup_lfs.WaitList.{
  search_wait_list, update_wait_node, Wake, sleeps, resumes, aborts, holds_back, on_wake,
  wait_for_others, leave_to_abort, doom,
}
use backup_lfs.WaitList.Order.{IsWaitList, waiting}
use backup_lfs.WaitList.Waiters.{
  Waiter, waiter, Station, Stage, asleep, woken, unlocked, held, leaving, Step, enter, wakes, dooms,
  runs, tests, notices, leaves, Reachable, start, step, after_wake, count,
}
use backup_lfs.WaitList.Count.{
  Follows, gone, update-wake-Follows, update-Follows, enter-IsWaitList, on_wake-Follows,
}

-- The list is valid, and counts the threads at each file.
abbrev pub Counted : List WaitNode → List Waiter → Type 0
Counted ws ts = IsWaitList ws × ((i : ℕ) → waiting i ws ≡ count i ts)

count-append : (i : ℕ) (xs ys : List Waiter) → count i (xs ++ ys) ≡ count i xs + count i ys
count-append i [] ys = omega arith
count-append i (x ∷ xs) ys = ground (arith, count-append i xs ys)

-- The node of a thread that waits.
pub Counted-found :
    (ws : List WaitNode) (t f : ℕ) (p : Stage) (pre post : List Waiter)
    → Counted ws (pre ++ waiter t f p ∷ post)
    → (w : WaitNode) × (search_wait_list f ws ≡ some w)
Counted-found ws t f p pre post (o, counts) = elim (Option-cases (search_wait_list f ws)) [
  | inl free ↦ absurd (ground (arith, counts f, count-append f pre (waiter t f p ∷ post), free))
  | inr found ↦ found
]

-- A thread at another stage counts the same.
Counted-move :
    (ws ws' : List WaitNode) (t f : ℕ) (p q : Stage) (pre post : List Waiter)
    → Follows 0 f ws ws'
    → Counted ws (pre ++ waiter t f p ∷ post)
    → Counted ws' (pre ++ waiter t f q ∷ post)
Counted-move ws ws' t f p q pre post (o', same) (o, counts) = (
  o',
  λ i. grind (
    arith,
    same i,
    counts i,
    count-append i pre (waiter t f p ∷ post),
    count-append i pre (waiter t f q ∷ post),
  ),
)

Counted-leave :
    (ws ws' : List WaitNode) (t f : ℕ) (p : Stage) (pre post : List Waiter)
    → Follows 1 f ws ws'
    → Counted ws (pre ++ waiter t f p ∷ post)
    → Counted ws' (pre ++ post)
Counted-leave ws ws' t f p pre post (o', less) (o, counts) = (
  o',
  λ i.
      grind (
        arith,
        less i,
        counts i,
        count-append i pre (waiter t f p ∷ post),
        count-append i pre post,
      ),
)

leave_to_abort-Follows :
    (f : ℕ) (w : WaitNode) (ws : List WaitNode)
    → IsWaitList ws
    → search_wait_list f ws ≡ some w
    → (ws' : List WaitNode) × (leave_to_abort f ws ≡ ok (tt, ws')) × Follows 1 f ws ws'
unfolding leave_to_abort
leave_to_abort-Follows f w ws o e =
    let (ws', run, follows) =
      update-wake-Follows f (λ v. record v { txnid_abort = none }) w ws (λ v. refl) (λ v. refl) o
        e in
    (ws', rw (e, run, leave_to_abort) refl, follows)

after_wake-Counted :
    (r : Wake) (ws ws' : List WaitNode) (t f : ℕ) (pre post : List Waiter)
    → Follows (gone r) f ws ws'
    → Counted ws (pre ++ waiter t f woken ∷ post)
    → Counted ws' (pre ++ after_wake t f r post)
after_wake-Counted (sleeps b) ws ws' t f pre post = Counted-move ws ws' t f woken asleep pre post
after_wake-Counted holds_back ws ws' t f pre post = Counted-move ws ws' t f woken unlocked pre post
after_wake-Counted resumes ws ws' t f pre post = Counted-leave ws ws' t f woken pre post
after_wake-Counted aborts ws ws' t f pre post = Counted-leave ws ws' t f woken pre post

-- Code that has run to two results has run to one.
abbrev Ran {ℓ} : {A : Type ℓ} → A → Run A → Type ℓ
Ran a (ok b) = a ≡ b
Ran a _ = Unit

ok≢fault {ℓ} : {A : Type ℓ} {a : A} → ok a ≡ fault → ⊥
ok≢fault e = absurd cc

ok-injective {ℓ} : {A : Type ℓ} {a b : A} → ok b ≡ ok a → b ≡ a
ok-injective {A = A} {a} {b} e = subst (λ r. Ran b r) e refl

doom-Follows :
    (f t : ℕ) (ws ws' : List WaitNode)
    → IsWaitList ws
    → doom f t ws ≡ ok (tt, ws')
    → Follows 0 f ws ws'
unfolding doom
doom-Follows f t ws ws' o run = elim (Option-cases (search_wait_list f ws)) [
  | inl free ↦ absurd (ok≢fault (sym run ∙ doom_nobody free))
  | inr (w, e) ↦
      subst (λ (x : Unit × List WaitNode). Follows 0 f ws x.1)
        (ok-injective (sym (doomed w e) ∙ run))
        (update-Follows f _ w ws (λ v. refl) (λ v. refl) o e)
]
  where
    doom_nobody : search_wait_list f ws ≡ none → doom f t ws ≡ fault
    doom_nobody free = rw (free, doom) refl

    doomed :
        (w : WaitNode)
        → search_wait_list f ws ≡ some w
        → doom f t ws
          ≡ ok (tt, update_wait_node f (λ v. record v { txnid_abort = some t; woke_up = 0 }) ws)
    doomed w e = rw (e, doom) refl

test-run :
    (f : ℕ) (w : WaitNode) (ws : List WaitNode)
    → search_wait_list f ws ≡ some w
    → wait_for_others f ws ≡ ok (ltb w.woke_up w.in_wait, ws)
unfolding wait_for_others
test-run f w ws e = rw (e, wait_for_others) refl

Step-Counted :
    (s s' : Station) → Step s s' → Counted s.waits s.waiters → Counted s'.waits s'.waiters
Step-Counted _ _ (enter ws t f ts) (o, counts) =
    let (o', more) = enter-IsWaitList f ws o in (o', λ i. grind (arith, more i, counts i))
Step-Counted _ _ (wakes ws t f pre post) c =
    Counted-move ws ws t f asleep woken pre post (c.0, λ i. grind arith) c
Step-Counted _ _ (notices ws t f pre post) c =
    Counted-move ws ws t f held leaving pre post (c.0, λ i. grind arith) c
Step-Counted _ _ (dooms ws ws' t f ts run) c =
    let (o', same) = doom-Follows f t ws ws' c.0 run in (o', λ i. grind (arith, same i, c.1 i))
Step-Counted _ _ (runs ws ws' t f r pre post run) c =
    let (w, e) = Counted-found ws t f woken pre post c in
    let (r', ws'', run', follows) = on_wake-Follows f t w ws c.0 e in
    let same = ok-injective (sym run' ∙ run) in
    after_wake-Counted r ws ws' t f pre post
      (subst (λ (x : Wake × List WaitNode). Follows (gone x.0) f ws x.1) same follows) c
Step-Counted _ _ (tests ws ws' t f b pre post run) c =
    let (w, e) = Counted-found ws t f unlocked pre post c in
    let same = ok-injective (sym (test-run f w ws e) ∙ run) in
    Counted-move ws ws' t f unlocked (if b then held else leaving) pre post
      (subst (λ (x : Bool × List WaitNode). Follows 0 f ws x.1) same (c.0, λ i. grind arith)) c
Step-Counted _ _ (leaves ws ws' t f pre post run) c =
    let (w, e) = Counted-found ws t f leaving pre post c in
    let (ws'', run', follows) = leave_to_abort-Follows f w ws c.0 e in
    let same = ok-injective (sym run' ∙ run) in
    Counted-leave ws ws' t f leaving pre post
      (subst (λ (x : Unit × List WaitNode). Follows 1 f ws x.1) same follows) c

-- In every state that the threads reach from the empty list, the list is in order with one node for
-- a file, and each node counts the threads that wait for its file: a file that nobody waits for has
-- no node.
pub Reachable-Counted : (s : Station) → Reachable s → Counted s.waits s.waiters
unfolding search_wait_list
Reachable-Counted _ start = (tt, λ i. refl)
Reachable-Counted _ (step s s' r move) = Step-Counted s s' move (Reachable-Counted s r)

-- In every reachable state, whatever a thread in the list does next ends without following a freed
-- node: waking up, testing whether the others have slept again, and leaving to abort.
pub waiter-Runs :
    (s : Station) (t f : ℕ) (p : Stage) (pre post : List Waiter)
    → Reachable s
    → s.waiters ≡ pre ++ waiter t f p ∷ post
    → ((r : Wake) × (ws : List WaitNode) × (on_wake f t s.waits ≡ ok (r, ws)))
      × ((b : Bool) × (wait_for_others f s.waits ≡ ok (b, s.waits)))
      × ((ws : List WaitNode) × (leave_to_abort f s.waits ≡ ok (tt, ws)))
waiter-Runs s t f p pre post r at =
    let c = subst (Counted s.waits) at (Reachable-Counted s r) in
    let (w, e) = Counted-found s.waits t f p pre post c in
    let (wake, ws, ran, _) = on_wake-Follows f t w s.waits c.0 e in
    let (ws', left, _) = leave_to_abort-Follows f w s.waits c.0 e in
    ((wake, ws, ran), (_, test-run f w s.waits e), (ws', left))
