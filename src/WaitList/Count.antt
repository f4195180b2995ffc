-- ===== src/WaitList/Count.antt =====
-- The counts of the wait list against the threads that are in it.
use backup_lfs.Base.{
  ℕ, suc, ◌+◌, ◌-◌, ◌≡◌, refl, ◌∙◌, none, some, List, arith, ◌==◌, if◌then◌else◌, Bool-cases,
  Option-cases, inl, inr, ok, ==→eq, ==_self,
}
use backup_lfs.Header.{WaitNode}
use backup_lfs.WaitList.{
  get_wait_node, search_wait_list, update_wait_node, remove_wait_node, insert_wait_node,
  update_wait_list_on_wake, begin_wait_list, join_wait_list, enter_wait_list, Wake, sleeps, resumes,
  aborts, holds_back, on_wake,
}
use backup_lfs.WaitList.Order.{
  IsWaitList, waiting, search-found, search-update, update-IsWaitList, search-remove,
  remove-IsWaitList, search-insert, insert-IsWaitList,
}

-- A valid list follows in which `gone` threads fewer wait for the file, and no others.
abbrev pub Follows : (gone f : ℕ) → List WaitNode → List WaitNode → Type 0
Follows gone f ws ws' =
    IsWaitList ws' × ((i : ℕ) → waiting i ws' + (if f == i then gone else 0) ≡ waiting i ws)

-- How many threads a woken thread takes out of the list.
abbrev pub gone : Wake → ℕ
gone (sleeps b) = 0
gone holds_back = 0
gone resumes = 1
gone aborts = 1

pub update-Follows :
    (f : ℕ) (g : WaitNode → WaitNode) (w : WaitNode) (ws : List WaitNode)
    → ((v : WaitNode) → (g v).file_inode ≡ v.file_inode)
    → ((v : WaitNode) → (g v).in_wait ≡ v.in_wait)
    → IsWaitList ws
    → search_wait_list f ws ≡ some w
    → Follows 0 f ws (update_wait_node f g ws)
update-Follows f g w ws keeps same o e = (
  update-IsWaitList f g w ws keeps e (rw (same w) (search-found f ws w o e).1) o,
  λ i. elim (Bool-cases (f == i)) [
    | inl hit ↦
        rw (search-update f i g w ws keeps e, hit) (ground (arith, same w, ==→eq f i hit, e))
    | inr miss ↦ rw (search-update f i g w ws keeps e, miss) (omega arith)
  ],
)

pub wake-Follows :
    (f : ℕ) (w : WaitNode) (ws : List WaitNode)
    → IsWaitList ws
    → search_wait_list f ws ≡ some w
    → (ws' : List WaitNode) × (update_wait_list_on_wake f ws ≡ ok (tt, ws')) × Follows 1 f ws ws'
unfolding update_wait_list_on_wake
wake-Follows f w ws o e = elim (Bool-cases (w.in_wait == 1)) [
  | inl last ↦ (
    remove_wait_node f ws,
    rw (e, update_wait_list_on_wake) (ground (arith, last)),
    (
      remove-IsWaitList f ws o,
      λ i. elim (Bool-cases (f == i)) [
        | inl hit ↦
            rw (search-remove f i ws o, hit)
              (ground (arith, ==→eq f i hit, ==→eq w.in_wait 1 last, e))
        | inr miss ↦ rw (search-remove f i ws o, miss) (omega arith)
      ],
    ),
  )
  | inr more ↦
      let one = (search-found f ws w o e).1 in
      (
        update_wait_node f less ws,
        rw (e, update_wait_list_on_wake) (ground (arith, one, more)),
        (
          update-IsWaitList f less w ws (λ v. refl) e (ground (arith, one, more)) o,
          λ i. elim (Bool-cases (f == i)) [
            | inl hit ↦
                rw (search-update f i less w ws (λ v. refl) e, hit)
                  (ground (arith, ==→eq f i hit, e, one))
            | inr miss ↦ rw (search-update f i less w ws (λ v. refl) e, miss) (omega arith)
          ],
        ),
      )
]
  where
    less : WaitNode → WaitNode
    less v = record v { in_wait = v.in_wait - 1 }

enter-begin :
    (f : ℕ) (ws : List WaitNode)
    → search_wait_list f ws ≡ none
    → enter_wait_list f ws ≡ insert_wait_node (get_wait_node f) ws
unfolding enter_wait_list begin_wait_list
enter-begin f ws free = rw (free, enter_wait_list) refl

enter-join :
    (f : ℕ) (w : WaitNode) (ws : List WaitNode)
    → search_wait_list f ws ≡ some w
    → enter_wait_list f ws ≡ update_wait_node f (λ v. record v { in_wait = v.in_wait + 1 }) ws
unfolding enter_wait_list join_wait_list
enter-join f w ws e = rw (e, enter_wait_list) refl

pub enter-IsWaitList :
    (f : ℕ) (ws : List WaitNode)
    → IsWaitList ws
    → IsWaitList (enter_wait_list f ws)
      × ((i : ℕ) → waiting i (enter_wait_list f ws) ≡ waiting i ws + (if f == i then 1 else 0))
unfolding get_wait_node
enter-IsWaitList f ws o = elim (Option-cases (search_wait_list f ws)) [
  | inl free ↦ rw (enter-begin f ws free) (
    insert-IsWaitList (get_wait_node f) ws free (omega arith) o,
    λ i. rw (search-insert (get_wait_node f) i ws free) (elim (Bool-cases (f == i)) [
      | inl hit ↦ rw hit (ground (arith, ==→eq f i hit, free))
      | inr miss ↦ rw miss (omega arith)
    ]),
  )
  | inr (w, e) ↦ rw (enter-join f w ws e) (
    update-IsWaitList f more w ws (λ v. refl) e (omega arith) o,
    λ i. rw (search-update f i more w ws (λ v. refl) e) (elim (Bool-cases (f == i)) [
      | inl hit ↦ rw hit (ground (arith, ==→eq f i hit, e))
      | inr miss ↦ rw miss (omega arith)
    ]),
  )
]
  where
    more : WaitNode → WaitNode
    more v = record v { in_wait = v.in_wait + 1 }

pub update-wake-Follows :
    (f : ℕ) (g : WaitNode → WaitNode) (w : WaitNode) (ws : List WaitNode)
    → ((v : WaitNode) → (g v).file_inode ≡ v.file_inode)
    → ((v : WaitNode) → (g v).in_wait ≡ v.in_wait)
    → IsWaitList ws
    → search_wait_list f ws ≡ some w
    → (ws' : List WaitNode) × (update_wait_list_on_wake f (update_wait_node f g ws) ≡ ok (tt, ws'))
      × Follows 1 f ws ws'
update-wake-Follows f g w ws keeps same o e =
    let (o', counts) = update-Follows f g w ws keeps same o e in
    let (ws', run, (o'', less)) =
      wake-Follows f (g w) (update_wait_node f g ws) o'
        (search-update f f g w ws keeps e ∙ rw (==_self f) refl) in
    (ws', run, (o'', λ i. grind (arith, less i, counts i)))

pub on_wake-Follows :
    (f t : ℕ) (w : WaitNode) (ws : List WaitNode)
    → IsWaitList ws
    → search_wait_list f ws ≡ some w
    → (r : Wake) × (ws' : List WaitNode) × (on_wake f t ws ≡ ok (r, ws'))
      × Follows (gone r) f ws ws'
unfolding on_wake
on_wake-Follows f t w ws o e = elim (Option-cases w.txnid_abort) [
  | inl none_named ↦
      let (ws', run, follows) = wake-Follows f w ws o e in
      (resumes, ws', rw (e, none_named, run, on_wake) refl, follows)
  | inr (v, named) ↦ elim (Bool-cases (v == t)) [
    | inl me ↦ elim (Bool-cases (suc w.woke_up == w.in_wait)) [
      | inl all ↦
          let (ws', run, follows) =
            update-wake-Follows f (λ v. record v { woke_up = suc v.woke_up; txnid_abort = none }) w
              ws (λ v. refl) (λ v. refl) o e in
          (aborts, ws', rw (e, named, me, all, run, on_wake) refl, follows)
      | inr some_sleep ↦ (holds_back, _, rw (e, named, me, some_sleep, on_wake) refl, counted)
    ]
    | inr other ↦
        (sleeps (suc w.woke_up == w.in_wait), _, rw (e, named, other, on_wake) refl, counted)
  ]
]
  where
    counted : Follows 0 f ws (update_wait_node f (λ v. record v { woke_up = suc v.woke_up }) ws)
    counted = update-Follows f _ w ws (λ v. refl) (λ v. refl) o e
