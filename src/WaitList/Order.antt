-- ===== src/WaitList/Order.antt =====
-- The wait list stays in order of the inode numbers, with one node for a file and no empty node.
use backup_lfs.Base.{
  ℕ, ◌<◌, ◌≤◌, ◌≡◌, refl, Option, none, some, List, [], ◌∷◌, arith, ltb, ◌==◌, if◌then◌else◌, All,
  Bool-cases, inl, inr, subst, sym,
}
use backup_lfs.Header.{WaitNode}
use backup_lfs.WaitList.{search_wait_list, update_wait_node, remove_wait_node, insert_wait_node}

abbrev pub IsWaitList : List WaitNode → Type 0
IsWaitList [] = Unit
IsWaitList (w ∷ ws) =
    (1 ≤ w.in_wait) × All (λ (v : WaitNode). w.file_inode < v.file_inode) ws × IsWaitList ws

-- How many threads the list says wait for a file.
abbrev pub in_wait_of : Option WaitNode → ℕ
in_wait_of none = 0
in_wait_of (some w) = w.in_wait

abbrev pub waiting : ℕ → List WaitNode → ℕ
waiting f ws = in_wait_of (search_wait_list f ws)

search_below :
    (a f : ℕ) (ws : List WaitNode)
    → All (λ (v : WaitNode). a < v.file_inode) ws
    → f ≤ a
    → search_wait_list f ws ≡ none
unfolding search_wait_list
search_below a f [] all e = refl
search_below a f (w ∷ ws) all e = ground (arith, search_below a f ws all.1 e)

-- What the search finds is a node of the file that counts a thread.
pub search-found :
    (f : ℕ) (ws : List WaitNode) (w : WaitNode)
    → IsWaitList ws
    → search_wait_list f ws ≡ some w
    → (w.file_inode ≡ f) × (1 ≤ w.in_wait)
unfolding search_wait_list
search-found f [] w o e = absurd cc
search-found f (v ∷ ws) w (one, all, o) e = elim (Bool-cases (v.file_inode == f)) [
  | inl hit ↦
      let same : v ≡ w = ground (arith, e, hit) in
      subst (λ (u : WaitNode). (u.file_inode ≡ f) × (1 ≤ u.in_wait)) same (ground arith, one)
  | inr miss ↦ search-found f ws w o (rw miss at e)
]

All-update :
    (P : WaitNode → Type 0) (f : ℕ) (g : WaitNode → WaitNode) (ws : List WaitNode)
    → ((w : WaitNode) → P w → P (g w))
    → All P ws
    → All P (update_wait_node f g ws)
unfolding update_wait_node
All-update P f g [] keeps all = tt
All-update P f g (w ∷ ws) keeps (here, all) = elim (Bool-cases (w.file_inode == f)) [
  | inl hit ↦ rw hit (keeps w here, all)
  | inr miss ↦ rw miss (here, All-update P f g ws keeps all)
]

-- A write to a node shows at its file alone.
pub search-update :
    (f i : ℕ) (g : WaitNode → WaitNode) (w : WaitNode) (ws : List WaitNode)
    → ((v : WaitNode) → (g v).file_inode ≡ v.file_inode)
    → search_wait_list f ws ≡ some w
    → search_wait_list i (update_wait_node f g ws)
      ≡ (if f == i then some (g w) else search_wait_list i ws)
unfolding search_wait_list update_wait_node
search-update f i g w [] keeps e = cc
search-update f i g w (v ∷ ws) keeps e = ground (arith, keeps v, search-update f i g w ws keeps)

pub update-IsWaitList :
    (f : ℕ) (g : WaitNode → WaitNode) (w : WaitNode) (ws : List WaitNode)
    → ((v : WaitNode) → (g v).file_inode ≡ v.file_inode)
    → search_wait_list f ws ≡ some w
    → 1 ≤ (g w).in_wait
    → IsWaitList ws
    → IsWaitList (update_wait_node f g ws)
unfolding search_wait_list update_wait_node
update-IsWaitList f g w [] keeps e one o = tt
update-IsWaitList f g w (v ∷ ws) keeps e one (some_one, all, o) =
    elim (Bool-cases (v.file_inode == f)) [
      | inl hit ↦ rw hit (ground (arith, keeps v), rw (keeps v) all, o)
      | inr miss ↦ rw miss (
        some_one,
        All-update (λ u. v.file_inode < u.file_inode) f g ws
            (λ u lt. subst (λ k. v.file_inode < k) (sym (keeps u)) lt) all,
        update-IsWaitList f g w ws keeps (rw miss at e) one o,
      )
    ]

All-remove :
    (P : WaitNode → Type 0) (f : ℕ) (ws : List WaitNode) → All P ws → All P (remove_wait_node f ws)
unfolding remove_wait_node
All-remove P f [] all = tt
All-remove P f (w ∷ ws) (here, all) = ground (arith, All-remove P f ws all)

pub remove-IsWaitList :
    (f : ℕ) (ws : List WaitNode) → IsWaitList ws → IsWaitList (remove_wait_node f ws)
unfolding remove_wait_node
remove-IsWaitList f [] o = tt
remove-IsWaitList f (w ∷ ws) (one, all, o) = elim (Bool-cases (w.file_inode == f)) [
  | inl hit ↦ rw hit o
  | inr miss ↦ rw miss (one, All-remove _ f ws all, remove-IsWaitList f ws o)
]

pub search-remove :
    (f i : ℕ) (ws : List WaitNode)
    → IsWaitList ws
    → search_wait_list i (remove_wait_node f ws) ≡ (if f == i then none else search_wait_list i ws)
unfolding search_wait_list remove_wait_node
search-remove f i [] o = ground arith
search-remove f i (w ∷ ws) (one, all, o) =
    ground (arith, search-remove f i ws o, search_below w.file_inode i ws all)

All-insert :
    (P : WaitNode → Type 0) (new : WaitNode) (ws : List WaitNode)
    → P new
    → All P ws
    → All P (insert_wait_node new ws)
unfolding insert_wait_node
All-insert P new [] here all = (here, tt)
All-insert P new (w ∷ ws) here all = ground (arith, All-insert P new ws here all.1)

All-below :
    (a b : ℕ) (ws : List WaitNode)
    → a < b
    → All (λ (v : WaitNode). b < v.file_inode) ws
    → All (λ (v : WaitNode). a < v.file_inode) ws
All-below a b [] lt all = tt
All-below a b (w ∷ ws) lt all = (omega arith, All-below a b ws lt all.1)

pub insert-IsWaitList :
    (new : WaitNode) (ws : List WaitNode)
    → search_wait_list new.file_inode ws ≡ none
    → 1 ≤ new.in_wait
    → IsWaitList ws
    → IsWaitList (insert_wait_node new ws)
unfolding search_wait_list insert_wait_node
insert-IsWaitList new [] free one o = (one, tt, tt)
insert-IsWaitList new (w ∷ ws) free one (some_one, all, o) =
    elim (Bool-cases (ltb new.file_inode w.file_inode)) [
      | inl lt ↦ rw lt (
        one,
        (ground arith, All-below new.file_inode w.file_inode ws (ground arith) all),
        (some_one, all, o),
      )
      | inr ge ↦ rw ge (
        some_one,
        All-insert (λ v. w.file_inode < v.file_inode) new ws (ground arith) all,
        insert-IsWaitList new ws (ground arith) one o,
      )
    ]

pub search-insert :
    (new : WaitNode) (i : ℕ) (ws : List WaitNode)
    → search_wait_list new.file_inode ws ≡ none
    → search_wait_list i (insert_wait_node new ws)
      ≡ (if new.file_inode == i then some new else search_wait_list i ws)
unfolding search_wait_list insert_wait_node
search-insert new i [] free = refl
search-insert new i (w ∷ ws) free = ground (arith, search-insert new i ws)
