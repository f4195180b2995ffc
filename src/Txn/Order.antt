-- ===== src/Txn/Order.antt =====
-- The list of live transactions stays in order of their ids, each once.
use backup_lfs.Base.{
  ℕ, subst, sym, ◌<◌, ◌≡◌, ◌≢◌, refl, false, Option, none, some, List, [], ◌∷◌, arith, ltb, ◌==◌,
  if◌then◌else◌, All, Bool-cases, inl, inr,
}
use backup_lfs.Base.Int.{ℤ, to_int}
use backup_lfs.Header.{TxnNode}
use backup_lfs.Txn.{
  get_txn_node, insert_txn_node, new_txn_insert, find_txn, update_txn_node, txn_delete, keep,
}

abbrev pub IsRising : List TxnNode → Type 0
IsRising [] = Unit
IsRising (t ∷ ts) = All (λ (u : TxnNode). t.txn_id < u.txn_id) ts × IsRising ts

-- No live transaction has the id.
abbrev pub IsNotLive : ℕ → List TxnNode → Type 0
IsNotLive txnid ts = find_txn txnid ts ≡ none

All-insert :
    (P : TxnNode → Type 0) (new : TxnNode) (ts : List TxnNode)
    → P new
    → All P ts
    → All P (insert_txn_node new ts)
unfolding insert_txn_node
All-insert P new [] here all = (here, tt)
All-insert P new (t ∷ ts) here all = ground (arith, All-insert P new ts here all.1)

All-below :
    (a b : ℕ) (ts : List TxnNode)
    → a < b
    → All (λ (u : TxnNode). b < u.txn_id) ts
    → All (λ (u : TxnNode). a < u.txn_id) ts
All-below a b [] lt all = tt
All-below a b (t ∷ ts) lt all = (omega arith, All-below a b ts lt all.1)

insert_txn_node-IsRising :
    (new : TxnNode) (ts : List TxnNode)
    → IsNotLive new.txn_id ts
    → IsRising ts
    → IsRising (insert_txn_node new ts)
unfolding insert_txn_node find_txn
insert_txn_node-IsRising new [] free o = (tt, tt)
insert_txn_node-IsRising new (t ∷ ts) free (all, o) = elim (Bool-cases (ltb new.txn_id t.txn_id)) [
  | inl lt ↦ rw lt ((ground arith, All-below new.txn_id t.txn_id ts (ground arith) all), (all, o))
  | inr ge ↦ rw ge (
    All-insert (λ u. t.txn_id < u.txn_id) new ts (ground arith) all,
    insert_txn_node-IsRising new ts (ground arith) o,
  )
]

find-insert :
    (new : TxnNode) (ts : List TxnNode) (txnid : ℕ)
    → IsNotLive new.txn_id ts
    → find_txn txnid (insert_txn_node new ts)
      ≡ (if new.txn_id == txnid then some new else find_txn txnid ts)
unfolding insert_txn_node find_txn
find-insert new [] txnid free = refl
find-insert new (t ∷ ts) txnid free = ground (arith, find-insert new ts txnid)

delete-insert :
    (new : TxnNode) (ts : List TxnNode)
    → IsNotLive new.txn_id ts
    → txn_delete new.txn_id (insert_txn_node new ts) ≡ some ts
unfolding insert_txn_node find_txn txn_delete
delete-insert new [] free = ground arith
delete-insert new (t ∷ ts) free = ground (arith, delete-insert new ts)

-- With the live transactions in rising order and the id not among them, `new_txn_insert` keeps the
-- order; a look-up then finds the new node, which has the record number as an `int`, under its id and
-- what it found before under any other,
-- and `txn_delete` of the id gives back the list.
pub new_txn_insert-IsRising :
    (txnid : ℕ) (lrn : ℤ) (ts : List TxnNode)
    → IsRising ts
    → IsNotLive txnid ts
    → IsRising (new_txn_insert txnid lrn ts)
      × ((i : ℕ)
          → find_txn i (new_txn_insert txnid lrn ts)
            ≡ (if txnid == i then some (get_txn_node txnid (to_int lrn)) else find_txn i ts))
      × (txn_delete txnid (new_txn_insert txnid lrn ts) ≡ some ts)
unfolding new_txn_insert
new_txn_insert-IsRising txnid lrn ts o free = (
  insert_txn_node-IsRising (get_txn_node txnid (to_int lrn)) ts free o,
  (λ i. find-insert (get_txn_node txnid (to_int lrn)) ts i free),
  delete-insert (get_txn_node txnid (to_int lrn)) ts free,
)

find_below :
    (a i : ℕ) (ts : List TxnNode)
    → All (λ (u : TxnNode). a < u.txn_id) ts
    → i ≡ a
    → find_txn i ts ≡ none
unfolding find_txn
find_below a i [] all e = refl
find_below a i (t ∷ ts) all e = ground (arith, find_below a i ts all.1 e)

abbrev AllSome : (TxnNode → Type 0) → Option (List TxnNode) → Type 0
AllSome P none = Unit
AllSome P (some ts) = All P ts

keep-AllSome :
    (P : TxnNode → Type 0) (t : TxnNode) (o : Option (List TxnNode))
    → P t
    → AllSome P o
    → AllSome P (keep t o)
keep-AllSome P t none here all = tt
keep-AllSome P t (some us) here all = (here, all)

delete-AllSome :
    (P : TxnNode → Type 0) (i : ℕ) (ts : List TxnNode) → All P ts → AllSome P (txn_delete i ts)
unfolding txn_delete
delete-AllSome P i [] all = tt
delete-AllSome P i (t ∷ ts) all = elim (Bool-cases (t.txn_id == i)) [
  | inl hit ↦ rw hit all.1
  | inr miss ↦ rw miss (keep-AllSome P t (txn_delete i ts) all.0 (delete-AllSome P i ts all.1))
]

-- What `txn_delete` is to do: it runs off the list exactly if the transaction is not live, and
-- otherwise takes out its node and no other.
abbrev pub Deletes : ℕ → List TxnNode → Option (List TxnNode) → Type 0
Deletes i ts none = IsNotLive i ts
Deletes i ts (some us) =
    IsRising us
    × IsNotLive i us
    × ((j : ℕ) → j ≢ i → find_txn j us ≡ find_txn j ts)
    × (find_txn i ts ≢ none)

keep-Deletes :
    (i : ℕ) (t : TxnNode) (ts : List TxnNode) (o : Option (List TxnNode))
    → (t.txn_id == i) ≡ false
    → AllSome (λ (u : TxnNode). t.txn_id < u.txn_id) o
    → Deletes i ts o
    → Deletes i (t ∷ ts) (keep t o)
unfolding find_txn
keep-Deletes i t ts none miss above d = ground arith
keep-Deletes i t ts (some us) miss above (o, gone, same, live) =
    ((above, o), ground arith, (λ j ne. ground (arith, same j ne)), rw miss live)

-- On a list in rising order `txn_delete` faults exactly if the transaction is not live. Otherwise
-- the list stays in rising order, the transaction is not live any more, and every other is found
-- as before.
pub txn_delete-Deletes : (i : ℕ) (ts : List TxnNode) → IsRising ts → Deletes i ts (txn_delete i ts)
unfolding txn_delete find_txn
txn_delete-Deletes i [] o = refl
txn_delete-Deletes i (t ∷ ts) (all, o) = elim (Bool-cases (t.txn_id == i)) [
  | inl hit ↦
      rw hit (o, find_below t.txn_id i ts all (ground arith), (λ j ne. ground arith), λ e. cc)
  | inr miss ↦ rw miss (
      keep-Deletes i t ts (txn_delete i ts) miss
        (delete-AllSome (λ (u : TxnNode). t.txn_id < u.txn_id) i ts all)
        (txn_delete-Deletes i ts o))
]

-- A write through a transaction's node shows at that transaction alone, if it keeps the id.
pub update_txn_node-find :
    (i j : ℕ) (f : TxnNode → TxnNode) (ts : List TxnNode) (t : TxnNode)
    → ((u : TxnNode) → (f u).txn_id ≡ u.txn_id)
    → find_txn i ts ≡ some t
    → find_txn j (update_txn_node i f ts) ≡ (if i == j then some (f t) else find_txn j ts)
unfolding update_txn_node find_txn
update_txn_node-find i j f [] t keeps e = cc
update_txn_node-find i j f (u ∷ ts) t keeps e =
    ground (arith, keeps u, update_txn_node-find i j f ts t keeps)

All-update :
    (P : TxnNode → Type 0) (i : ℕ) (f : TxnNode → TxnNode) (ts : List TxnNode)
    → ((t : TxnNode) → P t → P (f t))
    → All P ts
    → All P (update_txn_node i f ts)
unfolding update_txn_node
All-update P i f [] keeps all = tt
All-update P i f (t ∷ ts) keeps (here, all) = elim (Bool-cases (t.txn_id == i)) [
  | inl hit ↦ rw hit (keeps t here, all)
  | inr miss ↦ rw miss (here, All-update P i f ts keeps all)
]

pub update_txn_node-IsRising :
    (i : ℕ) (f : TxnNode → TxnNode) (ts : List TxnNode)
    → ((u : TxnNode) → (f u).txn_id ≡ u.txn_id)
    → IsRising ts
    → IsRising (update_txn_node i f ts)
unfolding update_txn_node
update_txn_node-IsRising i f [] keeps o = tt
update_txn_node-IsRising i f (t ∷ ts) keeps (all, o) = elim (Bool-cases (t.txn_id == i)) [
  | inl hit ↦ rw hit (subst (λ k. All (λ (u : TxnNode). k < u.txn_id) ts) (sym (keeps t)) all, o)
  | inr miss ↦ rw miss (
    All-update (λ u. t.txn_id < u.txn_id) i f ts
        (λ u lt. subst (λ k. t.txn_id < k) (sym (keeps u)) lt) all,
    update_txn_node-IsRising i f ts keeps o,
  )
]
