-- ===== src/Locking/Same.antt =====
-- What a request leaves of the log and of the transactions.
use backup_lfs.Base.{ℕ, ◌≡◌, refl, ap, ◌∙◌, List, [], ◌∷◌, some, arith, ◌==◌, Bool-cases, inl, inr}
use backup_lfs.Header.{TxnNode}
use backup_lfs.Txn.{find_txn, update_txn_node}
use backup_lfs.Server.{Server}

-- A live transaction is still there, with the same last record.
abbrev pub LastKept : (ts us : List TxnNode) → Type 0
LastKept ts us =
    (j : ℕ) (t : TxnNode)
    → find_txn j ts ≡ some t
    → (t' : TxnNode) × (find_txn j us ≡ some t') × (t'.last_lrn ≡ t.last_lrn)

abbrev pub SameLog : (s s' : Server) → Type 0
SameLog s s' = (s'.event_log ≡ s.event_log) × LastKept s.txns s'.txns

pub same-LastKept : (ts : List TxnNode) → LastKept ts ts
same-LastKept ts j t e = (t, e, refl)

pub SameLog-trans : (a b c : Server) → SameLog a b → SameLog b c → SameLog a c
SameLog-trans a b c (e, k) (f, m) = (
  f ∙ e,
  λ j t live.
      let (t', live', same) = k j t live in
      let (t'', live'', same') = m j t' live' in (t'', live'', same' ∙ same),
)

pub update_txn_node-LastKept :
    (i : ℕ) (f : TxnNode → TxnNode)
    → ((u : TxnNode) → ((f u).txn_id ≡ u.txn_id) × ((f u).last_lrn ≡ u.last_lrn))
    → (ts : List TxnNode) → LastKept ts (update_txn_node i f ts)
unfolding update_txn_node find_txn
update_txn_node-LastKept i f keeps [] j t e = (t, e, refl)
update_txn_node-LastKept i f keeps (u ∷ ts) j t e = elim (Bool-cases (u.txn_id == j)) [
  | inl found ↦
      let here : u ≡ t = ground (arith, e, found) in
      elim (Bool-cases (u.txn_id == i)) [
        | inl hit ↦ (
          f u,
          rw (hit, (keeps u).0, found) refl,
          (keeps u).1 ∙ ap (λ (x : TxnNode). x.last_lrn) here,
        )
        | inr miss ↦ (t, rw (miss, found) (ap some here), refl)
      ]
  | inr further ↦
      let rest : find_txn j ts ≡ some t = ground (arith, e, further) in
      elim (Bool-cases (u.txn_id == i)) [
        | inl hit ↦ (t, rw (hit, (keeps u).0, further) rest, refl)
        | inr miss ↦
            let (t', live', same) = update_txn_node-LastKept i f keeps ts j t rest in
            (t', rw (miss, further) live', same)
      ]
]
