-- ===== src/Pause/Clear.antt =====
-- What the loop that forgets a transaction's pauses leaves in the array.
use backup_lfs.Base.{
  ℕ, zero, suc, ◌+◌, ◌<◌, ◌≤◌, ◌≡◌, ◌≢◌, refl, true, sym, ap, ◌==◌, ==→eq, ◌∙◌, ◌⊎◌, inl, inr, some,
  false, arith, get_elem?, set, length, length-set, get-set, get-set_other, get-there, ok,
  Bool-cases, dec_lt, subst, none,
}
use backup_lfs.Header.{PauseNode}
use backup_lfs.Pause.{Pauses, is_of, load_pause, store_pause, clear_pauses}
use backup_lfs.Pause.Turns.{Skipped}

-- What the clearing loop leaves: none of the entries that it runs over is the transaction's, and the
-- others are as they were.
abbrev pub Cleared : (t i j : ℕ) → Pauses → Pauses → Type 0
Cleared t i j s s' =
    (s'.index_pause_array ≡ s.index_pause_array)
    × Skipped t i j s'.pause_array
    × ((k : ℕ) → (k < i) ⊎ (j ≤ k) → get_elem? s'.pause_array k ≡ get_elem? s.pause_array k)

abbrev blank : PauseNode
blank = record { txnid = none; pause_times = 0 }

next :
    (i n t : ℕ) (s : Pauses) (p : PauseNode)
    → get_elem? s.pause_array i ≡ some p
    → is_of t p ≡ false
    → Skipped t (suc i) (suc i + n) s.pause_array
    → Skipped t i (i + suc n) s.pause_array
next i n t s p e other skip k le lt = elim (dec_lt i k) [
  | yes later ↦ skip k (omega arith) (omega arith)
  | no not_later ↦
      let here : i ≡ k = omega arith in
      (p, subst (λ j. get_elem? s.pause_array j ≡ some p) here e, other)
]

beyond : (i n k : ℕ) → (k < i) ⊎ (i + suc n ≤ k) → (k < suc i) ⊎ (suc i + n ≤ k)
beyond i n k (inl lt) = inl (omega arith)
beyond i n k (inr le) = inr (omega arith)

apart : (i n k : ℕ) → (k < i) ⊎ (i + suc n ≤ k) → i ≢ k
apart i n k (inl lt) = omega arith
apart i n k (inr le) = omega arith

-- An entry that is not the transaction's is as it was.
abbrev pub OthersKept : (t : ℕ) → Pauses → Pauses → Type 0
OthersKept t s s' =
    (k : ℕ) (p : PauseNode)
    → get_elem? s.pause_array k ≡ some p
    → is_of t p ≡ false
    → get_elem? s'.pause_array k ≡ some p

kept_by_set :
    (i t : ℕ) (s : Pauses) (p : PauseNode)
    → get_elem? s.pause_array i ≡ some p
    → is_of t p ≡ true
    → OthersKept t s (record s { pause_array = set s.pause_array i blank })
kept_by_set i t s p e mine k q at other = elim (Bool-cases (i == k)) [
  | inl equal ↦
      let same : i ≡ k = ==→eq i k equal in
      let both : some p ≡ some q = sym e ∙ ap (λ j. get_elem? s.pause_array j) same ∙ at in
      absurd cc
  | inr differ ↦ get-set_other s.pause_array i k blank (ground (arith, differ)) ∙ at
]

pub clear_pauses-Cleared :
    (n i t : ℕ) (s : Pauses)
    → i + n ≤ length s.pause_array
    → (s' : Pauses) × (clear_pauses n i t s ≡ ok (tt, s'))
      × Cleared t i (i + n) s s'
      × OthersKept t s s'
unfolding clear_pauses load_pause store_pause
clear_pauses-Cleared zero i t s room =
    (s, refl, (refl, (λ k le lt. absurd (omega arith)), λ k out. refl), λ k p e other. e)
clear_pauses-Cleared (suc n) i t s room =
    let (p, e) = get-there s.pause_array i (omega arith) in
    elim (Bool-cases (is_of t p)) [
      | inl mine ↦
          let at_i = get-set s.pause_array i blank (omega arith) in
          let (s', run, (same, skip, rest), kept) =
            clear_pauses-Cleared n (suc i) t (record s { pause_array = set s.pause_array i blank })
              (omega (arith, length-set s.pause_array i blank)) in
          (
            s',
            rw (e, mine) (ground (arith, room) ∙ run),
            (
              same,
              next i n t s' blank (rest i (inl (omega arith)) ∙ at_i) refl skip,
              λ k out.
                  rest k (beyond i n k out)
                  ∙ get-set_other s.pause_array i k blank (apart i n k out),
            ),
            λ k q at no_other. kept k q (kept_by_set i t s p e mine k q at no_other) no_other,
          )
      | inr other ↦
          let (s', run, (same, skip, rest), kept) =
            clear_pauses-Cleared n (suc i) t s (omega arith) in
          (
            s',
            rw (e, other) run,
            (
              same,
              next i n t s' p (rest i (inl (omega arith)) ∙ e) other skip,
              λ k out. rest k (beyond i n k out),
            ),
            kept,
          )
    ]
