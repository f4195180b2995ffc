-- ===== src/Pause/Turns.antt =====
-- How often a transaction is paused in a row.
use backup_lfs.Base.{
  ℕ, zero, suc, ◌+◌, ◌<◌, ◌≤◌, ◌≡◌, ◌≢◌, refl, some, true, false, List, arith, ltb, if◌then◌else◌,
  get_elem?, set, get-set, get-set_other, get-bound, ok, Code, ◌>>=◌, subst, ap, ◌∙◌, ◌==◌, dec_lt,
  Run,
}
use backup_lfs.Header.{PauseNode}
use backup_lfs.Pause.{
  Pauses, no_pauses, is_of, load_pause, store_pause, pause_search, Turn, first_pause, pause_again,
  too_often, turn_at, take_turn,
}

-- The entries from `i` to before `j` are there, and not of the transaction.
abbrev pub Skipped : (t i j : ℕ) → List PauseNode → Type 0
Skipped t i j ps =
    (k : ℕ) → i ≤ k → k < j → (p : PauseNode) × (get_elem? ps k ≡ some p) × (is_of t p ≡ false)

-- No entry up to the one behind the index is of the transaction.
abbrev pub IsNotPaused : ℕ → Pauses → Type 0
IsNotPaused t s = Skipped t 0 (suc (suc s.index_pause_array)) s.pause_array

-- The transaction's first entry counts `n` pauses.
pub record IsPaused (t n : ℕ) (s : Pauses) : Type 0 where
  at : ℕ
  entry : PauseNode
  in_range : at ≤ s.index_pause_array
  there : get_elem? s.pause_array at ≡ some entry
  mine : is_of t entry ≡ true
  times : entry.pause_times ≡ n
  earlier : Skipped t 0 at s.pause_array

search-hit :
    (n d i t : ℕ) (p : PauseNode) (s : Pauses)
    → Skipped t i (i + d) s.pause_array
    → get_elem? s.pause_array (i + d) ≡ some p
    → is_of t p ≡ true
    → d < n
    → pause_search n i t s ≡ ok (i + d, s)
unfolding pause_search load_pause
search-hit zero d i t p s skip there mine short = absurd (omega arith)
search-hit (suc n) zero i t p s skip there mine short =
    let e : get_elem? s.pause_array i ≡ some p =
      subst (λ k. get_elem? s.pause_array k ≡ some p) (omega arith) there in
    rw (e, mine) (ap (λ k. ok (k, s)) (omega arith))
search-hit (suc n) (suc d) i t p s skip there mine short =
    let (q, e, other) = skip i (omega arith) (omega arith) in
    rw (e, other)
      (search-hit n d (suc i) t p s (λ k le lt. skip k (omega arith) (omega arith))
          (subst (λ k. get_elem? s.pause_array k ≡ some p) (omega arith) there) mine (omega arith)
        ∙ ap (λ k. ok (k, s)) (omega arith))

search-miss :
    (n i t : ℕ) (s : Pauses)
    → Skipped t i (i + n) s.pause_array
    → pause_search n i t s ≡ ok (i + n, s)
unfolding pause_search load_pause
search-miss zero i t s skip = ap (λ k. ok (k, s)) (omega arith)
search-miss (suc n) i t s skip =
    let (q, e, other) = skip i (omega arith) (omega arith) in
    rw (e, other)
      (search-miss n (suc i) t s (λ k le lt. skip k (omega arith) (omega arith))
        ∙ ap (λ k. ok (k, s)) (omega arith))

take_turn-turn_at :
    (i t : ℕ) (s : Pauses)
    → pause_search (suc s.index_pause_array) 0 t s ≡ ok (i, s)
    → take_turn t s ≡ turn_at i t s
unfolding take_turn
take_turn-turn_at i t s e = rw e refl

pub take_turn-first :
    (t : ℕ) (s : Pauses)
    → IsNotPaused t s
    → (s' : Pauses) × (take_turn t s ≡ ok (first_pause, s')) × IsPaused t 1 s'
unfolding turn_at load_pause store_pause
take_turn-first t s free =
    let n = s.index_pause_array in
    let (p, e, other) = free (suc n) (omega arith) (omega arith) in
    let room = get-bound s.pause_array (suc n) p e in
    let new : PauseNode = record { txnid = some t; pause_times = 1 } in
    (
      record { pause_array = set s.pause_array (n + 1) new; index_pause_array = n + 1 },
      take_turn-turn_at (suc n) t s (
            search-miss (suc n) 0 t s (λ k le lt. free k (omega arith) (omega arith))
            ∙ ap (λ k. ok (k, s)) (omega arith))
          ∙ rw (e, other) (ground (arith, room)),
      record {
        at = n + 1;
        entry = new;
        in_range = omega arith;
        there = get-set s.pause_array (n + 1) new (omega arith);
        mine = ground arith;
        times = refl;
        earlier = λ k le lt.
            let (q, e', other') = free k (omega arith) (omega arith) in
            (q, get-set_other s.pause_array (n + 1) k new (omega arith) ∙ e', other');
      },
    )

take_turn-at : (t n : ℕ) (s : Pauses) (x : IsPaused t n s) → take_turn t s ≡ turn_at x.at t s
take_turn-at t n s x = take_turn-turn_at x.at t s (
    search-hit (suc s.index_pause_array) x.at 0 t x.entry s
      (λ k le lt. x.earlier k (omega arith) (omega arith))
      (subst (λ k. get_elem? s.pause_array k ≡ some x.entry) (omega arith) x.there) x.mine
      (omega (arith, x.in_range))
    ∙ ap (λ k. ok (k, s)) (omega arith))

pub take_turn-again :
    (t n : ℕ) (s : Pauses)
    → IsPaused t n s
    → n ≤ 5
    → (s' : Pauses) × (take_turn t s ≡ ok (pause_again, s')) × IsPaused t (suc n) s'
unfolding turn_at load_pause store_pause
take_turn-again t n s x few =
    let more : PauseNode = record (x.entry) { pause_times = x.entry.pause_times + 1 } in
    let room = get-bound s.pause_array x.at x.entry x.there in
    (
      _,
      take_turn-at t n s x ∙ rw (x.there, x.mine) (ground (arith, x.times, few, room)),
      record {
        at = x.at;
        entry = more;
        in_range = x.in_range;
        there = get-set s.pause_array x.at more room;
        mine = x.mine;
        times = omega (arith, x.times);
        earlier = λ k le lt.
            let (q, e', other') = x.earlier k le lt in
            (q, get-set_other s.pause_array x.at k more (omega arith) ∙ e', other');
      },
    )

pub take_turn-end :
    (t n : ℕ) (s : Pauses) → IsPaused t n s → 5 < n → take_turn t s ≡ ok (too_often, s)
unfolding turn_at load_pause store_pause
take_turn-end t n s x many = take_turn-at t n s x ∙ rw (x.there, x.mine) (ground (arith, x.times))

-- `n` conflicts of the transaction with the backup and then one more: what becomes of the last one.
unfoldable pub take_turns : (n t : ℕ) → Code Pauses Turn
take_turns zero t = take_turn t
take_turns (suc n) t = do _ ← take_turn t; take_turns n t

abbrev pub turn_after : ℕ → Turn
turn_after n = if n == 0 then first_pause else if ltb 5 n then too_often else pause_again

turn_shift :
    (i j : ℕ) (s : Pauses)
    → i ≡ j
    → Path (Run (Turn × Pauses)) (ok (turn_after i, s)) (ok (turn_after j, s))
turn_shift i j s e = ap (λ k. ok (turn_after k, s)) e

paused_turns :
    (n t k : ℕ) (s : Pauses)
    → IsPaused t (suc k) s
    → (s' : Pauses) × (take_turns n t s ≡ ok (turn_after (n + suc k), s'))
unfolding take_turns
paused_turns zero t k s x = elim (dec_lt 5 (suc k)) [
  | yes many ↦ (s, take_turn-end t (suc k) s x many ∙ ground (arith, many))
  | no few ↦
      let (s', run, x') = take_turn-again t (suc k) s x (omega arith) in
      (s', run ∙ ground (arith, few))
]
paused_turns (suc n) t k s x = elim (dec_lt 5 (suc k)) [
  | yes many ↦
      let (s', rest) = paused_turns n t k s x in
      (s', rw (take_turn-end t (suc k) s x many) (rest ∙ ground (arith, many)))
  | no few ↦
      let (s', run, x') = take_turn-again t (suc k) s x (omega arith) in
      let (s'', rest) = paused_turns n t (suc k) s' x' in
      (s'', rw run (rest ∙ turn_shift (n + suc (suc k)) (suc n + suc k) s'' (omega arith)))
]

-- A transaction that is not paused, with an entry left in the array for it, is paused on its first
-- six conflicts in a row, and from the seventh on it is to be aborted.
pub take_turns-turn_after :
    (n t : ℕ) (s : Pauses)
    → IsNotPaused t s
    → (s' : Pauses) × (take_turns n t s ≡ ok (turn_after n, s'))
unfolding take_turns
take_turns-turn_after zero t s free = let (s', run, x) = take_turn-first t s free in (s', run)
take_turns-turn_after (suc n) t s free =
    let (s', run, x) = take_turn-first t s free in
    let (s'', rest) = paused_turns n t 0 s' x in
    (s'', rw run (rest ∙ turn_shift (n + 1) (suc n) s'' (omega arith)))

-- At the start no transaction is paused.
pub no_pauses-IsNotPaused : (t : ℕ) → t ≢ 0 → IsNotPaused t no_pauses
no_pauses-IsNotPaused t ne zero le lt =
    (record { txnid = some 0; pause_times = 0 }, refl, ground arith)
no_pauses-IsNotPaused t ne (suc zero) le lt =
    (record { txnid = some 0; pause_times = 0 }, refl, ground arith)
no_pauses-IsNotPaused t ne (suc (suc k)) le lt = absurd (omega arith)
