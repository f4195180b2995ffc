-- ===== src/Redo/Decode.antt =====
-- The numbers of a record, read back.
use backup_lfs.Base.{
  ℕ, zero, suc, ◌+◌, ◌-◌, ◌*◌, ◌/◌, ◌^◌, ◌<◌, ◌≤◌, ◌≡◌, refl, sym, some, List, [], ◌∷◌, ◌++◌, arith,
  length, length-append, append_assoc, ok,
}
use native.Mathlib.Nat.{mod-eq_of_lt, pow-suc}
use backup_lfs.Base.Int.{ℤ, pos, negsuc, pos_part, neg_part}
use backup_lfs.Log.{bytes_of, word_of, put_long, put_int}
use backup_lfs.Server.{Server}
use backup_lfs.Redo.{number_of, signed_of, int_of, long_of, split_at, fread, fseek}

next_power : (w : ℕ) → 256 ^ suc w ≡ 256 * 256 ^ w
next_power w = omega (arith, pow-suc 256 w)

pub number_of-bytes_of : (w n : ℕ) → n < 256 ^ w → number_of (bytes_of w n) ≡ n
unfolding number_of bytes_of
number_of-bytes_of zero n small = omega arith
number_of-bytes_of (suc w) n small =
    omega (arith, number_of-bytes_of w (n / 256) (omega (arith, next_power w)))

-- The number fits into the two's complement of a width with twice `half` values.
abbrev pub Fits : (half : ℕ) → ℤ → Type 0
Fits half z = (pos_part z < half) × (neg_part z ≤ half)

pub signed_of-word_of :
    (w half : ℕ) (z : ℤ)
    → 256 ^ w ≡ half + half
    → Fits half z
    → signed_of half (number_of (bytes_of w (word_of w z))) ≡ z
unfolding signed_of word_of
signed_of-word_of w half (pos n) even (low, _) =
    let small : n < 256 ^ w = omega (arith, even) in
    rw (mod-eq_of_lt small, number_of-bytes_of w n small) (ground (arith, low))
signed_of-word_of w half (negsuc n) even (_, high) =
    let small : n < 256 ^ w = omega (arith, even) in
    let word = 256 ^ w - 1 - n in
    let fits : word < 256 ^ w = omega (arith, even) in
    rw (mod-eq_of_lt small, number_of-bytes_of w word fits, even) (ground (arith, high))

pub split_at-append : (xs ys : List ℕ) → split_at (length xs) (xs ++ ys) ≡ some (xs, ys)
unfolding split_at
split_at-append [] ys = refl
split_at-append (x ∷ xs) ys = rw (split_at-append xs ys) refl

pub fread-append :
    (n : ℕ) (xs ys : List ℕ) (s : Server) → length xs ≡ n → fread n (xs ++ ys) s ≡ ok ((xs, ys), s)
unfolding fread
fread-append n xs ys s size = rw (sym size, split_at-append xs ys) refl

pub fseek-append :
    (xs front ys : List ℕ) (past : ℕ) (s : Server)
    → s.event_log ≡ xs ++ (front ++ ys)
    → length front ≡ past
    → fseek (pos (length xs)) past s ≡ ok (ys, s)
unfolding fseek
fseek-append xs front ys past s file size =
    let at : length (xs ++ front) ≡ length xs + past =
      omega (arith, length-append xs front, size) in
    rw (file, sym (append_assoc xs front ys), sym at, split_at-append (xs ++ front) ys) refl

pub long_of-put_long : (z : ℤ) → Fits (2 ^ 63) z → long_of (put_long z) ≡ z
unfolding put_long
long_of-put_long z fits = signed_of-word_of 8 (2 ^ 63) z refl fits

pub int_of-put_int : (z : ℤ) → Fits (2 ^ 31) z → int_of (put_int z) ≡ z
unfolding put_int
int_of-put_int z fits = signed_of-word_of 4 (2 ^ 31) z refl fits

-- A length is read back as a number without a sign.
pub number_of-put_long : (n : ℕ) → n < 256 ^ 8 → number_of (put_long (pos n)) ≡ n
unfolding put_long word_of
number_of-put_long n small = rw (mod-eq_of_lt small) (number_of-bytes_of 8 n small)
