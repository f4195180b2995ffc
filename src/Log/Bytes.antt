-- ===== src/Log/Bytes.antt =====
-- The length of what is written, and a write into the middle of the file.
use backup_lfs.Base.{
  ℕ, zero, suc, ◌+◌, ◌/◌, ◌≡◌, refl, ap, List, [], ◌∷◌, ◌++◌, arith, length, length-append,
}
use backup_lfs.Base.Int.{ℤ, pos}
use backup_lfs.Log.{bytes_of, word_of, put_long, put_int, LogRecord, front_bytes, write_at}

length-bytes_of : (w n : ℕ) → length (bytes_of w n) ≡ w
unfolding bytes_of
length-bytes_of zero n = refl
length-bytes_of (suc w) n = omega (arith, length-bytes_of w (n / 256))

pub length-put_long : (z : ℤ) → length (put_long z) ≡ 8
unfolding put_long
length-put_long z = length-bytes_of 8 (word_of 8 z)

pub length-put_int : (z : ℤ) → length (put_int z) ≡ 4
unfolding put_int
length-put_int z = length-bytes_of 4 (word_of 4 z)

pub length-front_bytes : (r : LogRecord) → length (front_bytes r) ≡ 8 + 4 + 8
unfolding front_bytes
length-front_bytes r = omega (
  arith,
  length-append (put_long r.lrn) (put_int (pos r.txn_id) ++ put_long r.prev_lrn),
  length-append (put_int (pos r.txn_id)) (put_long r.prev_lrn),
  length-put_long r.lrn,
  length-put_int (pos r.txn_id),
  length-put_long r.prev_lrn,
)

write_at-front : (bs ys zs : List ℕ) → length ys ≡ length bs → write_at 0 bs (ys ++ zs) ≡ bs ++ zs
unfolding write_at
write_at-front [] [] zs e = refl
write_at-front [] (y ∷ ys) zs e = absurd (omega arith)
write_at-front (b ∷ bs) [] zs e = absurd (omega arith)
write_at-front (b ∷ bs) (y ∷ ys) zs e = ap (◌∷◌ b) (write_at-front bs ys zs (omega arith))

-- Bytes are replaced by as many others.
pub write_at-middle :
    (xs bs ys zs : List ℕ)
    → length ys ≡ length bs
    → write_at (length xs) bs (xs ++ (ys ++ zs)) ≡ xs ++ (bs ++ zs)
unfolding write_at
write_at-middle [] bs ys zs e = write_at-front bs ys zs e
write_at-middle (x ∷ xs) bs ys zs e = ap (◌∷◌ x) (write_at-middle xs bs ys zs e)
