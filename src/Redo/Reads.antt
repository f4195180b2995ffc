-- ===== src/Redo/Reads.antt =====
-- A record that stands in the log is read back as it was written.
use backup_lfs.Base.{
  ℕ, zero, suc, ◌+◌, ◌^◌, ◌<◌, ◌≡◌, refl, ◌∙◌, ap, List, [], ◌∷◌, ◌++◌, arith, length,
  length-append, append_assoc, ok, All,
}
use backup_lfs.Base.Int.{ℤ, pos, minus_one}
use backup_lfs.Server.{Server}
use backup_lfs.Log.{LogRecord, LogType, type_number, na, put_long, put_int, front_bytes, rest_bytes}
use backup_lfs.Log.Bytes.{length-put_long, length-put_int, length-front_bytes}
use backup_lfs.Log.Chain.{with_record}
use backup_lfs.Log.Paths.{string_record}
use backup_lfs.Redo.{c_string, read_write, read_texts, read_text}
use backup_lfs.Redo.Decode.{
  Fits, fread-append, fseek-append, long_of-put_long, int_of-put_int, number_of-put_long,
}

-- The record stands in the log behind `before`, with its texts as they were written; its `next_LRN`
-- may have been written since, and more may stand behind it.
abbrev pub Stands : (before : List ℕ) (r : LogRecord) (text text1 : List ℕ) → Server → Type 0
Stands before r text text1 s =
    (next : ℤ) × (later : List ℕ) × (s.event_log
      ≡ with_record before r next (rest_bytes text text1 r ++ later))

-- From the type on, the fields one by one.
fields :
    (text text1 later : List ℕ) (r : LogRecord)
    → rest_bytes text text1 r ++ later
      ≡ put_int (pos (type_number r.record_type))
        ++ (put_int r.fd
            ++ (put_long r.offset
                ++ (put_long (pos r.write_length)
                    ++ (text ++ (put_long (pos r.write_length1) ++ (text1 ++ later))))))
unfolding rest_bytes
fields text text1 later r = simp append_assoc refl

pub read_write-back :
    (before written : List ℕ) (r : LogRecord) (s : Server)
    → Stands before r written na s
    → length written ≡ r.write_length
    → r.write_length < 256 ^ 8
    → Fits (2 ^ 31) r.fd
    → Fits (2 ^ 63) r.offset
    → read_write (pos (length before)) s
      ≡ ok (record { fd = r.fd; offset = r.offset; text = written }, s)
unfolding read_write
read_write-back before written r s (next, later, file) size small fd offset =
    let type = put_int (pos (type_number r.record_type)) in
    let front = front_bytes r ++ (put_long next ++ type) in
    let behind =
      put_int r.fd
      ++ (put_long r.offset
          ++ (put_long (pos r.write_length)
              ++ (written ++ (put_long (pos r.write_length1) ++ (na ++ later))))) in
    let there : s.event_log ≡ before ++ (front ++ behind) =
      file ∙ rw (fields written na later r) (simp append_assoc refl) in
    let past : length front ≡ 8 + 4 + 8 + 8 + 4 = omega (
      arith,
      length-append (front_bytes r) (put_long next ++ type),
      length-append (put_long next) type,
      length-front_bytes r,
      length-put_long next,
      length-put_int (pos (type_number r.record_type)),
    ) in
    rw
      (
        fseek-append before front behind _ s there past,
        fread-append 4 (put_int r.fd) _ s (length-put_int r.fd),
        fread-append 8 (put_long r.offset) _ s (length-put_long r.offset),
        fread-append 8 (put_long (pos r.write_length)) _ s (length-put_long (pos r.write_length)),
        number_of-put_long r.write_length small,
        fread-append r.write_length written _ s size,
        int_of-put_int r.fd fd,
        long_of-put_long r.offset offset,
      )
      refl

-- A text and the zero that ends it, read as a C string.
pub c_string-append :
    (cs rest : List ℕ) → All (λ (c : ℕ). 0 < c) cs → c_string (cs ++ 0 ∷ rest) ≡ cs
c_string-append [] rest x = refl
c_string-append (zero ∷ cs) rest (x, xs) = absurd (omega arith)
c_string-append (suc c ∷ cs) rest (x, xs) = ap (◌∷◌ (suc c)) (c_string-append cs rest xs)

-- The record of a rename, a creation or a removal gives both texts, and the first alone, each up to
-- and with its zero.
pub read_texts-back :
    (before text text1 : List ℕ) (number prev : ℤ) (txnid : ℕ) (type : LogType) (s : Server)
    → Stands before
        (string_record number txnid prev type text text1)
        (text ++ 0 ∷ [])
        (text1 ++ 0 ∷ [])
        s
    → suc (length text) < 256 ^ 8
    → suc (length text1) < 256 ^ 8
    → (read_texts (pos (length before)) s ≡ ok ((text ++ 0 ∷ [], text1 ++ 0 ∷ []), s))
      × (read_text (pos (length before)) s ≡ ok (text ++ 0 ∷ [], s))
unfolding read_texts read_text
read_texts-back before text text1 number prev txnid type s (next, later, file) small small1 =
    let r = string_record number txnid prev type text text1 in
    let first = text ++ 0 ∷ [] in
    let second = text1 ++ 0 ∷ [] in
    let kind = put_int (pos (type_number type)) in
    let fd = put_int minus_one in
    let offset = put_long minus_one in
    let front = front_bytes r ++ (put_long next ++ (kind ++ (fd ++ offset))) in
    let size1 = put_long (pos (suc (length text1))) in
    let behind1 = size1 ++ (second ++ later) in
    let behind = put_long (pos (suc (length text))) ++ (first ++ behind1) in
    let there : s.event_log ≡ before ++ (front ++ behind) =
      file ∙ rw (fields first second later r) (simp append_assoc refl) in
    let past : length front ≡ 8 + 4 + 8 + 8 + 4 + 4 + 8 = omega (
      arith,
      length-append (front_bytes r) (put_long next ++ (kind ++ (fd ++ offset))),
      length-append (put_long next) (kind ++ (fd ++ offset)),
      length-append kind (fd ++ offset),
      length-append fd offset,
      length-front_bytes r,
      length-put_long next,
      length-put_int (pos (type_number type)),
      length-put_int minus_one,
      length-put_long minus_one,
    ) in
    let sized : length first ≡ suc (length text) = omega (arith, length-append text (0 ∷ [])) in
    let sized1 : length second ≡ suc (length text1) = omega (arith, length-append text1 (0 ∷ [])) in
    let start = fseek-append before front behind (8 + 4 + 8 + 8 + 4 + 4 + 8) s there past in
    let size =
      fread-append 8 (put_long (pos (suc (length text)))) (first ++ behind1) s
        (length-put_long (pos (suc (length text)))) in
    let body = fread-append (suc (length text)) first behind1 s sized in
    (
      rw
          (
            start,
            size,
            number_of-put_long (suc (length text)) small,
            body,
            fread-append 8 size1 (second ++ later) s (length-put_long (pos (suc (length text1)))),
            number_of-put_long (suc (length text1)) small1,
            fread-append (suc (length text1)) second later s sized1,
          )
          refl,
      rw (start, size, number_of-put_long (suc (length text)) small, body) refl,
    )
