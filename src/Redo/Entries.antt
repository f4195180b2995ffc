-- ===== src/Redo/Entries.antt =====
-- The log as a sequence of records, each at the offset that is its number.
use backup_lfs.Base.{
  ℕ, ◌+◌, ◌^◌, ◌<◌, ◌≡◌, refl, sym, ◌∙◌, ap, ◌⊎◌, inl, inr, List, [], ◌∷◌, ◌++◌, arith, length,
  length-append, append_assoc, subst,
}
use backup_lfs.Base.Int.{ℤ, pos}
use backup_lfs.Server.{Server}
use backup_lfs.Log.{LogRecord, na, put_long, front_bytes, rest_bytes}
use backup_lfs.Log.Bytes.{length-put_long}
use backup_lfs.Redo.{Redone}
use backup_lfs.Redo.Decode.{Fits}
use backup_lfs.Redo.Reads.{Stands}

-- A record as it is in the file: its `next_LRN`, which changes, stands beside it.
pub record Entry : Type 0 where
  pub content : LogRecord
  pub next : ℤ
  pub text : List ℕ
  pub text1 : List ℕ

abbrev pub entry_bytes : Entry → List ℕ
entry_bytes e = front_bytes e.content ++ (put_long e.next ++ rest_bytes e.text e.text1 e.content)

abbrev pub log_bytes : List Entry → List ℕ
log_bytes [] = []
log_bytes (e ∷ es) = entry_bytes e ++ log_bytes es

-- The record is one of a write and says this much of it, in the range of the numbers of the file.
pub record Says (e : Entry) (r : Redone) : Type 0 where
  pub same_fd : r.fd ≡ e.content.fd
  pub same_offset : r.offset ≡ e.content.offset
  pub same_text : r.text ≡ e.text
  pub plain : e.text1 ≡ na
  pub size : length e.text ≡ e.content.write_length
  pub small : e.content.write_length < 256 ^ 8
  pub fd_fits : Fits (2 ^ 31) e.content.fd
  pub offset_fits : Fits (2 ^ 63) e.content.offset

-- One of the records, of which the first begins at `base`, has the number and says this.
abbrev pub HasWrite : (base : ℕ) → List Entry → (lrn : ℤ) → Redone → Type 0
HasWrite base [] lrn r = ⊥
HasWrite base (e ∷ es) lrn r =
    ((lrn ≡ pos base) × Says e r) ⊎ HasWrite (base + length (entry_bytes e)) es lrn r

pub log_bytes-append : (es fs : List Entry) → log_bytes (es ++ fs) ≡ log_bytes es ++ log_bytes fs
log_bytes-append [] fs = refl
log_bytes-append (e ∷ es) fs =
    rw (log_bytes-append es fs) (sym (append_assoc (entry_bytes e) (log_bytes es) (log_bytes fs)))

-- More records at the end change nothing.
pub HasWrite-append :
    (base : ℕ) (es fs : List Entry) (lrn : ℤ) (r : Redone)
    → HasWrite base es lrn r
    → HasWrite base (es ++ fs) lrn r
HasWrite-append base [] fs lrn r h = absurd h
HasWrite-append base (e ∷ es) fs lrn r (inl here) = inl here
HasWrite-append base (e ∷ es) fs lrn r (inr there) =
    inr (HasWrite-append (base + length (entry_bytes e)) es fs lrn r there)

abbrev pub linked_to : ℤ → Entry → Entry
linked_to new e = record e { next = new }

pub length-linked_to :
    (new : ℤ) (e : Entry) → length (entry_bytes (linked_to new e)) ≡ length (entry_bytes e)
length-linked_to new e =
    let front = front_bytes e.content in
    let rest = rest_bytes e.text e.text1 e.content in
    omega (
      arith,
      length-append front (put_long new ++ rest),
      length-append (put_long new) rest,
      length-append front (put_long e.next ++ rest),
      length-append (put_long e.next) rest,
      length-put_long new,
      length-put_long e.next,
    )

-- Nor does a new `next_LRN` in one of them.
pub HasWrite-link :
    (base : ℕ) (es fs : List Entry) (e : Entry) (new lrn : ℤ) (r : Redone)
    → HasWrite base (es ++ e ∷ fs) lrn r
    → HasWrite base (es ++ linked_to new e ∷ fs) lrn r
HasWrite-link base [] fs e new lrn r (inl (at, says)) = inl (
  at,
  record {
    same_fd = says.same_fd;
    same_offset = says.same_offset;
    same_text = says.same_text;
    plain = says.plain;
    size = says.size;
    small = says.small;
    fd_fits = says.fd_fits;
    offset_fits = says.offset_fits;
  },
)
HasWrite-link base [] fs e new lrn r (inr there) =
    inr (subst (λ k. HasWrite (base + k) fs lrn r) (sym (length-linked_to new e)) there)
HasWrite-link base (d ∷ es) fs e new lrn r (inl here) = inl here
HasWrite-link base (d ∷ es) fs e new lrn r (inr there) =
    inr (HasWrite-link (base + length (entry_bytes d)) es fs e new lrn r there)

-- The record that is put at the end.
pub HasWrite-last :
    (base : ℕ) (es : List Entry) (e : Entry) (r : Redone)
    → Says e r
    → HasWrite base (es ++ e ∷ []) (pos (base + length (log_bytes es))) r
HasWrite-last base [] e r says = inl (ap pos (omega arith), says)
HasWrite-last base (d ∷ es) e r says = inr (
    subst (λ k. HasWrite (base + length (entry_bytes d)) (es ++ e ∷ []) (pos k) r)
      (omega (arith, length-append (entry_bytes d) (log_bytes es)))
      (HasWrite-last (base + length (entry_bytes d)) es e r says))

-- A record of the sequence stands in the file.
pub HasWrite-Stands :
    (before : List ℕ) (es : List Entry) (lrn : ℤ) (r : Redone) (s : Server)
    → s.event_log ≡ before ++ log_bytes es
    → HasWrite (length before) es lrn r
    → (e : Entry) × (first : List ℕ) × (lrn ≡ pos (length first))
      × Says e r
      × Stands first e.content e.text e.text1 s
HasWrite-Stands before [] lrn r s file h = absurd h
HasWrite-Stands before (e ∷ es) lrn r s file (inl (at, says)) =
    (e, before, at, says, (e.next, log_bytes es, file ∙ simp append_assoc refl))
HasWrite-Stands before (e ∷ es) lrn r s file (inr there) =
    HasWrite-Stands (before ++ entry_bytes e) es lrn r s
      (file ∙ sym (append_assoc before (entry_bytes e) (log_bytes es)))
      (subst (λ k. HasWrite k es lrn r) (sym (length-append before (entry_bytes e))) there)
