-- ===== src/Redo/Commits.antt =====
-- A write that is logged is applied as it was made, also behind the record of the commit.
use mathlib.Core.List.{append-nil}
use backup_lfs.Base.{
  ℕ, zero, suc, Option, none, ◌+◌, ◌^◌, ◌<◌, ◌≡◌, refl, ◌∙◌, sym, ap, subst, some, List, [], ◌∷◌,
  ◌++◌, arith, ok, length, length-append, append_assoc, Code,
}
use backup_lfs.Base.Int.{ℤ, pos, minus_one}
use backup_lfs.Header.{Ptr, FileLock, TxnNode, WriteRecord}
use backup_lfs.Txn.{find_txn, update_txn_node}
use backup_lfs.LockList.Chain.{Cells, IsValid}
use backup_lfs.Server.{Server}
use backup_lfs.Log.{na, put_before, string_bytes, rest_bytes}
use backup_lfs.Log.Chain.{with_record, next_number, update_record}
use backup_lfs.Update.{write_offset, write_log}
use backup_lfs.Update.Points.{logged}
use backup_lfs.Update.Runs.{pointer_with, written_node, write_log-run}
use backup_lfs.Redo.{Redone}
use backup_lfs.Redo.Decode.{Fits}
use backup_lfs.Redo.Entries.{
  Entry, entry_bytes, log_bytes, log_bytes-append, linked_to, length-linked_to, Says, HasWrite,
  HasWrite-append, HasWrite-link, HasWrite-last,
}
use backup_lfs.Redo.Writes.{Matches}

pub log_bytes-middle :
    (es fs : List Entry) (e : Entry)
    → log_bytes (es ++ e ∷ fs)
      ≡ with_record
          (log_bytes es)
          e.content
          e.next
          (rest_bytes e.text e.text1 e.content ++ log_bytes fs)
log_bytes-middle es fs e = log_bytes-append es (e ∷ fs) ∙ simp append_assoc refl

-- The sequence behind a linked record: the old record refers to the new one, which is the last.
abbrev pub linked :
    (es : List Entry) (e : Entry) (fs : List Entry) (lrn : ℤ) (new : Entry) → List Entry
linked es e fs lrn new = (es ++ linked_to lrn e ∷ fs) ++ new ∷ []

pub linked-bytes :
    (es fs : List Entry) (e new : Entry) (lrn : ℤ)
    → with_record (log_bytes es) e.content lrn (rest_bytes e.text e.text1 e.content ++ log_bytes fs)
        ++ entry_bytes new
      ≡ log_bytes (linked es e fs lrn new)
linked-bytes es fs e new lrn =
    let all = es ++ linked_to lrn e ∷ fs in
    ap (λ bs. bs ++ entry_bytes new) (sym (log_bytes-middle es fs (linked_to lrn e)))
    ∙ ap (λ bs. log_bytes all ++ bs) (sym (append-nil (entry_bytes new)))
    ∙ sym (log_bytes-append all (new ∷ []))

pub Matches-linked :
    (es fs : List Entry) (e new : Entry) (lrn : ℤ) (ws : List WriteRecord) (rs : List Redone)
    → Matches (es ++ e ∷ fs) ws rs
    → Matches (linked es e fs lrn new) ws rs
Matches-linked es fs e new lrn [] [] m = tt
Matches-linked es fs e new lrn [] (r ∷ rs) m = absurd m
Matches-linked es fs e new lrn (w ∷ ws) [] m = absurd m
Matches-linked es fs e new lrn (w ∷ ws) (r ∷ rs) (h, m) = (
  HasWrite-append 0 (es ++ linked_to lrn e ∷ fs) (new ∷ []) w.lrn r
      (HasWrite-link 0 es fs e lrn w.lrn r h),
  Matches-linked es fs e new lrn ws rs m,
)

Matches-last :
    (es : List Entry) (ws : List WriteRecord) (rs : List Redone) (w : WriteRecord) (r : Redone)
    → Matches es ws rs
    → HasWrite 0 es w.lrn r
    → Matches es (ws ++ w ∷ []) (rs ++ r ∷ [])
Matches-last es [] [] w r m h = (h, tt)
Matches-last es [] (x ∷ rs) w r m h = absurd m
Matches-last es (v ∷ ws) [] w r m h = absurd m
Matches-last es (v ∷ ws) (x ∷ rs) w r (k, m) h = (k, Matches-last es ws rs w r m h)

put_before-some :
    (c : ℕ) (o : Option (List ℕ)) (bs : List ℕ)
    → put_before c o ≡ some bs
    → (cs : List ℕ) × (o ≡ some cs) × (length bs ≡ length cs + 1)
put_before-some c none bs e = absurd (ground (arith, e))
put_before-some c (some cs) bs e = (cs, refl, ground (arith, e))

length-string_bytes : (n : ℕ) (cs bs : List ℕ) → string_bytes n cs ≡ some bs → length bs ≡ n
unfolding string_bytes
length-string_bytes zero cs bs e = ground (arith, e)
length-string_bytes (suc zero) [] bs e = ground (arith, e)
length-string_bytes (suc (suc n)) [] bs e = absurd (ground (arith, e))
length-string_bytes (suc n) (c ∷ cs) bs e =
    let (rest, there, size) = put_before-some c (string_bytes n cs) bs e in
    omega (arith, size, length-string_bytes n cs rest there)

-- Where the new record begins.
pub length-linked :
    (es fs : List Entry) (e : Entry) (lrn : ℤ) (s : Server)
    → s.event_log ≡ log_bytes (es ++ e ∷ fs)
    → length (log_bytes (es ++ linked_to lrn e ∷ fs)) ≡ length s.event_log
length-linked es fs e lrn s file = omega (
  arith,
  ap (λ (bs : List ℕ). length bs) file,
  ap (λ (bs : List ℕ). length bs) (log_bytes-append es (e ∷ fs)),
  ap (λ (bs : List ℕ). length bs) (log_bytes-append es (linked_to lrn e ∷ fs)),
  length-append (log_bytes es) (entry_bytes e ++ log_bytes fs),
  length-append (log_bytes es) (entry_bytes (linked_to lrn e) ++ log_bytes fs),
  length-append (entry_bytes e) (log_bytes fs),
  length-append (entry_bytes (linked_to lrn e)) (log_bytes fs),
  length-linked_to lrn e,
)

HasWrite-number :
    (es fs : List Entry) (e new : Entry) (lrn : ℤ) (s : Server) (r : Redone)
    → s.event_log ≡ log_bytes (es ++ e ∷ fs)
    → Says new r
    → HasWrite 0 (linked es e fs lrn new) (pos (length s.event_log)) r
HasWrite-number es fs e new lrn s r file says =
    let same : 0 + length (log_bytes (es ++ linked_to lrn e ∷ fs)) ≡ length s.event_log =
      omega (arith, length-linked es fs e lrn s file) in
    subst (λ k. HasWrite 0 (linked es e fs lrn new) (pos k) r) same
      (HasWrite-last 0 (es ++ linked_to lrn e ∷ fs) new r says)

module _ (txnid : ℕ) (s : Server) (t : TxnNode) (es fs : List Entry) (e : Entry)
    (live : find_txn txnid s.txns ≡ some t) (last : t.last_lrn ≡ pos (length (log_bytes es)))
    (file : s.event_log ≡ log_bytes (es ++ e ∷ fs)) where
  -- The new record.
  abbrev pub new_write : (fd offset : ℤ) (write_length : ℕ) (text written : List ℕ) → Entry
  new_write fd offset write_length text written = record {
    content =
        update_record (pos (length s.event_log)) txnid (pos (length (log_bytes es))) fd offset
          write_length text;
    next = minus_one;
    text = written;
    text1 = na;
  }

  pub write_log-Matches :
      (lseek_end : ℤ → Code Server ℤ) (fuel : ℕ) (fd offset : ℤ) (text written : List ℕ)
      (write_length : ℕ) (p : Ptr) (n : FileLock) (cs : Cells) (rs : List Redone)
      → write_offset lseek_end fd n s ≡ ok (offset, s)
      → IsValid s.locks cs
      → length cs < fuel
      → pointer_with fd s.locks.cell cs ≡ some p
      → s.locks.cell p ≡ some n
      → string_bytes write_length text ≡ some written
      → write_length < 256 ^ 8
      → Fits (2 ^ 31) fd
      → Fits (2 ^ 63) offset
      → Matches (es ++ e ∷ fs) n.writes_at rs
      → let number = pos (length s.event_log) in
        let node = written_node offset write_length number n in
        let new = new_write fd offset write_length text written in
        let after = linked es e fs number new in
        (s' : Server) × (write_log lseek_end fuel fd text write_length txnid s
          ≡ ok (pos write_length, s'))
        × (s'.locks.cell p ≡ some node)
        × (s'.event_log ≡ log_bytes after)
        × (s'.txns ≡ update_txn_node txnid (λ u. record u { last_lrn = number }) s.txns)
        × Matches after node.writes_at
            (rs ++ record { fd = fd; offset = offset; text = written } ∷ [])
  write_log-Matches lseek_end fuel fd offset text written write_length p n cs rs place v short found
        at fits small fd_fits offset_fits m =
      let number = pos (length s.event_log) in
      let rest = rest_bytes e.text e.text1 e.content ++ log_bytes fs in
      let file' = file ∙ log_bytes-middle es fs e in
      let here : number ≡ next_number (log_bytes es) e.content e.next rest =
        ap (λ bytes. pos (length bytes)) file' in
      let new = new_write fd offset write_length text written in
      let r : Redone = record { fd = fd; offset = offset; text = written } in
      let (l, run, node, others, v') =
        write_log-run txnid s t (log_bytes es) rest e.content e.next live last file' lseek_end fuel
          fd offset text written write_length p n cs place v short found at fits in
      let says : Says new r = record {
        same_fd = refl;
        same_offset = refl;
        same_text = refl;
        plain = refl;
        size = length-string_bytes write_length text written fits;
        small = small;
        fd_fits = fd_fits;
        offset_fits = offset_fits;
      } in
      (
        logged txnid s t (log_bytes es) rest e.content e.next live last file' (entry_bytes new) l,
        run,
        node,
        subst
            (λ k.
              with_record (log_bytes es) e.content k rest ++ entry_bytes new
              ≡ log_bytes (linked es e fs number new))
            here (linked-bytes es fs e new number),
        ap (λ k. update_txn_node txnid (λ u. record u { last_lrn = k }) s.txns) (sym here),
        Matches-last (linked es e fs number new) n.writes_at rs _ r
            (Matches-linked es fs e new number n.writes_at rs m)
            (HasWrite-number es fs e new number s r file says),
      )
