-- ===== src/Release/Held.antt =====
-- The exclusive locks of a transaction among all locks.
use backup_lfs.Base.{
  ◌≡◌, ◌≢◌, refl, sym, ◌∙◌, ap, subst, ◌⊎◌, inl, inr, some, List, [], ◌∷◌, ◌++◌, arith, ◌==◌,
  if◌then◌else◌, All, ℕ_discrete, eq→==, ne→==,
}
use backup_lfs.Header.{Ptr, FileLock}
use backup_lfs.LockList.{Locks}
use backup_lfs.LockList.Chain.{Lock, lock_of, Cells, IsValid}
use backup_lfs.Locking.Fresh.{Linked-from}

-- The lock at the address is exclusive.
abbrev pub ExclusiveAt : Ptr → Cells → Type 0
ExclusiveAt a [] = ⊥
ExclusiveAt a ((b, l) ∷ cs) = ((b ≡ a) × (l.mode ≡ 1)) ⊎ ((b ≢ a) × ExclusiveAt a cs)

abbrev pub without : Ptr → Cells → Cells
without a [] = []
without a ((b, l) ∷ cs) = let rest = without a cs in if b == a then cs else (b, l) ∷ rest

abbrev pub without_all : List Ptr → Cells → Cells
without_all [] cs = cs
without_all (a ∷ ps) cs = without_all ps (without a cs)

abbrev pub IsDistinct : List Ptr → Type 0
IsDistinct [] = Unit
IsDistinct (a ∷ ps) = All (λ (b : Ptr). a ≢ b) ps × IsDistinct ps

ExclusiveAt-split :
    (a : Ptr) (cs : Cells)
    → ExclusiveAt a cs
    → (pre : Cells) × (l : Lock) × (post : Cells) × (cs ≡ pre ++ (a, l) ∷ post)
      × (without a cs ≡ pre ++ post)
      × (l.mode ≡ 1)
ExclusiveAt-split a [] x = absurd x
ExclusiveAt-split a ((b, l) ∷ cs) (inl (e, m)) =
    ([], l, cs, ap (λ p. (p, l) ∷ cs) e, rw (eq→== b a e) refl, m)
ExclusiveAt-split a ((b, l) ∷ cs) (inr (ne, x)) =
    let (pre, k, post, e, w, m) = ExclusiveAt-split a cs x in
    ((b, l) ∷ pre, k, post, ap (◌∷◌ (b, l)) e, rw (ne→== b a ne) (ap (◌∷◌ (b, l)) w), m)

ExclusiveAt-without :
    (a b : Ptr) (cs : Cells) → a ≢ b → ExclusiveAt b cs → ExclusiveAt b (without a cs)
ExclusiveAt-without a b [] ne x = x
ExclusiveAt-without a b ((c, l) ∷ cs) ne x = elim (ℕ_discrete c a) [
  | yes same ↦ rw (eq→== c a same) (passes same x)
  | no other ↦ rw (ne→== c a other) (keeps (ExclusiveAt-without a b cs ne) x)
]
  where
    passes : c ≡ a → ExclusiveAt b ((c, l) ∷ cs) → ExclusiveAt b cs
    passes same (inl (e, m)) = absurd (ne (sym same ∙ e))
    passes same (inr (_, x)) = x

    keeps :
        (ExclusiveAt b cs → ExclusiveAt b (without a cs))
        → ExclusiveAt b ((c, l) ∷ cs)
        → ExclusiveAt b ((c, l) ∷ without a cs)
    keeps further (inl here) = inl here
    keeps further (inr (apart, x)) = inr (apart, further x)

pub All-ExclusiveAt-without :
    (a : Ptr) (ps : List Ptr) (cs : Cells)
    → All (λ (b : Ptr). a ≢ b) ps
    → All (λ (b : Ptr). ExclusiveAt b cs) ps
    → All (λ (b : Ptr). ExclusiveAt b (without a cs)) ps
All-ExclusiveAt-without a [] cs ne xs = tt
All-ExclusiveAt-without a (b ∷ ps) cs (n, ne) (x, xs) =
    (ExclusiveAt-without a b cs n x, All-ExclusiveAt-without a ps cs ne xs)

-- The node at the address of an exclusive lock.
pub IsValid-at :
    (s : Locks) (a : Ptr) (n : FileLock) (cs : Cells)
    → IsValid s cs
    → ExclusiveAt a cs
    → s.cell a ≡ some n
    → (pre : Cells) × (post : Cells) × IsValid s (pre ++ (a, lock_of n) ∷ post)
      × (without a cs ≡ pre ++ post)
      × (n.file_mode ≡ 1)
IsValid-at s a n cs v x at =
    let (pre, l, post, e, w, m) = ExclusiveAt-split a cs x in
    let v' = subst (IsValid s) e v in
    let (before, p, (n', e', ne, at', lk, bk, out, rest)) =
      Linked-from s.cell s.head s.head a l pre post v'.linked in
    let same : n' ≡ n = ground (arith, at, at') in
    let is : lock_of n ≡ l = ap lock_of (sym same) ∙ lk in
    (
      pre,
      post,
      subst (λ (k : Lock). IsValid s (pre ++ (a, k) ∷ post)) (sym is) v',
      w,
      ap (λ (k : Lock). k.mode) is ∙ m,
    )
