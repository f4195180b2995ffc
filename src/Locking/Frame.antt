-- ===== src/Locking/Frame.antt =====
-- Code that links nodes leaves the list of a transaction's own locks alone.
use backup_lfs.Base.{
  ℕ, ◌≡◌, refl, ◌∙◌, ap, some, arith, ◌==◌, ◌&&◌, ltb, not, Code, ◌>>◌, get, zero, suc, ℕ_discrete,
  eq→==, ne→==,
}
use backup_lfs.Header.{Ptr, null, FileLock}
use backup_lfs.LockList.Frame.{
  Frame, Keeps, Keeps-same, Keeps-get, Keeps-set_head, Keeps-bind, Keeps-if, Keeps-load,
  Keeps-modify, Keeps-then,
}
use backup_lfs.LockList.{
  Locks, write, load, modify, link_behind, link_file_node, last_shared, link_shared_at,
  link_shared_node,
}

-- Every node is still there, with the same `next_txn`.
abbrev pub Kept : Locks → Locks → Type 0
Kept s s' =
    (p : Ptr) (n : FileLock)
    → s.cell p ≡ some n
    → (n' : FileLock) × (s'.cell p ≡ some n') × (n'.next_txn ≡ n.next_txn)

Kept-trans : (a b c : Locks) → Kept a b → Kept b c → Kept a c
Kept-trans a b c x y p n e =
    let (n', e', same) = x p n e in let (n'', e'', same') = y p n' e' in (n'', e'', same' ∙ same)

Kept-Frame : Frame Kept
Kept-Frame = record {
  same = λ s p n e. (n, e, refl);
  trans = Kept-trans;
  heads = λ s q p n e. (n, e, refl);
}

pub Kept-write :
    (p : Ptr) (f : FileLock → FileLock)
    → ((n : FileLock) → (f n).next_txn ≡ n.next_txn)
    → (s : Locks) (n : FileLock) → s.cell p ≡ some n
    → Kept s (write s p (some (f n)))
Kept-write p f keeps s n at q m e = elim (ℕ_discrete p q) [
  | yes same ↦
      let here : n ≡ m = ground (arith, e, at, same) in
      (f n, rw (eq→== p q same) refl, keeps n ∙ ap (λ (k : FileLock). k.next_txn) here)
  | no other ↦ (m, rw (ne→== p q other) e, refl)
]

Kept-modify :
    (p : Ptr) (f : FileLock → FileLock)
    → ((n : FileLock) → (f n).next_txn ≡ n.next_txn)
    → Keeps Kept (modify p f)
Kept-modify p f keeps = Keeps-modify Kept-Frame p f (Kept-write p f keeps)

-- One `modify` after another.
Kept-then :
    {B : Type 0} (p : Ptr) (f : FileLock → FileLock) (d : Code Locks B)
    → ((n : FileLock) → (f n).next_txn ≡ n.next_txn)
    → Keeps Kept d
    → Keeps Kept (modify p f >> d)
Kept-then p f d keeps y = Keeps-then Kept-Frame p f d (Kept-write p f keeps) y

link_behind-Keeps : (loc new : Ptr) → Keeps Kept (link_behind loc new)
unfolding link_behind
link_behind-Keeps loc new = Keeps-bind Kept-Frame (load loc) _ (Keeps-load Kept-Frame loc) λ l.
    Kept-then new _ _ (λ n. refl)
      (Keeps-bind Kept-Frame _ _
        (Keeps-if Kept-Frame (not (l.next == null)) _ _ (Kept-modify l.next _ (λ n. refl))
          (Keeps-same Kept-Frame tt))
        (λ _. Kept-then loc _ _ (λ n. refl) (Kept-modify new _ (λ n. refl))))

abbrev prev_to : Ptr → FileLock → FileLock
prev_to p n = record n { prev = p }

abbrev next_to : Ptr → FileLock → FileLock
next_to p n = record n { next = p }

pub link_file_node-Keeps : (f : ℕ) (loc new : Ptr) → Keeps Kept (link_file_node f loc new)
unfolding link_file_node
link_file_node-Keeps f loc new =
    Keeps-if Kept-Frame (loc == null) _ _
      (Keeps-bind Kept-Frame _ _ (Keeps-set_head Kept-Frame new)
        (λ _. Kept-modify new (prev_to new) (λ n. refl)))
      (Keeps-bind Kept-Frame get _ (Keeps-get Kept-Frame) λ s.
        Keeps-bind Kept-Frame (load loc) _ (Keeps-load Kept-Frame loc) λ l.
          Keeps-if Kept-Frame ((loc == s.head) && ltb f l.file_inode) _ _
            (Kept-then new (next_to loc) _ (λ n. refl)
              (Kept-then loc (prev_to new) _ (λ n. refl)
                (Kept-then new (prev_to new) _ (λ n. refl) (Keeps-set_head Kept-Frame new))))
            (link_behind-Keeps loc new))

last_shared-Keeps : (fuel : ℕ) (p : Ptr) → Keeps Kept (last_shared fuel p)
unfolding last_shared
last_shared-Keeps zero p = record { after = λ s. tt }
last_shared-Keeps (suc k) p = Keeps-bind Kept-Frame (load p) _ (Keeps-load Kept-Frame p) λ n.
    Keeps-if Kept-Frame (n.next_shared_rec == null) _ _ (Keeps-same Kept-Frame p)
      (last_shared-Keeps k n.next_shared_rec)

pub link_shared_node-Keeps : (fuel : ℕ) (loc new : Ptr) → Keeps Kept (link_shared_node fuel loc new)
unfolding link_shared_node link_shared_at
link_shared_node-Keeps fuel loc new =
    Keeps-bind Kept-Frame (last_shared fuel loc) _ (last_shared-Keeps fuel loc) λ p.
      Keeps-bind Kept-Frame (link_behind p new) _ (link_behind-Keeps p new)
        λ _. Kept-then new _ _ (λ n. refl) (Kept-modify p _ (λ n. refl))
