-- ===== src/Release/Remove.antt =====
-- Taking out a lock that is the only one on its file keeps the list valid.
use backup_lfs.Base.{
  ◌≡◌, ◌≢◌, refl, sym, ◌∙◌, ap, inl, inr, Option, none, some, [], ◌∷◌, ◌++◌, arith, ◌==◌, not, All,
  ok, Code, ◌>>◌, get, ℕ_discrete, ne→==,
}
use backup_lfs.Header.{Ptr, null, FileLock}
use backup_lfs.LockList.{Locks, write, load, modify, set_head, free_file_node, delete_file_list}
use backup_lfs.LockList.Chain.{Lock, Cell, Cells, IsOrdered, Compatible, Chained, next_of, IsValid}
use backup_lfs.LockList.Delete.{delete_file_list-remove}
use backup_lfs.LockList.Frame.{
  Frame, Keeps, Keeps-same, Keeps-get, Keeps-set_head, Keeps-bind, Keeps-if, Keeps-load,
  Keeps-modify, Keeps-then, Keeps-run,
}

-- Every node was there before, with the same links to the shared locks of its file.
abbrev pub Stems : Locks → Locks → Type 0
Stems s s' =
    (p : Ptr) (n' : FileLock)
    → s'.cell p ≡ some n'
    → (n : FileLock) × (s.cell p ≡ some n) × (n'.next_shared_rec ≡ n.next_shared_rec)

Stems-trans : (a b c : Locks) → Stems a b → Stems b c → Stems a c
Stems-trans a b c x y p n'' e'' =
    let (n', e', same') = y p n'' e'' in let (n, e, same) = x p n' e' in (n, e, same' ∙ same)

Stems-Frame : Frame Stems
Stems-Frame = record {
  same = λ s p n e. (n, e, refl);
  trans = Stems-trans;
  heads = λ s q p n e. (n, e, refl);
}

Stems-write :
    (p : Ptr) (f : FileLock → FileLock)
    → ((n : FileLock) → (f n).next_shared_rec ≡ n.next_shared_rec)
    → (s : Locks) (n : FileLock) → s.cell p ≡ some n
    → Stems s (write s p (some (f n)))
Stems-write p f keeps s n at q m e = elim (ℕ_discrete p q) [
  | yes same ↦
      let here : f n ≡ m = ground (arith, e, same) in
      (n, ap s.cell (sym same) ∙ at, ap (λ (k : FileLock). k.next_shared_rec) (sym here) ∙ keeps n)
  | no other ↦ (m, rw (ne→== p q other) at e, refl)
]

Stems-modify :
    (p : Ptr) (f : FileLock → FileLock)
    → ((n : FileLock) → (f n).next_shared_rec ≡ n.next_shared_rec)
    → Keeps Stems (modify p f)
Stems-modify p f keeps = Keeps-modify Stems-Frame p f (Stems-write p f keeps)

Stems-then :
    {B : Type 0} (p : Ptr) (f : FileLock → FileLock) (d : Code Locks B)
    → ((n : FileLock) → (f n).next_shared_rec ≡ n.next_shared_rec)
    → Keeps Stems d
    → Keeps Stems (modify p f >> d)
Stems-then p f d keeps y = Keeps-then Stems-Frame p f d (Stems-write p f keeps) y

freed-Stems : (s : Locks) (p : Ptr) → Stems s (write s p none)
freed-Stems s p q m e = elim (ℕ_discrete p q) [
  | yes same ↦ absurd (ground (arith, e, same))
  | no other ↦ (m, rw (ne→== p q other) at e, refl)
]

free_file_node-Keeps : (p : Ptr) → Keeps Stems (free_file_node p)
unfolding free_file_node
free_file_node-Keeps p =
    Keeps-bind Stems-Frame (load p) _ (Keeps-load Stems-Frame p)
      λ n. record { after = λ s. freed-Stems s p }

delete_file_list-Keeps : (p : Ptr) → Keeps Stems (delete_file_list p)
unfolding delete_file_list
delete_file_list-Keeps p = Keeps-bind Stems-Frame get _ (Keeps-get Stems-Frame) λ s.
    Keeps-if Stems-Frame (s.head == p) _ _
      (Keeps-bind Stems-Frame (load p) _ (Keeps-load Stems-Frame p) λ n.
        Keeps-bind Stems-Frame (set_head n.next) _ (Keeps-set_head Stems-Frame n.next) λ _.
          Keeps-bind Stems-Frame _ _
            (Keeps-if Stems-Frame (not (n.next == null)) _ _
              (Stems-modify n.next (λ m. record m { prev = n.next }) (λ m. refl))
              (Keeps-same Stems-Frame tt))
            (λ _. free_file_node-Keeps p))
      (Keeps-bind Stems-Frame (load p) _ (Keeps-load Stems-Frame p) λ n.
        Keeps-if Stems-Frame (n.next == null) _ _
          (Stems-then n.prev (λ m. record m { next = null }) _ (λ m. refl) (free_file_node-Keeps p))
          (Stems-then n.prev (λ m. record m { next = n.next }) _ (λ m. refl)
            (Stems-then n.next (λ m. record m { prev = n.prev }) _ (λ m. refl)
              (free_file_node-Keeps p))))

-- No other lock is on the file.
abbrev pub IsAlone : Lock → Cells → Type 0
IsAlone l cs = All (λ (c : Cell). (c.1).inode ≢ l.inode) cs

pub All-without :
    (P : Cell → Type 0) (pre : Cells) (c : Cell) (post : Cells)
    → All P (pre ++ c ∷ post)
    → All P (pre ++ post)
All-without P [] c post (_, all) = all
All-without P (d ∷ pre) c post (here, all) = (here, All-without P pre c post all)

pub IsOrdered-without :
    (pre : Cells) (c : Cell) (post : Cells) → IsOrdered (pre ++ c ∷ post) → IsOrdered (pre ++ post)
IsOrdered-without [] c post (_, o) = o
IsOrdered-without ((b, m) ∷ pre) c post (all, o) =
    (All-without _ pre c post all, IsOrdered-without pre c post o)

next_of-without :
    (m : Lock) (pre : Cells) (a : Ptr) (l : Lock) (post : Cells)
    → All (λ (c : Cell). Compatible m c.1) (pre ++ (a, l) ∷ post)
    → IsOrdered (pre ++ (a, l) ∷ post)
    → m.inode ≢ l.inode
    → IsAlone l (pre ++ post)
    → next_of m (pre ++ (a, l) ∷ post) ≡ next_of m (pre ++ post)
next_of-without m [] a l [] all o ne alone = ground arith
next_of-without m [] a l ((b, k) ∷ post) (c, all) ((c', all'), o) ne (ne', alone) = ground arith
next_of-without m (d ∷ pre) a l post all o ne alone = refl

Chained-without :
    (h : Ptr → Option FileLock) (pre : Cells) (a : Ptr) (l : Lock) (post : Cells)
    → IsOrdered (pre ++ (a, l) ∷ post)
    → IsAlone l (pre ++ post)
    → Chained h (pre ++ (a, l) ∷ post)
    → Chained h (pre ++ post)
Chained-without h [] a l post o alone (here, ch) = ch
Chained-without h ((b, m) ∷ pre) a l post (all, o) (ne, alone) (here, ch) = (
  λ n at. here n at ∙ next_of-without m pre a l post all o ne alone,
  Chained-without h pre a l post o alone ch,
)

Chained-Stems : (s s' : Locks) (cs : Cells) → Stems s s' → Chained s.cell cs → Chained s'.cell cs
Chained-Stems s s' [] stems ch = tt
Chained-Stems s s' ((a, l) ∷ cs) stems (here, ch) = (
  λ n' at'. let (n, at, same) = stems a n' at' in same ∙ here n at,
  Chained-Stems s s' cs stems ch,
)

-- On a valid list, taking out a lock that is alone on its file ends without a fault, frees its node
-- and leaves a valid list of the others.
pub delete_file_list-IsValid :
    (s : Locks) (a : Ptr) (l : Lock) (pre post : Cells)
    → IsValid s (pre ++ (a, l) ∷ post)
    → IsAlone l (pre ++ post)
    → (s' : Locks) × (delete_file_list a s ≡ ok (tt, s'))
      × IsValid s' (pre ++ post)
      × (s'.cell a ≡ none)
delete_file_list-IsValid s a l pre post v alone =
    let (s', run, linked, gone) = delete_file_list-remove s a l pre post v.linked in
    let stems = Keeps-run (delete_file_list a) tt s s' (delete_file_list-Keeps a) run in
    (
      s',
      run,
      record {
        linked = linked;
        ordered = IsOrdered-without pre (a, l) post v.ordered;
        chained =
            Chained-Stems s s' (pre ++ post) stems
              (Chained-without s.cell pre a l post v.ordered alone v.chained);
      },
      gone,
    )

-- An exclusive lock is alone on its file.
pub exclusive-IsAlone :
    (pre : Cells) (a : Ptr) (l : Lock) (post : Cells)
    → IsOrdered (pre ++ (a, l) ∷ post)
    → l.mode ≡ 1
    → IsAlone l (pre ++ post)
exclusive-IsAlone [] a l post (all, o) e = later a l post all e
  where
    later :
        (a : Ptr) (l : Lock) (post : Cells)
        → All (λ (c : Cell). Compatible l c.1) post
        → l.mode ≡ 1
        → IsAlone l post
    later a l [] all e = tt
    later a l ((b, m) ∷ post) (inl lt, all) e = (omega arith, later a l post all e)
    later a l ((b, m) ∷ post) (inr (_, z, z'), all) e = absurd (omega arith)
exclusive-IsAlone ((b, m) ∷ pre) a l post (all, o) e =
    (before pre all, exclusive-IsAlone pre a l post o e)
  where
    before :
        (pre : Cells)
        → All (λ (c : Cell). Compatible m c.1) (pre ++ (a, l) ∷ post)
        → m.inode ≢ l.inode
    before [] (inl lt, all) = omega arith
    before [] (inr (_, z, z'), all) = absurd (omega arith)
    before (d ∷ pre) (c, all) = before pre all
