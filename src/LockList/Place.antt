-- ===== src/LockList/Place.antt =====
-- Where a new lock goes among the locks in order: behind all whose inode number is not larger.
use backup_lfs.Base.{
  ℕ, ◌<◌, ◌≡◌, refl, inl, inr, false, [], ◌∷◌, ◌++◌, arith, leb, if◌then◌else◌, All, Bool-cases,
  length, suc, dec_lt, ◌≤◌,
}
use backup_lfs.Header.{Ptr, null}
use backup_lfs.LockList.Chain.{Lock, Cell, Cells, IsOrdered, Compatible, next_of}
use backup_lfs.LockList.Search.{locate, holds}

unfoldable pub place : Cell → Cells → Cells
place c [] = c ∷ []
place c (d ∷ cs) = if leb (d.1).inode (c.1).inode then d ∷ place c cs else c ∷ d ∷ cs

pub All-place : (P : Cell → Type 0) (c : Cell) (cs : Cells) → P c → All P cs → All P (place c cs)
unfolding place
All-place P c [] here all = (here, tt)
All-place P c (d ∷ cs) here all = ground (arith, All-place P c cs here all.1)

le-Compatible :
    (l m : Lock)
    → l.inode ≤ m.inode
    → (l.inode ≡ m.inode → (l.mode ≡ 0) × (m.mode ≡ 0))
    → Compatible l m
le-Compatible l m le same = elim (dec_lt l.inode m.inode) [
  | yes lt ↦ inl lt
  | no ge ↦ let e : l.inode ≡ m.inode = omega arith in inr (e, (same e).0, (same e).1)
]

Compatible-lower :
    (l m : Lock) (cs : Cells)
    → l.inode < m.inode
    → All (λ (c : Cell). Compatible m c.1) cs
    → All (λ (c : Cell). Compatible l c.1) cs
Compatible-lower l m [] lt all = tt
Compatible-lower l m ((b, k) ∷ cs) lt (inl more, all) =
    (inl (omega arith), Compatible-lower l m cs lt all)
Compatible-lower l m ((b, k) ∷ cs) lt (inr same, all) =
    (inl (omega arith), Compatible-lower l m cs lt all)

-- The new lock may join those of its file.
abbrev pub Joins : Lock → Cells → Type 0
Joins l cs = All (λ (d : Cell). (d.1).inode ≡ l.inode → ((d.1).mode ≡ 0) × (l.mode ≡ 0)) cs

pub place-IsOrdered :
    (a : Ptr) (l : Lock) (cs : Cells) → IsOrdered cs → Joins l cs → IsOrdered (place (a, l) cs)
unfolding place
place-IsOrdered a l [] o j = (tt, tt)
place-IsOrdered a l ((b, m) ∷ cs) (all, o) (j, js) = elim (Bool-cases (leb m.inode l.inode)) [
  | inl behind ↦
      rw behind (
        All-place _ (a, l) cs (le-Compatible m l (ground arith) j) all,
        place-IsOrdered a l cs o js,
      )
  | inr before ↦
      rw before ((inl (ground arith), Compatible-lower l m cs (ground arith) all), (all, o))
]

pub length-place : (c : Cell) (cs : Cells) → length (place c cs) ≡ suc (length cs)
unfolding place
length-place c [] = refl
length-place c (d ∷ cs) = ground (arith, length-place c cs)

pub not_holds-Joins :
    (f : ℕ) (l : Lock) (cs : Cells) → l.inode ≡ f → holds f cs ≡ false → Joins l cs
not_holds-Joins f l [] e h = tt
not_holds-Joins f l ((b, m) ∷ cs) e h =
    (λ same. absurd (ground arith), not_holds-Joins f l cs e (ground arith))

-- Where `search_file_list` finds no lock of `f`, it stores the place of a new one.
pub locate-place :
    (f : ℕ) (a : Ptr) (l : Lock) (cs : Cells) (c : Cell)
    → l.inode < f
    → (c.1).inode ≡ f
    → holds f ((a, l) ∷ cs) ≡ false
    → IsOrdered ((a, l) ∷ cs)
    → (pre : Cells) × (m : Lock) × (post : Cells) × ((a, l) ∷ cs
        ≡ pre ++ ((locate f (a, l) cs).1, m) ∷ post)
      × (place c ((a, l) ∷ cs) ≡ pre ++ ((locate f (a, l) cs).1, m) ∷ c ∷ post)
      × (m.inode < f)
      × (next_of c.1 post ≡ null)
      × (next_of m post ≡ null)
unfolding locate place
locate-place f a l [] c lt at out o = ([], l, [], ground arith, ground arith, lt, refl, refl)
locate-place f a l ((b, m) ∷ cs) c lt at out o = elim (Bool-cases (leb f m.inode)) [
  | inl stop ↦ ([], l, (b, m) ∷ cs, ground arith, ground arith, lt, ground arith, ground arith)
  | inr go ↦
      let (pre, k, post, e, p, less, end, end') =
        locate-place f b m cs c (ground arith) at (ground arith) o.1 in
      ((a, l) ∷ pre, k, post, ground arith, ground arith, less, end, end')
]

pub locate-front :
    (f : ℕ) (a : Ptr) (l : Lock) (cs : Cells)
    → IsOrdered ((a, l) ∷ cs)
    → f < l.inode
    → (locate f (a, l) cs).1 ≡ a
unfolding locate
locate-front f a l [] o lt = ground arith
locate-front f a l ((b, m) ∷ cs) ((c, all), o) lt = ground arith
