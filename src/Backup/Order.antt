-- ===== src/Backup/Order.antt =====
-- The order in which a tree is backed up.
use backup_lfs.Base.{
  ℕ, ◌+◌, ◌<◌, ◌≤◌, ◌≡◌, refl, ◌∙◌, sym, ap, List, [], ◌∷◌, ◌++◌, append_assoc, arith, length,
  length-append, ok, true, ltb, if◌then◌else◌, Bool, subst, Bool-cases, inl, inr,
}
use backup_lfs.Backup.{PathName, Kernel, Traversal, starts_with_dot, push, push_children}

-- Files and directories by their paths, the next to be visited first; a directory has what is below
-- it.
pub data Forest : Type 0 where
  nothing : Forest
  file : PathName → Forest → Forest
  directory : PathName → (children rest : Forest) → Forest

abbrev pub roots : Forest → List PathName
roots nothing = []
roots (file p rest) = p ∷ roots rest
roots (directory p children rest) = p ∷ roots rest

-- Each directory stands before what is below it.
abbrev pub order : Forest → List PathName
order nothing = []
order (file p rest) = p ∷ order rest
order (directory p children rest) = p ∷ (order children ++ order rest)

abbrev pub join : Forest → Forest → Forest
join nothing g = g
join (file p rest) g = file p (join rest g)
join (directory p children rest) g = directory p children (join rest g)

pub roots-join : (f g : Forest) → roots (join f g) ≡ roots f ++ roots g
roots-join nothing g = refl
roots-join (file p rest) g = ap (λ ps. p ∷ ps) (roots-join rest g)
roots-join (directory p children rest) g = ap (λ ps. p ∷ ps) (roots-join rest g)

pub order-join : (f g : Forest) → order (join f g) ≡ order f ++ order g
order-join nothing g = refl
order-join (file p rest) g = ap (λ ps. p ∷ ps) (order-join rest g)
order-join (directory p children rest) g =
    ap (λ ps. p ∷ ps)
      (ap (λ ps. order children ++ ps) (order-join rest g)
        ∙ sym (append_assoc (order children) (order rest) (order g)))

-- There are not more roots than files.
pub length-roots : (f : Forest) → length (roots f) ≤ length (order f)
length-roots nothing = omega arith
length-roots (file p rest) = omega (arith, length-roots rest)
length-roots (directory p children rest) =
    omega (arith, length-roots rest, length-append (order children) (order rest))

-- The stack behind `push_children`.
abbrev pub pushed : PathName → List PathName → List PathName → List PathName
pushed path [] stack = stack
pushed path (name ∷ names) stack =
    let further = pushed path names ((path ++ 47 ∷ name) ∷ stack) in
    if starts_with_dot name then pushed path names stack else further

pub pushed-append :
    (path : PathName) (names above below : List PathName)
    → pushed path names (above ++ below) ≡ pushed path names above ++ below
pushed-append path [] above below = refl
pushed-append path (name ∷ names) above below = elim (Bool-cases (starts_with_dot name)) [
  | inl hidden ↦ rw hidden (pushed-append path names above below)
  | inr shown ↦ rw shown (pushed-append path names ((path ++ 47 ∷ name) ∷ above) below)
]

pub length-pushed :
    (path : PathName) (names stack : List PathName)
    → length stack ≤ length (pushed path names stack)
length-pushed path [] stack = omega arith
length-pushed path (name ∷ names) stack = elim (Bool-cases (starts_with_dot name)) [
  | inl hidden ↦ rw hidden (length-pushed path names stack)
  | inr shown ↦ rw shown (omega (arith, length-pushed path names ((path ++ 47 ∷ name) ∷ stack)))
]

-- Every child's path fits.
abbrev pub ChildrenFit : PathName → List PathName → Type 0
ChildrenFit path [] = Unit
ChildrenFit path (name ∷ names) = (length (path ++ 47 ∷ name) < 300) × ChildrenFit path names

pub push_children-pushed :
    (W : Type 0) (kernel : Kernel W) (decimal : ℕ → List ℕ) (path : PathName)
    (names : List PathName) (s : Traversal W)
    → ChildrenFit path names
    → length (pushed path names s.stack) < 200
    → push_children W kernel decimal path names s
      ≡ ok (tt, record s { stack = pushed path names s.stack })
unfolding push_children push
push_children-pushed W kernel decimal path [] s fit room = refl
push_children-pushed W kernel decimal path (name ∷ names) s (here, fit) room =
    let next = (path ++ 47 ∷ name) ∷ s.stack in
    let case : Bool → Type 0 =
      λ b. length (if b then pushed path names s.stack else pushed path names next) < 200 in
    elim (Bool-cases (starts_with_dot name)) [
      | inl hidden ↦
          rw hidden
            (push_children-pushed W kernel decimal path names s fit (subst case hidden room))
      | inr shown ↦
          let later : length (pushed path names next) < 200 = subst case shown room in
          let more = length-pushed path names next in
          let below : ltb (length s.stack + 1) 200 ≡ true = ground (arith, more, later) in
          let short : ltb (length (path ++ 47 ∷ name)) 300 ≡ true = ground (arith, here) in
          rw (shown, short, below)
            (push_children-pushed W kernel decimal path names (record s { stack = next }) fit later)
    ]
