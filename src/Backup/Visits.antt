-- ===== src/Backup/Visits.antt =====
-- A backup that nobody disturbs: it visits the tree in order, and then it ends.
use backup_lfs.Base.{
  ℕ, suc, Bool, ◌<◌, ◌≡◌, ◌≢◌, refl, ◌∙◌, sym, ap, subst, Option, some, none, List, [], ◌∷◌, ◌++◌,
  arith, length, ok, not, true, false, ltb, if◌then◌else◌, ◌||◌, Code,
}
use backup_lfs.Base.Int.{ℤ, pos}
use backup_lfs.Header.{Ptr, null, FileLock}
use backup_lfs.Server.{Server}
use backup_lfs.Backup.{
  PathName, Stat, Kernel, Traversal, visited, copy_inode_text, directory_text, file_text,
  copy_inode, copy_text, copy_directory, copy_file, mark_as_read, lock_path, visit_directory,
  visit_file, visit_locked, visit,
}
use backup_lfs.Backup.Idle.{IsIdle, HoldsOne, resume-HoldsOne, modify-HoldsOne, release-IsIdle}
use backup_lfs.Backup.Order.{
  Forest, nothing, file, directory, roots, join, pushed, ChildrenFit, push_children-pushed,
}

module _ (W : Type 0) (kernel : Kernel W) where
  -- No file has come or gone, or has become another.
  abbrev pub Similar : W → W → Type 0
  Similar w w' =
      ((p : PathName) (st : Stat)
        → kernel.stat p w ≡ some st
        → (st' : Stat) × (kernel.stat p w' ≡ some st')
          × (st'.is_dir ≡ st.is_dir)
          × (st'.is_reg ≡ st.is_reg))
      × ((p : PathName) → kernel.readdir p w' ≡ kernel.readdir p w)

  -- What the kernel's calls do not change.
  pub record IsKernel : Type 0 where
    pub chmod-Similar : (p : PathName) (b : Bool) (w : W) → Similar w (kernel.chmod p b w)
    pub write-Similar : (text : List ℕ) (w : W) → Similar w (kernel.write text w)
    pub copying-Similar : (w : W) → Similar w (kernel.copying w)

  pub Similar-trans : (a b c : W) → Similar a b → Similar b c → Similar a c
  Similar-trans a b c (x, y) (z, u) = (
    λ p st there.
        let (st', there', d, r) = x p st there in
        let (st'', there'', d', r') = z p st' there' in (st'', there'', d' ∙ d, r' ∙ r),
    λ p. u p ∙ y p,
  )

  -- The files are there, and the stack behind a directory is what the forest says.
  abbrev pub Shows : W → Forest → Type 0
  Shows w nothing = Unit
  Shows w (file p rest) =
      (st : Stat) × (kernel.stat p w ≡ some st)
      × (st.is_dir ≡ false)
      × (st.is_reg ≡ true)
      × (length (file_text ++ p) < 300)
      × Shows w rest
  Shows w (directory p children rest) =
      (st : Stat) × (kernel.stat p w ≡ some st)
      × (st.is_dir ≡ true)
      × (length (directory_text ++ p) < 300)
      × ChildrenFit p (kernel.readdir p w)
      × (pushed p (kernel.readdir p w) [] ≡ roots children)
      × Shows w children
      × Shows w rest

  pub Shows-Similar : (w w' : W) (f : Forest) → Similar w w' → Shows w f → Shows w' f
  Shows-Similar w w' nothing same x = tt
  Shows-Similar w w' (file p rest) (stays, names) (st, there, dir, reg, short, x) =
      let (st', there', d, r) = stays p st there in
      (st', there', d ∙ dir, r ∙ reg, short, Shows-Similar w w' rest (stays, names) x)
  Shows-Similar w w' (directory p children rest) (stays, names)
        (st, there, dir, short, fit, above, x, y) =
      let (st', there', d, r) = stays p st there in
      (
        st',
        there',
        d ∙ dir,
        short,
        subst (ChildrenFit p) (sym (names p)) fit,
        ap (λ ns. pushed p ns []) (names p) ∙ above,
        Shows-Similar w w' children (stays, names) x,
        Shows-Similar w w' rest (stays, names) y,
      )

  pub Shows-join : (w : W) (f g : Forest) → Shows w f → Shows w g → Shows w (join f g)
  Shows-join w nothing g x y = y
  Shows-join w (file p rest) g (st, there, dir, reg, short, x) y =
      (st, there, dir, reg, short, Shows-join w rest g x y)
  Shows-join w (directory p children rest) g (st, there, dir, short, fit, above, x, z) y =
      (st, there, dir, short, fit, above, x, Shows-join w rest g z y)

module _ (W : Type 0) (kernel : Kernel W) (decimal : ℕ → List ℕ) where
  -- The backup of one file: its inode, its text, what is copied, and the turned sticky bit.
  abbrev pub one : PathName → Option Stat → W → W
  one p none w = w
  one p (some st) w = kernel.chmod p (not st.sticky) (
      kernel.copying (
        kernel.write ((if st.is_dir then directory_text else file_text) ++ p)
          (kernel.write (copy_inode_text decimal st.inode) w)))

  -- The backup of the files one by one.
  abbrev pub backed_up : List PathName → W → W
  backed_up [] w = w
  backed_up (p ∷ ps) w = backed_up ps (one p (kernel.stat p w) w)

  pub visit_file-run :
      (fuel : ℕ) (path : PathName) (st : Stat) (q : Ptr) (s : Traversal W)
      → HoldsOne st.inode q s.server
      → st.is_dir ≡ false
      → length (file_text ++ path) < 300
      → (u : Server) × (visit_file W kernel decimal (suc fuel) path st q s
          ≡ ok (visited, record s { server = u; disk = one path (some st) s.disk }))
        × IsIdle u
  unfolding visit_file copy_inode copy_file copy_text mark_as_read
  visit_file-run fuel path st q s h dir short =
      let opened = λ (n : FileLock). record n {
        fd = kernel.open_read path (kernel.write (copy_inode_text decimal st.inode) s.disk);
        file_offset = pos 0;
      } in
      let (s1, set, h1) = modify-HoldsOne st.inode q opened s.server (λ n. (refl, refl, refl)) h in
      let (s2, released, idle) = release-IsIdle fuel st.inode q s1 h1 in
      let room : ltb (length (file_text ++ path)) 300 ≡ true = ground (arith, short) in
      (s2, rw (set, room, released, dir) refl, idle)

  pub visit_directory-run :
      (fuel : ℕ) (path : PathName) (st : Stat) (q : Ptr) (s : Traversal W)
      → HoldsOne st.inode q s.server
      → st.is_dir ≡ true
      → length (directory_text ++ path) < 300
      → ChildrenFit path (kernel.readdir path (one path (some st) s.disk))
      → length (pushed path (kernel.readdir path (one path (some st) s.disk)) s.stack) < 200
      → (u : Server) × (visit_directory W kernel decimal (suc fuel) path st q s
          ≡ ok (
            visited,
            record s {
              server = u;
              disk = one path (some st) s.disk;
              stack = pushed path (kernel.readdir path (one path (some st) s.disk)) s.stack;
            },
          ))
        × IsIdle u
  unfolding visit_directory copy_inode copy_directory copy_text mark_as_read
  visit_directory-run fuel path st q s h dir short fit space =
      let set_offset = λ (n : FileLock). record n { file_offset = pos 0 } in
      let (s1, set, h1) =
        modify-HoldsOne st.inode q set_offset s.server (λ n. (refl, refl, refl)) h in
      let (s2, released, idle) = release-IsIdle fuel st.inode q s1 h1 in
      let room : ltb (length (directory_text ++ path)) 300 ≡ true = ground (arith, short) in
      let made = kernel.chmod path (not st.sticky) (
        kernel.copying (
          kernel.write (directory_text ++ path)
            (kernel.write (copy_inode_text decimal st.inode) s.disk))) in
      let same : one path (some st) s.disk ≡ made = rw dir refl in
      let now : Traversal W = record s { server = s1; disk = made } in
      let children =
        push_children-pushed W kernel decimal path (kernel.readdir path made) now
          (subst (λ w. ChildrenFit path (kernel.readdir path w)) same fit)
          (subst (λ w. length (pushed path (kernel.readdir path w) s.stack) < 200) same space) in
      (s2, rw (set, room, children, released, same) refl, idle)

  -- A visit of a file that is there.
  pub visit-run :
      (on_txn_abort : ℕ → Code Server ℤ) (fuel read_bit : ℕ) (new : Ptr) (path : PathName)
      (st : Stat) (b : Bool) (s : Traversal W)
      → new ≢ null
      → IsIdle s.server
      → st.is_dir ≡ b
      → (st.is_dir || st.is_reg) ≡ true
      → (u : Server) × HoldsOne st.inode new u
        × (visit W kernel decimal on_txn_abort fuel read_bit new path (some st) s
            ≡ (if b
                  then visit_directory W kernel decimal fuel path st new
                  else visit_file W kernel decimal fuel path st new)
                (record s { server = u }))
  unfolding visit lock_path visit_locked
  visit-run on_txn_abort fuel read_bit new path st b s ne idle kind known =
      let (u, granted_one, h) =
        resume-HoldsOne on_txn_abort fuel st.inode read_bit new s.server ne idle in
      (
        u,
        h,
        rw (known, granted_one)
            (ap
              (λ c.
                (if c
                    then visit_directory W kernel decimal fuel path st new
                    else visit_file W kernel decimal fuel path st new)
                  (record s { server = u }))
              kind),
      )
