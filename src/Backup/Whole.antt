-- ===== src/Backup/Whole.antt =====
-- The whole traversal.
use backup_lfs.Base.{
  ℕ, zero, suc, ◌<◌, ◌≡◌, ◌≢◌, refl, ◌∙◌, sym, ap, subst, some, List, [], ◌++◌, arith, length, ok,
  not, true, false, if◌then◌else◌, Code,
}
use backup_lfs.Base.Int.{ℤ}
use backup_lfs.Header.{Ptr, null}
use backup_lfs.Server.{Server}
use backup_lfs.Backup.{
  PathName, Stat, Kernel, Traversal, visited, is_empty, copy_inode_text, directory_text, file_text,
  round, traverse,
}
use backup_lfs.Backup.Idle.{IsIdle}
use backup_lfs.Backup.Order.{
  Forest, nothing, file, directory, roots, order, join, roots-join, order-join, ChildrenFit,
  length-roots, pushed, pushed-append,
}
use backup_lfs.Backup.Visits.{
  Similar, IsKernel, Similar-trans, Shows, Shows-Similar, Shows-join, one, backed_up, visit-run,
  visit_file-run, visit_directory-run,
}

module _ (W : Type 0) (kernel : Kernel W) (decimal : ℕ → List ℕ) (laws : IsKernel W kernel) where
  one-Similar :
      (p : PathName) (st : Stat) (w : W) → Similar W kernel w (one W kernel decimal p (some st) w)
  one-Similar p st w =
      let w1 = kernel.write (copy_inode_text decimal st.inode) w in
      let text = (if st.is_dir then directory_text else file_text) ++ p in
      let w2 = kernel.write text w1 in
      let w3 = kernel.copying w2 in
      Similar-trans W kernel w w1 _ (laws.write-Similar (copy_inode_text decimal st.inode) w) (
        Similar-trans W kernel w1 w2 _ (laws.write-Similar text w1) (
          Similar-trans W kernel w2 w3 _ (laws.copying-Similar w2)
            (laws.chmod-Similar p (not st.sticky) w3)))

  module _ (on_txn_abort : ℕ → Code Server ℤ) (fuel read_bit : ℕ) (malloc : ℕ → Ptr)
      (allocates : (k : ℕ) → malloc k ≢ null) where
    file-round :
        (new : Ptr) (s : Traversal W) (p : PathName) (rest : Forest) (st : Stat)
        → new ≢ null
        → IsIdle s.server
        → s.stack ≡ roots (file p rest)
        → kernel.stat p s.disk ≡ some st
        → st.is_dir ≡ false
        → st.is_reg ≡ true
        → length (file_text ++ p) < 300
        → (u : Server) × (round W kernel decimal on_txn_abort (suc fuel) read_bit new s
            ≡ ok (
              visited,
              record s {
                server = u;
                disk = one W kernel decimal p (some st) s.disk;
                stack = roots rest;
              },
            ))
          × IsIdle u
    unfolding round
    file-round new s p rest st ne idle stack there dir reg short =
        let (u, h, run) =
          visit-run W kernel decimal on_txn_abort (suc fuel) read_bit new p st false
            (record s { stack = roots rest }) ne idle dir (rw (dir, reg) refl) in
        let (v, ran, idle') =
          visit_file-run W kernel decimal fuel p st new
            (record s { stack = roots rest; server = u }) h dir short in
        (v, rw (stack, there, run, ran) refl, idle')

    directory-round :
        (new : Ptr) (s : Traversal W) (p : PathName) (children rest : Forest)
        → new ≢ null
        → IsIdle s.server
        → s.stack ≡ roots (directory p children rest)
        → Shows W kernel s.disk (directory p children rest)
        → length (order (directory p children rest)) < 200
        → (u : Server) × (st : Stat) × (kernel.stat p s.disk ≡ some st)
          × (round W kernel decimal on_txn_abort (suc fuel) read_bit new s
              ≡ ok (
                visited,
                record s {
                  server = u;
                  disk = one W kernel decimal p (some st) s.disk;
                  stack = roots (join children rest);
                },
              ))
          × IsIdle u
    unfolding round
    directory-round new s p children rest ne idle stack (st, there, dir, short, fit, above, x, y)
          room =
        let w = one W kernel decimal p (some st) s.disk in
        let (_, names) = one-Similar p st s.disk in
        let next : pushed p (kernel.readdir p w) (roots rest) ≡ roots (join children rest) =
          pushed-append p (kernel.readdir p w) [] (roots rest)
          ∙ ap (λ ps. ps ++ roots rest) (ap (λ ns. pushed p ns []) (names p) ∙ above)
          ∙ sym (roots-join children rest) in
        let space : length (pushed p (kernel.readdir p w) (roots rest)) < 200 = omega (
          arith,
          room,
          ap (λ (ps : List PathName). length ps) next,
          length-roots (join children rest),
          ap (λ (ps : List PathName). length ps) (order-join children rest),
        ) in
        let (u, h, run) =
          visit-run W kernel decimal on_txn_abort (suc fuel) read_bit new p st true
            (record s { stack = roots rest }) ne idle dir (rw dir refl) in
        let (v, ran, idle') =
          visit_directory-run W kernel decimal fuel p st new
            (record s { stack = roots rest; server = u }) h dir short
            (subst (ChildrenFit p) (sym (names p)) fit) space in
        (v, st, there, rw (stack, there, run, ran, next) refl, idle')

    next_round :
        (k : ℕ) (s s1 : Traversal W)
        → is_empty s.stack ≡ false
        → round W kernel decimal on_txn_abort (suc fuel) read_bit (malloc k) s ≡ ok (visited, s1)
        → traverse W kernel decimal on_txn_abort (suc fuel) read_bit malloc (suc k) s
          ≡ traverse W kernel decimal on_txn_abort (suc fuel) read_bit malloc k s1
    unfolding traverse
    next_round k s s1 full ran = rw (full, ran) refl

    -- What the loop leaves: an empty stack, and an idle server.
    abbrev pub Finishes : (rounds : ℕ) → Forest → Traversal W → Type 0
    Finishes rounds f s =
        (u : Server) × (traverse W kernel decimal on_txn_abort (suc fuel) read_bit malloc rounds s
          ≡ ok (
            visited,
            record s { server = u; disk = backed_up W kernel decimal (order f) s.disk; stack = [] },
          ))
        × IsIdle u

    -- On a server where nobody else has a lock or waits for one and the backup's transaction is live,
    -- with one unit of fuel for its walks or more and a free node in each round, where the kernel's
    -- calls leave all files what they are: the loop, from a stack of files and directories whose names
    -- fit into the buffers and of which fewer than 200 are still to be visited, ends within one round
    -- for each of them and one more. It has backed up each once, a directory before what is below it
    -- and that before what stood below it on the stack; the stack is empty, and no lock is left.
    pub traverse-Finishes :
        (rounds : ℕ) (f : Forest) (s : Traversal W)
        → IsIdle s.server
        → s.stack ≡ roots f
        → Shows W kernel s.disk f
        → length (order f) < 200
        → length (order f) < rounds
        → Finishes rounds f s
    unfolding traverse
    traverse-Finishes zero f s idle stack x room enough = absurd (omega arith)
    traverse-Finishes (suc k) nothing s idle stack x room enough = (s.server, rw stack refl, idle)
    traverse-Finishes (suc k) (file p rest) s idle stack (st, there, dir, reg, short, x) room
          enough =
        let (u, ran, idle') =
          file-round (malloc k) s p rest st (allocates k) idle stack there dir reg short in
        let w = one W kernel decimal p (some st) s.disk in
        let (v, finished, idle'') =
          traverse-Finishes k rest (record s { server = u; disk = w; stack = roots rest }) idle'
            refl (Shows-Similar W kernel s.disk w rest (one-Similar p st s.disk) x) (omega arith)
            (omega arith) in
        (
          v,
          next_round k s _ (ap is_empty stack) ran
              ∙ finished
              ∙ ap
                  (λ o. ok (
                    visited,
                    record s {
                      server = v;
                      disk =
                          backed_up W kernel decimal (order rest) (one W kernel decimal p o s.disk);
                      stack = [];
                    },
                  ))
                  (sym there),
          idle'',
        )
    traverse-Finishes (suc k) (directory p children rest) s idle stack
          (st0, there0, dir, short, fit, above, x, y) room enough =
        let (u, st, there, ran, idle') =
          directory-round (malloc k) s p children rest (allocates k) idle stack
            (st0, there0, dir, short, fit, above, x, y) room in
        let w = one W kernel decimal p (some st) s.disk in
        let joined = Shows-join W kernel s.disk children rest x y in
        let size = ap (λ (ps : List PathName). length ps) (order-join children rest) in
        let (v, finished, idle'') =
          traverse-Finishes k (join children rest)
            (record s { server = u; disk = w; stack = roots (join children rest) }) idle' refl
            (Shows-Similar W kernel s.disk w (join children rest) (one-Similar p st s.disk) joined)
            (omega (arith, size)) (omega (arith, size)) in
        (
          v,
          next_round k s _ (ap is_empty stack) ran
              ∙ finished
              ∙ ap
                  (λ ps. ok (
                    visited,
                    record s { server = v; disk = backed_up W kernel decimal ps w; stack = [] },
                  ))
                  (order-join children rest)
              ∙ ap
                  (λ o. ok (
                    visited,
                    record s {
                      server = v;
                      disk =
                          backed_up W kernel decimal (order children ++ order rest)
                            (one W kernel decimal p o s.disk);
                      stack = [];
                    },
                  ))
                  (sym there),
          idle'',
        )
