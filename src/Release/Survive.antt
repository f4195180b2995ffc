-- ===== src/Release/Survive.antt =====
-- What taking out one lock leaves of the nodes of the others.
use backup_lfs.Base.{
  Option, none, ◌≡◌, ◌≢◌, refl, sym, ◌∙◌, ap, subst, some, List, [], ◌∷◌, arith, ◌==◌, not, Code,
  ◌>>◌, get, ℕ_discrete, eq→==, ne→==, All,
}
use backup_lfs.Header.{Ptr, null, FileLock, WriteRecord}
use backup_lfs.LockList.{Locks, write, load, modify, set_head, free_file_node, delete_file_list}
use backup_lfs.LockList.Frame.{
  Frame, Keeps, Keeps-same, Keeps-get, Keeps-set_head, Keeps-bind, Keeps-if, Keeps-load,
  Keeps-modify, Keeps-then,
}
use backup_lfs.Locking.Owned.{Owns}

-- The next lock of the transaction, and what is noted of the file.
abbrev pub owner_part : FileLock → Ptr × List WriteRecord
owner_part n = (n.next_txn, n.writes_at)

abbrev pub noted_in : Option FileLock → List WriteRecord
noted_in none = []
noted_in (some n) = n.writes_at

module _ (a : Ptr) where
  -- Every node but the one at `a` is still there, with the same `next_txn` and the same notes.
  abbrev pub Survives : Locks → Locks → Type 0
  Survives s s' =
      (p : Ptr) (n : FileLock)
      → a ≢ p
      → s.cell p ≡ some n
      → (n' : FileLock) × (s'.cell p ≡ some n') × (owner_part n' ≡ owner_part n)

  pub Survives-Frame : Frame Survives
  Survives-Frame = record {
    same = λ s p n other e. (n, e, refl);
    trans = λ s s' s'' x y p n other e.
        let (n', e', same) = x p n other e in
        let (n'', e'', same') = y p n' other e' in (n'', e'', same' ∙ same);
    heads = λ s q p n other e. (n, e, refl);
  }

  Survives-write :
      (p : Ptr) (f : FileLock → FileLock)
      → ((n : FileLock) → owner_part (f n) ≡ owner_part n)
      → (s : Locks) (n : FileLock) → s.cell p ≡ some n
      → Survives s (write s p (some (f n)))
  Survives-write p f keeps s n at q m apart e = elim (ℕ_discrete p q) [
    | yes same ↦
        let here : n ≡ m = ground (arith, e, at, same) in
        (f n, rw (eq→== p q same) refl, keeps n ∙ ap owner_part here)
    | no other ↦ (m, rw (ne→== p q other) e, refl)
  ]

  Survives-modify :
      (p : Ptr) (f : FileLock → FileLock)
      → ((n : FileLock) → owner_part (f n) ≡ owner_part n)
      → Keeps Survives (modify p f)
  Survives-modify p f keeps = Keeps-modify Survives-Frame p f (Survives-write p f keeps)

  Survives-then :
      {B : Type 0} (p : Ptr) (f : FileLock → FileLock) (d : Code Locks B)
      → ((n : FileLock) → owner_part (f n) ≡ owner_part n)
      → Keeps Survives d
      → Keeps Survives (modify p f >> d)
  Survives-then p f d keeps y = Keeps-then Survives-Frame p f d (Survives-write p f keeps) y

  free_file_node-Survives : Keeps Survives (free_file_node a)
  unfolding free_file_node
  free_file_node-Survives =
      Keeps-bind Survives-Frame (load a) _ (Keeps-load Survives-Frame a)
        λ n. record { after = λ s p m other e. (m, rw (ne→== a p other) e, refl) }

  pub delete_file_list-Survives : Keeps Survives (delete_file_list a)
  unfolding delete_file_list
  delete_file_list-Survives = Keeps-bind Survives-Frame get _ (Keeps-get Survives-Frame) λ s.
      Keeps-if Survives-Frame (s.head == a) _ _
        (Keeps-bind Survives-Frame (load a) _ (Keeps-load Survives-Frame a) λ n.
          Keeps-bind Survives-Frame (set_head n.next) _ (Keeps-set_head Survives-Frame n.next) λ _.
            Keeps-bind Survives-Frame _ _
              (Keeps-if Survives-Frame (not (n.next == null)) _ _
                (Survives-modify n.next (λ m. record m { prev = n.next }) (λ m. refl))
                (Keeps-same Survives-Frame tt))
              (λ _. free_file_node-Survives))
        (Keeps-bind Survives-Frame (load a) _ (Keeps-load Survives-Frame a) λ n.
          Keeps-if Survives-Frame (n.next == null) _ _
            (Survives-then n.prev (λ m. record m { next = null }) _ (λ m. refl)
              free_file_node-Survives)
            (Survives-then n.prev (λ m. record m { next = n.next }) _ (λ m. refl)
              (Survives-then n.next (λ m. record m { prev = n.prev }) _ (λ m. refl)
                free_file_node-Survives)))

  -- The locks of a transaction that are not at `a` are its locks still.
  pub Owns-Survives :
      (s s' : Locks) (p : Ptr) (ps : List Ptr)
      → Survives s s'
      → All (λ (b : Ptr). a ≢ b) ps
      → Owns s p ps
      → Owns s' p ps
  Owns-Survives s s' p [] keeps apart e = e
  Owns-Survives s s' p (b ∷ ps) keeps (other, apart) (e, ne, n, at, rest) =
      let (n', at', same) = keeps b n other at in
      (
        e,
        ne,
        n',
        at',
        subst (λ q. Owns s' q ps) (ap (λ (k : Ptr × List WriteRecord). k.0) (sym same))
            (Owns-Survives s s' n.next_txn ps keeps apart rest),
      )

  -- What is noted in them is noted still.
  pub noted-Survives :
      (Good : List WriteRecord → Type 0) (s s' : Locks) (p : Ptr) (ps : List Ptr)
      → Survives s s'
      → All (λ (b : Ptr). a ≢ b) ps
      → Owns s p ps
      → All (λ (b : Ptr). Good (noted_in (s.cell b))) ps
      → All (λ (b : Ptr). Good (noted_in (s'.cell b))) ps
  noted-Survives Good s s' p [] keeps apart e good = tt
  noted-Survives Good s s' p (b ∷ ps) keeps (other, apart) (e, ne, n, at, rest) (here, good) =
      let (n', at', same) = keeps b n other at in
      let unchanged : noted_in (s.cell b) ≡ noted_in (s'.cell b) =
        ap noted_in at
        ∙ ap (λ (k : Ptr × List WriteRecord). k.1) (sym same)
        ∙ sym (ap noted_in at') in
      (subst Good unchanged here, noted-Survives Good s s' n.next_txn ps keeps apart rest good)

  pub write-Survives : (s : Locks) (n : Option FileLock) → Survives s (write s a n)
  write-Survives s n p m other e = (m, rw (ne→== a p other) e, refl)
