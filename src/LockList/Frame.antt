-- ===== src/LockList/Frame.antt =====
-- What a piece of code leaves of the heap of locks, put together from what its parts leave.
use backup_lfs.Base.{
  ◌≡◌, Bool, true, false, Option, none, some, ◌==◌, if◌then◌else◌, Run, ok, fault, out_of_fuel,
  Code, pure, ◌>>=◌, ◌>>◌, and_then, get, or_fault, Option-cases, inl, inr, Bool-cases, subst,
}
use backup_lfs.Header.{Ptr, null, FileLock}
use backup_lfs.LockList.{Locks, write, load, modify, set_head}

abbrev pub After : {A : Type 0} → (Locks → Type 0) → Run (A × Locks) → Type 0
After P (ok (_, s)) = P s
After P _ = Unit

-- A relation of the locks before and after that stretches of code add up in, and that does not look
-- at the head.
pub record Frame (R : Locks → Locks → Type 0) : Type 0 where
  pub same : (s : Locks) → R s s
  pub trans : (a b c : Locks) → R a b → R b c → R a c
  pub heads : (s : Locks) (p : Ptr) → R s (record s { head = p })

pub record Keeps (R : Locks → Locks → Type 0) {A : Type 0} (c : Code Locks A) : Type 0 where
  pub after : (s : Locks) → After (R s) (c s)

module _ {R : Locks → Locks → Type 0} (frame : Frame R) where
  pub Keeps-same : {A : Type 0} (a : A) → Keeps R (pure a)
  Keeps-same a = record { after = λ s. frame.same s }

  pub Keeps-get : Keeps R (get {S = Locks})
  Keeps-get = record { after = λ s. frame.same s }

  pub Keeps-set_head : (p : Ptr) → Keeps R (set_head p)
  unfolding set_head
  Keeps-set_head p = record { after = λ s. frame.heads s p }

  pub Keeps-bind :
      {A B : Type 0} (c : Code Locks A) (k : A → Code Locks B)
      → Keeps R c
      → ((a : A) → Keeps R (k a))
      → Keeps R (c >>= k)
  Keeps-bind {A} {B} c k x y = record { after = λ s. go s (c s) (x.after s) }
    where
      trans : (s s' : Locks) (m : Run (B × Locks)) → R s s' → After (R s') m → After (R s) m
      trans s s' (ok (b, s'')) first second = frame.trans s s' s'' first second
      trans s s' fault first second = tt
      trans s s' out_of_fuel first second = tt

      go :
          (s : Locks) (m : Run (A × Locks))
          → After (R s) m
          → After (R s) (and_then m (λ r. k r.0 r.1))
      go s (ok (a, s')) first = trans s s' (k a s') first ((y a).after s')
      go s fault first = tt
      go s out_of_fuel first = tt

  pub Keeps-if :
      {A : Type 0} (b : Bool) (c d : Code Locks A)
      → Keeps R c
      → Keeps R d
      → Keeps R (if b then c else d)
  Keeps-if true c d x y = x
  Keeps-if false c d x y = y

  pub Keeps-load : (p : Ptr) → Keeps R (load p)
  unfolding load
  Keeps-load p = record {
    after = λ s. elim (Bool-cases (p == null)) [
      | inl nowhere ↦ rw nowhere tt
      | inr there ↦ rw there (go s (s.cell p))
    ];
  }
    where
      go : (s : Locks) (o : Option FileLock) → After (R s) (or_fault o s)
      go s none = tt
      go s (some n) = frame.same s

  -- A write to a node that is there.
  pub Keeps-modify :
      (p : Ptr) (f : FileLock → FileLock)
      → ((s : Locks) (n : FileLock) → s.cell p ≡ some n → R s (write s p (some (f n))))
      → Keeps R (modify p f)
  unfolding modify load
  Keeps-modify p f keeps = record {
    after = λ s. elim (Bool-cases (p == null)) [
      | inl nowhere ↦ rw nowhere tt
      | inr there ↦ rw there (elim (Option-cases (s.cell p)) [
        | inl free ↦ rw free tt
        | inr (n, at) ↦ rw at (keeps s n at)
      ])
    ];
  }

  pub Keeps-then :
      {B : Type 0} (p : Ptr) (f : FileLock → FileLock) (d : Code Locks B)
      → ((s : Locks) (n : FileLock) → s.cell p ≡ some n → R s (write s p (some (f n))))
      → Keeps R d
      → Keeps R (modify p f >> d)
  Keeps-then p f d keeps y = Keeps-bind (modify p f) (λ _. d) (Keeps-modify p f keeps) (λ _. y)

-- A run of such code that ends.
pub Keeps-run :
    {R : Locks → Locks → Type 0} {A : Type 0} (c : Code Locks A) (a : A) (s s' : Locks)
    → Keeps R c
    → c s ≡ ok (a, s')
    → R s s'
Keeps-run {R = R} c a s s' x run = subst (After (R s)) run (x.after s)
