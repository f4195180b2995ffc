-- ===== src/Deadlock/White.antt =====
-- The number of nodes that the search has not visited.
use backup_lfs.Base.{
  ℕ, zero, suc, ◌<◌, ◌≤◌, ◌≡◌, ◌≢◌, refl, arith, ◌==◌, if◌then◌else◌, Bool-cases, inl, inr,
}
use backup_lfs.Deadlock.{painted}

abbrev pub whites : (ℕ → ℕ) → ℕ → ℕ
whites visited zero = 0
whites visited (suc n) = let rest = whites visited n in if visited n == 0 then suc rest else rest

pub whites-le : (visited : ℕ → ℕ) (n : ℕ) → whites visited n ≤ n
whites-le visited zero = omega arith
whites-le visited (suc n) = ground (arith, whites-le visited n)

-- A colour for a node that has one already.
pub whites-repaint :
    (visited : ℕ → ℕ) (i colour n : ℕ)
    → visited i ≢ 0
    → colour ≢ 0
    → whites (painted visited i colour) n ≡ whites visited n
whites-repaint visited i colour zero coloured new = refl
whites-repaint visited i colour (suc n) coloured new =
    ground (arith, whites-repaint visited i colour n coloured new)

whites-beyond :
    (visited : ℕ → ℕ) (i colour n : ℕ)
    → n ≤ i
    → whites (painted visited i colour) n ≡ whites visited n
whites-beyond visited i colour zero le = refl
whites-beyond visited i colour (suc n) le = ground (arith, whites-beyond visited i colour n)

pub whites-paint :
    (visited : ℕ → ℕ) (i colour n : ℕ)
    → i < n
    → visited i ≡ 0
    → colour ≢ 0
    → whites visited n ≡ suc (whites (painted visited i colour) n)
whites-paint visited i colour zero lt white new = absurd (omega arith)
whites-paint visited i colour (suc n) lt white new = elim (Bool-cases (i == n)) [
  | inl e ↦ ground (arith, e, whites-beyond visited i colour n)
  | inr ne ↦ ground (arith, ne, whites-paint visited i colour n)
]
