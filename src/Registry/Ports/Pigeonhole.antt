-- ===== src/Registry/Ports/Pigeonhole.antt =====
-- The number of ports in use and the size of a range of src/registry.rs.
use tei_manager.Base.{
  ℕ, zero, suc, ◌+◌, ◌≤◌, ◌<◌, ◌≡◌, ◌≢◌, inl, inr, refl, true, false, List, [], ◌∷◌, arith, ◌==◌,
  if◌then◌else◌, length, Bool-cases, sym, ◌∙◌,
}
use tei_manager.Registry.Ports.{is_used}

-- The list without each entry that is `x`.
abbrev without : ℕ → List ℕ → List ℕ
without x [] = []
without x (y ∷ ys) = if y == x then without x ys else y ∷ without x ys

length-without : (x : ℕ) (ys : List ℕ) → length (without x ys) ≤ length ys
length-without x [] = omega arith
length-without x (y ∷ ys) = ground (arith, length-without x ys)

length-without_used :
    (x : ℕ) (ys : List ℕ) → is_used ys x ≡ true → length (without x ys) < length ys
unfolding is_used
length-without_used x [] h = cc
length-without_used x (y ∷ ys) h = ground (arith, length-without x ys, length-without_used x ys)

is_used-without : (x z : ℕ) (ys : List ℕ) → z ≢ x → is_used (without x ys) z ≡ is_used ys z
unfolding is_used
is_used-without x z [] h = refl
is_used-without x z (y ∷ ys) h = ground (arith, is_used-without x z ys h)

pub unused_port :
    (count lo : ℕ) (used : List ℕ)
    → length used < count
    → (port : ℕ) × (lo ≤ port) × (port < lo + count) × (is_used used port ≡ false)
unused_port zero lo used h = absurd (omega arith)
unused_port (suc count) lo used h = elim (Bool-cases (is_used used lo)) [
  | inr unused ↦ (lo, omega arith, omega arith, unused)
  | inl taken ↦
      let (port, above, below, unused) =
        unused_port count (lo + 1) (without lo used)
          (omega (arith, length-without_used lo used taken)) in
      (port, omega arith, omega arith, sym (is_used-without lo port used (omega arith)) ∙ unused)
]
