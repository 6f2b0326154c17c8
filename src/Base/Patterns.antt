-- ===== src/Base/Patterns.antt =====
-- Tests on texts and what they say: conjunctions, ranges and every character.
use Prim.Native.Nat.{ℕ, ◌≤◌}
use mathlib.Core.Path.{◌≡◌, refl}
use mathlib.Core.Logic.{◌↔◌, ◌⊎◌, inl, inr}
use mathlib.Core.Bool.{Bool, true, false, ◌&&◌, ◌||◌}
use mathlib.Core.List.{List, [], ◌∷◌}
use native.Mathlib.Omega.{arith}
use epilykos_os.Base.Tests.{leb}
use epilykos_os.Base.Numbers.{all_chars}

pub and_iff :
    {P Q : Type 0} (b c : Bool) → (b ≡ true) ↔ P → (c ≡ true) ↔ Q → ((b && c) ≡ true) ↔ (P × Q)
and_iff true true p q = (λ _. (p.0 refl, q.0 refl), λ _. refl)
and_iff true false p q = (λ h. cc, λ h. q.1 h.1)
and_iff false c p q = (λ h. cc, λ h. p.1 h.0)

pub or_iff :
    {P Q : Type 0} (b c : Bool) → (b ≡ true) ↔ P → (c ≡ true) ↔ Q → ((b || c) ≡ true) ↔ (P ⊎ Q)
or_iff true c p q = (λ _. inl (p.0 refl), λ _. refl)
or_iff false true p q = (λ _. inr (q.0 refl), λ _. refl)
or_iff false false p q = (λ h. cc, λ h. elim h [ inl x ↦ p.1 x | inr y ↦ q.1 y ])

-- Every character of a text has a property.
abbrev pub Each : (ℕ → Type 0) → List ℕ → Type 0
Each P [] = Unit {0}
Each P (c ∷ s) = P c × Each P s

abbrev pub IsBetween : ℕ → ℕ → ℕ → Type 0
IsBetween low high c = (low ≤ c) × (c ≤ high)

abbrev pub IsDigit : ℕ → Type 0
IsDigit = IsBetween b'0' b'9'

pub IsBetween-iff : (low high c : ℕ) → ((leb low c && leb c high) ≡ true) ↔ IsBetween low high c
IsBetween-iff low high c = ground arith

pub Each-iff :
    {P : ℕ → Type 0} (p : ℕ → Bool)
    → ((c : ℕ) → (p c ≡ true) ↔ P c)
    → (s : List ℕ) → (all_chars p s ≡ true) ↔ Each P s
Each-iff p is [] = (λ _. tt, λ _. refl)
Each-iff p is (c ∷ s) = and_iff (p c) (all_chars p s) (is c) (Each-iff p is s)
