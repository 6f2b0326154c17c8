-- ===== src/Base/Numbers.antt =====
-- Numbers as Python writes and reads them: str.isdigit, int and str, of ASCII digits.
use Prim.Native.Nat.{ℕ, zero, suc, ◌+◌, ◌-◌, ◌*◌, ◌/◌, ◌%◌, ◌<◌}
use mathlib.Core.Path.{◌≡◌, refl, ap, ◌∙◌}
use mathlib.Core.Logic.{◌⊎◌, inl, inr}
use native.Mathlib.Omega.{arith}
use mathlib.Core.Bool.{Bool, true, false, ◌&&◌}
use mathlib.Core.List.{[], ◌∷◌}
use epilykos_os.Base.Tests.{leb, ltb}
use epilykos_os.Base.Lines.{Text}

abbrev pub is_digit : ℕ → Bool
is_digit c = leb b'0' c && leb c b'9'

abbrev pub all_chars : (ℕ → Bool) → Text → Bool
all_chars p [] = true
all_chars p (c ∷ s) = p c && all_chars p s

-- `str.isdigit` on ASCII.
abbrev pub is_digits : Text → Bool
is_digits [] = false
is_digits (c ∷ s) = is_digit c && all_chars is_digit s

-- `int` of such a text.
abbrev pub value_from : ℕ → Text → ℕ
value_from n [] = n
value_from n (c ∷ s) = value_from (n * 10 + (c - b'0')) s

abbrev pub to_int : Text → ℕ
to_int s = value_from 0 s

-- `str` of an int. Each digit divides by ten, so one more step than the number is enough.
unfoldable pub decimal_from : ℕ → ℕ → Text → Text
decimal_from zero n acc = acc
decimal_from (suc fuel) n acc = elim (ltb n 10) [
  | true ↦ (b'0' + n) ∷ acc
  | false ↦ decimal_from fuel (n / 10) ((b'0' + n % 10) ∷ acc)
]

unfoldable pub decimal : ℕ → Text
unfolding decimal_from
decimal n = decimal_from (suc n) n []

value_from-decimal_from :
    (fuel n : ℕ) (acc : Text) → n < fuel → value_from 0 (decimal_from fuel n acc) ≡ value_from n acc
unfolding decimal_from
value_from-decimal_from zero n acc h = absurd (ground arith)
value_from-decimal_from (suc fuel) n acc h = by_size (ltb n 10) refl (value_from-decimal_from fuel)
  where
    by_size :
        (b : Bool)
        → ltb n 10 ≡ b
        → ((m : ℕ) (t : Text) → m < fuel → value_from 0 (decimal_from fuel m t) ≡ value_from m t)
        → value_from 0 (elim b [
          | true ↦ (b'0' + n) ∷ acc
          | false ↦ decimal_from fuel (n / 10) ((b'0' + n % 10) ∷ acc)
        ])
          ≡ value_from n acc
    by_size true e rest = ap (λ m. value_from m acc) (ground arith)
    by_size false e rest =
        rest (n / 10) ((b'0' + n % 10) ∷ acc) (ground arith)
        ∙ ap (λ m. value_from m acc) (ground arith)

-- A number that is written as a decimal is read back.
pub to_int-decimal : (n : ℕ) → to_int (decimal n) ≡ n
unfolding decimal
to_int-decimal n = value_from-decimal_from (suc n) n [] (ground arith)

all_digits-decimal_from :
    (fuel n : ℕ) (acc : Text)
    → n < fuel
    → is_digits acc ≡ true ⊎ acc ≡ []
    → is_digits (decimal_from fuel n acc) ≡ true
unfolding decimal_from
all_digits-decimal_from zero n acc h a = absurd (ground arith)
all_digits-decimal_from (suc fuel) n acc h a =
    by_size (ltb n 10) refl (all_digits-decimal_from fuel)
  where
    digit_first :
        (d : ℕ) → d < 10 → is_digits acc ≡ true ⊎ acc ≡ [] → is_digits ((b'0' + d) ∷ acc) ≡ true
    digit_first d l (inl p) = ground (arith, p)
    digit_first d l (inr p) = ground (arith, p)

    by_size :
        (b : Bool)
        → ltb n 10 ≡ b
        → ((m : ℕ) (t : Text)
            → m < fuel
            → is_digits t ≡ true ⊎ t ≡ []
            → is_digits (decimal_from fuel m t) ≡ true)
        → is_digits (elim b [
          | true ↦ (b'0' + n) ∷ acc
          | false ↦ decimal_from fuel (n / 10) ((b'0' + n % 10) ∷ acc)
        ])
          ≡ true
    by_size true e rest = digit_first n (ground arith) a
    by_size false e rest =
        rest (n / 10) _ (ground arith) (inl (digit_first (n % 10) (ground arith) a))

pub is_digits-decimal : (n : ℕ) → is_digits (decimal n) ≡ true
unfolding decimal
is_digits-decimal n = all_digits-decimal_from (suc n) n [] (ground arith) (inr refl)

pub all_digits : (s : Text) → is_digits s ≡ true → all_chars is_digit s ≡ true
all_digits [] h = refl
all_digits (c ∷ s) h = h
