-- ===== src/Port/Kept.antt =====
-- The port that is written is the port that is read, and it is one that may be used.
use epilykos_os.Base.{
  both, all_digits, ℕ, ◌≡◌, refl, sym, ◌∙◌, ap, subst, ◌≤◌, ◌⊎◌, Bool, true, false, ◌&&◌, ◌||◌,
  ◌==◌, if◌then◌else◌, Option, some, [], ◌∷◌, ◌++◌, Text, strip, strip_start, strip_end, is_space,
  is_empty, is_digit, is_digits, all_chars, to_int, decimal, to_int-decimal, is_digits-decimal,
  Result, ok, err, ◌>>=◌, bind-ok, arith,
}
use epilykos_os.Json.{Json, str}
use epilykos_os.Port.{
  PortError, no_number, is_reserved, number_in, in_range, validate, read_line, or_default, read,
  save, write,
}

-- A port that may be used.
abbrev pub IsUsable : ℕ → Type 0
IsUsable n = ((n ≡ 80) ⊎ ((1024 ≤ n) × (n ≤ 65535))) × (is_reserved n ≡ false)

in_range-IsUsable : (m n : ℕ) → in_range m ≡ ok n → (m ≡ n) × IsUsable n
unfolding in_range
in_range-IsUsable m n h = ground (arith, h)

validate-IsUsable : (v : Json) (n : ℕ) → validate v ≡ ok n → (in_range n ≡ ok n) × IsUsable n
unfolding validate
validate-IsUsable v n h =
    let (m, e, r) = bind-ok (number_in v) in_range n h in
    let p = in_range-IsUsable m n r in (subst (λ k. in_range k ≡ ok n) p.0 r, p.1)

digit_not-space : (c : ℕ) → is_digit c ≡ true → is_space c ≡ false
digit_not-space c h = ground (arith, h)

digit_not_break : (c : ℕ) → is_digit c ≡ true → (c == 10 || c == 13) ≡ false
digit_not_break c h = ground (arith, h)

-- A line of digits and its end are the first line, and stripped they are the digits.
read_line-digits :
    (s : Text) → all_chars is_digit s ≡ true → read_line (s ++ 10 ∷ []) ≡ s ++ 10 ∷ []
read_line-digits [] h = refl
read_line-digits (c ∷ s) h =
    let p = both (is_digit c) (all_chars is_digit s) h in
    no_break (c == 10 || c == 13) _ (digit_not_break c p.0) (read_line-digits s p.1)
  where
    no_break :
        (b : Bool) (r : Text)
        → b ≡ false
        → r ≡ s ++ 10 ∷ []
        → (if b then 10 ∷ [] else c ∷ r) ≡ c ∷ (s ++ 10 ∷ [])
    no_break true r e h = absurd (ground (arith, e))
    no_break false r e h = ap (λ t. c ∷ t) h

strip_end-digits :
    (t s : Text) → strip_end t ≡ [] → all_chars is_digit s ≡ true → strip_end (s ++ t) ≡ s
unfolding strip_end
strip_end-digits t [] e h = e
strip_end-digits t (c ∷ s) e h =
    let p = both (is_digit c) (all_chars is_digit s) h in
    no_space (is_space c) _ (digit_not-space c p.0) (strip_end-digits t s e p.1)
  where
    no_space :
        (b : Bool) (r : Text) → b ≡ false → r ≡ s → (if b && is_empty r then [] else c ∷ r) ≡ c ∷ s
    no_space true r e h = absurd (ground (arith, e))
    no_space false r e h = ap (λ t. c ∷ t) h

strip_digits : (t s : Text) → strip_end t ≡ [] → is_digits s ≡ true → strip (s ++ t) ≡ s
unfolding strip strip_start
strip_digits t [] z h = absurd (ground (arith, h))
strip_digits t (c ∷ s) z h =
    let p = both (is_digit c) (all_chars is_digit s) h in
    no_space (is_space c) (digit_not-space c p.0)
  where
    no_space :
        (b : Bool)
        → b ≡ false
        → strip_end (if b then strip_start (s ++ t) else c ∷ (s ++ t)) ≡ c ∷ s
    no_space true e = absurd (ground (arith, e))
    no_space false e = strip_end-digits t (c ∷ s) z h

after_nothing : (s : Text) → s ++ [] ≡ s
after_nothing [] = refl
after_nothing (c ∷ s) = ap (λ t. c ∷ t) (after_nothing s)

-- The file of a port is_so the port.
read_written : (n : ℕ) → in_range n ≡ ok n → read (some (decimal n ++ 10 ∷ [])) ≡ n
unfolding read validate number_in strip_end
read_written n h =
    subst (λ t. or_default (validate (str (strip t))) ≡ n)
      (sym (read_line-digits (decimal n) (all_digits (decimal n) (is_digits-decimal n))))
      (subst (λ t. or_default (validate (str t)) ≡ n)
        (sym (strip_digits (10 ∷ []) (decimal n) refl (is_digits-decimal n)))
        (subst
          (λ t.
            or_default ((if is_digits t then ok (to_int t) else err no_number) >>= in_range) ≡ n)
          (sym (
            ap strip (sym (after_nothing (decimal n)))
            ∙ strip_digits [] (decimal n) refl (is_digits-decimal n)))
          (subst
            (λ b.
              or_default ((if b then ok (to_int (decimal n)) else err no_number) >>= in_range) ≡ n)
            (sym (is_digits-decimal n))
            (subst (λ k. or_default (in_range k) ≡ n) (sym (to_int-decimal n)) (ap or_default h)))))

-- A port that is written is read back, from whatever value it was given.
pub write-read :
    (value : Json) (file : Option Text) (port : ℕ)
    → (write true value file).0 ≡ ok port
    → read (write true value file).1 ≡ port
unfolding write read
write-read value file port h = after (validate value) (validate-IsUsable value) h
  where
    after :
        (r : Result PortError ℕ)
        → ((n : ℕ) → r ≡ ok n → (in_range n ≡ ok n) × IsUsable n)
        → (save true file r).0 ≡ ok port
        → read (save true file r).1 ≡ port
    after (ok n) k h = read_written n (k n refl).0 ∙ ground (arith, h)
    after (err e) k h = absurd (ground (arith, h))
