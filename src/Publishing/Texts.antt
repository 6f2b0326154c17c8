-- ===== src/Publishing/Texts.antt =====
-- The patterns of the two gates, written out: a SHA-256 in hex, a number, and a version tag.
use epilykos_os.Base.{
  and_iff, or_iff, Each, IsBetween, IsDigit, IsBetween-iff, Each-iff, ℕ, ◌≤◌, ◌≡◌, refl, ap, ◌∙◌,
  ◌⊎◌, ◌↔◌, Bool, true, false, ◌&&◌, ◌==◌, List, [], ◌∷◌, leb, length, codes, is_digit, is_digits,
  all_chars, arith, String, both, if◌then◌else◌, subst, sym, ◌++◌,
}
use epilykos_os.Publishing.{is_hex, is_sha256, is_number, is_version, is_tag_after, is_version_ref}

-- 64 characters, each a digit or a letter from a to f.
abbrev pub IsSha256 : List ℕ → Type 0
IsSha256 s = (length s ≡ 64) × Each (λ c. IsDigit c ⊎ IsBetween b'a' b'f' c) s

pub is_sha256_iff : (s : List ℕ) → (is_sha256 s ≡ true) ↔ IsSha256 s
is_sha256_iff s = and_iff (length s == 64) (all_chars is_hex s) (ground arith) (
    Each-iff is_hex
      (λ c. or_iff (is_digit c) _ (IsBetween-iff b'0' b'9' c) (IsBetween-iff b'a' b'f' c)) s)

-- A digit other than 0, and up to n digits after it.
abbrev pub IsNumber : ℕ → List ℕ → Type 0
IsNumber n [] = ⊥
IsNumber n (c ∷ s) = IsBetween b'1' b'9' c × ((length s ≤ n) × Each IsDigit s)

pub is_number_iff : (n : ℕ) (s : List ℕ) → (is_number n s ≡ true) ↔ IsNumber n s
is_number_iff n [] = (λ h. cc, λ h. absurd h)
is_number_iff n (c ∷ s) =
    and_iff _ _ (IsBetween-iff b'1' b'9' c)
      (and_iff (leb (length s) n) _ (ground arith) (Each-iff is_digit (IsBetween-iff b'0' b'9') s))

-- At least one digit, and nothing else.
abbrev pub IsDigits : List ℕ → Type 0
IsDigits [] = ⊥
IsDigits (c ∷ s) = IsDigit c × Each IsDigit s

is_digits_iff : (s : List ℕ) → (is_digits s ≡ true) ↔ IsDigits s
is_digits_iff [] = (λ h. cc, λ h. absurd h)
is_digits_iff (c ∷ s) =
    and_iff _ _ (IsBetween-iff b'0' b'9' c) (Each-iff is_digit (IsBetween-iff b'0' b'9') s)

-- Digits, a dot and digits.
abbrev pub IsVersion : List ℕ → Type 0
IsVersion s =
    (major : List ℕ) × ((minor : List ℕ) × IsDigits major
      × IsDigits minor
      × (s ≡ major ++ (b'.' ∷ minor)))

abbrev pub IsVersionTag : List ℕ → Type 0
IsVersionTag s = (version : List ℕ) × (IsVersion version × (s ≡ codes "refs/tags/v" ++ version))

-- The same where a digit has been seen already.
abbrev Dotted : List ℕ → Type 0
Dotted s =
    (major : List ℕ) × ((minor : List ℕ) × Each IsDigit major
      × IsDigits minor
      × (s ≡ major ++ (b'.' ∷ minor)))

is_version-Dotted : (s : List ℕ) → is_version true s ≡ true → Dotted s
is_version-Dotted [] h = cc
is_version-Dotted (c ∷ s) h = by_digit (is_digit c) refl (is_version-Dotted s) h
  where
    by_digit :
        (d : Bool)
        → is_digit c ≡ d
        → (is_version true s ≡ true → Dotted s)
        → (if d then is_version true s else (c == 46 && is_digits s)) ≡ true
        → Dotted (c ∷ s)
    by_digit true is rest h =
        let (major, (minor, digits, more, at)) = rest h in
        (c ∷ major, (minor, ((IsBetween-iff b'0' b'9' c).0 is, digits), more, ap (◌∷◌ c) at))
    by_digit false is rest h =
        let dot : c ≡ 46 = ground (arith, h) in
        ([], (s, tt, (is_digits_iff s).0 (both (c == 46) (is_digits s) h).1, ap (λ k. k ∷ s) dot))

dotted-is_version :
    (major minor : List ℕ)
    → Each IsDigit major
    → IsDigits minor
    → is_version true (major ++ (b'.' ∷ minor)) ≡ true
dotted-is_version [] minor digits more = (is_digits_iff minor).1 more
dotted-is_version (c ∷ major) minor digits more =
    rw ((IsBetween-iff b'0' b'9' c).1 digits.0) (dotted-is_version major minor digits.1 more)

is_version_iff : (s : List ℕ) → (is_version false s ≡ true) ↔ IsVersion s
is_version_iff s = (
  read s,
  λ (major, (minor, digits, more, at)).
      subst (λ t. is_version false t ≡ true) (sym at) (written major minor digits more),
)
  where
    read : (s : List ℕ) → is_version false s ≡ true → IsVersion s
    read [] h = cc
    read (c ∷ s) h = by_digit (is_digit c) refl h
      where
        by_digit :
            (d : Bool)
            → is_digit c ≡ d
            → (if d then is_version true s else false) ≡ true
            → IsVersion (c ∷ s)
        by_digit true is h =
            let (major, (minor, digits, more, at)) = is_version-Dotted s h in
            (c ∷ major, (minor, ((IsBetween-iff b'0' b'9' c).0 is, digits), more, ap (◌∷◌ c) at))
        by_digit false is h = cc

    written :
        (major minor : List ℕ)
        → IsDigits major
        → IsDigits minor
        → is_version false (major ++ (b'.' ∷ minor)) ≡ true
    written [] minor digits more = absurd digits
    written (c ∷ major) minor digits more =
        rw ((IsBetween-iff b'0' b'9' c).1 digits.0) (dotted-is_version major minor digits.1 more)

after_iff :
    (ps s : List ℕ) → (is_tag_after ps s ≡ true) ↔ ((v : List ℕ) × (IsVersion v × (s ≡ ps ++ v)))
after_iff [] s = (
  λ h. (s, ((is_version_iff s).0 h, refl)),
  λ (v, (is, at)). (is_version_iff s).1 (subst IsVersion (sym at) is),
)
after_iff (p ∷ ps) [] = (λ h. cc, λ (v, (is, at)). cc)
after_iff (p ∷ ps) (c ∷ s) = (
  λ h.
      let at : c ≡ p = ground (arith, h) in
      let (v, (is, rest)) = (after_iff ps s).0 (both (c == p) _ h).1 in
      (v, (is, ap (λ k. k ∷ s) at ∙ ap (◌∷◌ p) rest)),
  λ (v, (is, at)).
      let rest = (after_iff ps s).1 (v, (is, ground (arith, at))) in
      let same : (c == p) ≡ true = ground (arith, at) in rw same rest,
)

pub is_version_ref_iff : (ref : String) → (is_version_ref ref ≡ true) ↔ IsVersionTag (codes ref)
is_version_ref_iff ref = after_iff (codes "refs/tags/v") (codes ref)
