-- ===== src/WifiNetwork/Provisioned.antt =====
-- What is read from wifi.txt is usable: iwd is given no network that it would refuse.
use epilykos_os.Base.{
  zero, suc, ◌++◌, ◌↔◌, ◌||◌, is_digit, or_iff, Each, IsBetween, IsDigit, IsBetween-iff, Each-iff,
  ℕ, ◌≤◌, ◌≡◌, refl, ◌⊎◌, inl, inr, Bool, true, false, not, ◌&&◌, [], ◌∷◌, length, Text, is_empty,
  all_chars, ok, refuse, refuse-done, then-ok, is_so, leb, leb→le, Bool-cases, ap, arith, both,
}
use epilykos_os.WifiCountry.{is_country, is_upper, at_end}
use epilykos_os.WifiNetwork.{
  Network, ssid_length, password_length, password_chars, country_code, is_typed, is_hex, is_hex_run,
  is_hex64, is_printable, is_between, validate,
}

-- The text, or it with one more line feed.
abbrev pub UpToEnd : Text → Text → Type 0
UpToEnd s t = (t ≡ s) ⊎ (t ≡ s ++ (10 ∷ []))

abbrev pub IsHexDigit : ℕ → Type 0
IsHexDigit c = (IsDigit c ⊎ IsBetween b'A' b'F' c) ⊎ IsBetween b'a' b'f' c

-- A key: 64 hexadecimal digits.
abbrev pub IsKey : Text → Type 0
IsKey p = (digits : Text) × (length digits ≡ 64) × Each IsHexDigit digits × UpToEnd digits p

-- None (an open network), a key, or 8 to 63 printable characters.
abbrev pub IsPassword : Text → Type 0
IsPassword p = (p ≡ []) ⊎ (IsKey p ⊎ ((8 ≤ length p) × (length p ≤ 63) × Each (IsBetween 32 126) p))

-- Two upper-case letters.
abbrev pub IsCountry : Text → Type 0
IsCountry c =
    (a : ℕ) × (b : ℕ) × IsBetween b'A' b'Z' a × IsBetween b'A' b'Z' b × UpToEnd (a ∷ b ∷ []) c

abbrev pub IsUsable : Network → Type 0
IsUsable net =
    (1 ≤ length net.ssid)
    × (length net.ssid ≤ 32)
    × IsPassword net.passphrase
    × ((net.country ≡ []) ⊎ IsCountry net.country)

at_end-UpToEnd : (s : Text) → at_end s ≡ true → UpToEnd [] s
at_end-UpToEnd [] h = inl refl
at_end-UpToEnd (c ∷ []) h = inr (ap (λ k. k ∷ []) (ground (arith, h)))
at_end-UpToEnd (c ∷ d ∷ s) h = absurd (ground (arith, h))

UpToEnd-cons : (c : ℕ) (s t : Text) → UpToEnd s t → UpToEnd (c ∷ s) (c ∷ t)
UpToEnd-cons c s t (inl e) = inl (ap (◌∷◌ c) e)
UpToEnd-cons c s t (inr e) = inr (ap (◌∷◌ c) e)

hex_run-digits :
    (n : ℕ) (p : Text)
    → is_hex_run n p ≡ true
    → (digits : Text) × (length digits ≡ n) × Each IsHexDigit digits × UpToEnd digits p
unfolding is_hex_run
hex_run-digits zero p h = ([], refl, tt, at_end-UpToEnd p h)
hex_run-digits (suc n) [] h = cc
hex_run-digits (suc n) (c ∷ p) h =
    let q = both (is_hex c) (is_hex_run n p) h in
    let (digits, size, each, end) = hex_run-digits n p q.1 in
    (c ∷ digits, ap suc size, (hex_iff.0 q.0, each), UpToEnd-cons c digits p end)
  where
    hex_iff : (is_hex c ≡ true) ↔ IsHexDigit c
    hex_iff =
        or_iff (is_digit c || (leb b'A' c && leb c b'F')) _
          (or_iff (is_digit c) _ (IsBetween-iff b'0' b'9' c) (IsBetween-iff b'A' b'F' c))
          (IsBetween-iff b'a' b'f' c)

is_country-IsCountry : (c : Text) → is_country c ≡ true → IsCountry c
is_country-IsCountry [] h = cc
is_country-IsCountry (a ∷ []) h = cc
is_country-IsCountry (a ∷ b ∷ s) h =
    let p = both (is_upper a) (is_upper b && at_end s) h in
    let q = both (is_upper b) (at_end s) p.1 in
    (
      a,
      b,
      (IsBetween-iff b'A' b'Z' a).0 p.0,
      (IsBetween-iff b'A' b'Z' b).0 q.0,
      UpToEnd-cons a (b ∷ []) (b ∷ s) (UpToEnd-cons b [] s (at_end-UpToEnd s q.1)),
    )

-- A check of a typed password that did not refuse.
unrefused : (hex t : Bool) → ((true && not hex) && not t) ≡ false → hex ≡ false → t ≡ true
unrefused hex t h e = ground (arith, h, e)

within : (low high n : ℕ) → is_between low high n ≡ true → (low ≤ n) × (n ≤ high)
within low high n h =
    let b = both (leb low n) (leb n high) h in (leb→le low n b.0, leb→le n high b.1)

IsPassword-of_checks :
    (p : Text)
    → (is_typed p && not (is_between 8 63 (length p))) ≡ false
    → (is_typed p && not (all_chars is_printable p)) ≡ false
    → IsPassword p
unfolding is_typed is_hex64
IsPassword-of_checks [] h k = inl refl
IsPassword-of_checks (c ∷ s) h k = inr (by_hex (Bool-cases (is_hex64 (c ∷ s))))
  where
    by_hex :
        (is_hex64 (c ∷ s) ≡ true) ⊎ (is_hex64 (c ∷ s) ≡ false)
        → IsKey (c ∷ s)
          ⊎ ((8 ≤ length (c ∷ s)) × (length (c ∷ s) ≤ 63) × Each (IsBetween 32 126) (c ∷ s))
    by_hex (inl e) = inl (hex_run-digits 64 (c ∷ s) e)
    by_hex (inr e) =
        let size = within 8 63 (length (c ∷ s)) (unrefused (is_hex64 (c ∷ s)) _ h e) in
        inr (
          size.0,
          size.1,
          (Each-iff is_printable (IsBetween-iff 32 126) (c ∷ s)).0
              (unrefused (is_hex64 (c ∷ s)) _ k e),
        )

IsCountry-of :
    (c : Text) → (not (is_empty c) && not (is_country c)) ≡ false → (c ≡ []) ⊎ IsCountry c
IsCountry-of [] h = inl refl
IsCountry-of (a ∷ s) h = inr (is_country-IsCountry (a ∷ s) (ground (arith, h)))

pub validate-IsUsable : (net n : Network) → validate net ≡ ok n → (n ≡ net) × IsUsable net
unfolding validate
validate-IsUsable net n h =
    let a = then-ok (refuse (not (is_between 1 32 (length net.ssid))) ssid_length) _ n h in
    let b =
      then-ok
        (refuse (is_typed net.passphrase && not (is_between 8 63 (length net.passphrase)))
          password_length)
        _ n a.1 in
    let c =
      then-ok
        (refuse (is_typed net.passphrase && not (all_chars is_printable net.passphrase))
          password_chars)
        _ n b.1 in
    let d =
      then-ok (refuse (not (is_empty net.country) && not (is_country net.country)) country_code) _ n
        c.1 in
    let size =
      within 1 32 (length net.ssid)
        (is_so (is_between 1 32 (length net.ssid)) ((refuse-done _ ssid_length).0 a.0)) in
    (
      ground (arith, d.1),
      (
        size.0,
        size.1,
        IsPassword-of_checks net.passphrase ((refuse-done _ password_length).0 b.0)
            ((refuse-done _ password_chars).0 c.0),
        IsCountry-of net.country ((refuse-done _ country_code).0 d.0),
      ),
    )
