-- ===== src/WifiCountry/Saved.antt =====
-- A country that is saved with the Wi-Fi settings is the one that the radio gets.
use epilykos_os.Base.{
  ℕ, ◌≡◌, refl, sym, subst, Bool, true, false, ◌&&◌, ◌||◌, if◌then◌else◌, Option, none, some, [],
  ◌∷◌, Text, is_empty, is_space, strip, strip_start, strip_end, arith,
}
use epilykos_os.WifiCountry.{
  is_upper, is_lower, upper_of, upper, save_country, if_country, load_country, Source,
  wifi_settings, effective_country, zone_country, country_for_zone,
}

-- An ASCII letter.
abbrev pub is_letter : ℕ → Bool
is_letter c = is_upper c || is_lower c

upper_of-is_upper : (c : ℕ) → is_letter c ≡ true → is_upper (upper_of c) ≡ true
upper_of-is_upper c h = ground (arith, h)

upper_not-space : (c : ℕ) → is_upper c ≡ true → is_space c ≡ false
upper_not-space c h = ground (arith, h)

upper_again : (c : ℕ) → is_upper c ≡ true → upper_of c ≡ c
upper_again c h = ground (arith, h)

-- The end of a line of two letters is stripped, and nothing else.
end_letters :
    (a b : ℕ) → is_space a ≡ false → is_space b ≡ false → strip_end (a ∷ b ∷ 10 ∷ []) ≡ a ∷ b ∷ []
unfolding strip_end
end_letters a b h k = by_spaces (is_space a) (is_space b) h k
  where
    by_spaces :
        (p q : Bool)
        → p ≡ false
        → q ≡ false
        → (if p && is_empty (if q && true then [] else b ∷ [])
            then []
            else a ∷ (if q && true then [] else b ∷ []))
          ≡ a ∷ b ∷ []
    by_spaces p q h k = ground (arith, h, k)

strip_letters :
    (a b : ℕ) → is_space a ≡ false → is_space b ≡ false → strip (a ∷ b ∷ 10 ∷ []) ≡ a ∷ b ∷ []
unfolding strip strip_start
strip_letters a b h k = by_space (is_space a) (strip_start (b ∷ 10 ∷ [])) h
  where
    by_space :
        (p : Bool) (rest : Text)
        → p ≡ false
        → strip_end (if p then rest else a ∷ b ∷ 10 ∷ []) ≡ a ∷ b ∷ []
    by_space true rest e = absurd (ground (arith, e))
    by_space false rest e = end_letters a b h k

load_letters :
    (a b : ℕ)
    → is_upper a ≡ true
    → is_upper b ≡ true
    → load_country (some (a ∷ b ∷ 10 ∷ [])) ≡ a ∷ b ∷ []
unfolding load_country
load_letters a b h k =
    subst (λ t. if_country (upper t) ≡ a ∷ b ∷ [])
      (sym (strip_letters a b (upper_not-space a h) (upper_not-space b k)))
      (subst (λ c. if_country (c ∷ upper_of b ∷ []) ≡ a ∷ b ∷ []) (sym (upper_again a h))
        (subst (λ c. if_country (a ∷ c ∷ []) ≡ a ∷ b ∷ []) (sym (upper_again b k))
          (by_tests (is_upper a) (is_upper b) h k)))
  where
    by_tests :
        (p q : Bool)
        → p ≡ true
        → q ≡ true
        → (if p && (q && true) then a ∷ b ∷ [] else []) ≡ a ∷ b ∷ []
    by_tests p q h k = ground (arith, h, k)

saved_letters :
    (a b : ℕ)
    → is_upper (upper_of a) ≡ true
    → is_upper (upper_of b) ≡ true
    → save_country (a ∷ b ∷ []) ≡ some (upper_of a ∷ upper_of b ∷ 10 ∷ [])
unfolding save_country
saved_letters a b h k = by_tests (is_upper (upper_of a)) (is_upper (upper_of b)) h k
  where
    by_tests :
        (p q : Bool)
        → p ≡ true
        → q ≡ true
        → (if p && (q && true) then some (upper_of a ∷ upper_of b ∷ 10 ∷ []) else none)
          ≡ some (upper_of a ∷ upper_of b ∷ 10 ∷ [])
    by_tests p q h k = ground (arith, h, k)

-- Two letters that are saved as the country, in either case, become the radio's country, in upper
-- case and as a Wi-Fi setting, whatever the time zone says.
pub save_country-effective_country :
    (a b : ℕ) (zone : Text) (zone_tab : Option Text)
    → is_letter a ≡ true
    → is_letter b ≡ true
    → effective_country zone (save_country (a ∷ b ∷ [])) zone_tab
      ≡ (upper_of a ∷ upper_of b ∷ [], wifi_settings)
unfolding effective_country
save_country-effective_country a b zone zone_tab h k =
    subst (λ f. effective_country zone f zone_tab ≡ (upper_of a ∷ upper_of b ∷ [], wifi_settings))
      (sym (saved_letters a b (upper_of-is_upper a h) (upper_of-is_upper b k)))
      (chosen _ (load_letters _ _ (upper_of-is_upper a h) (upper_of-is_upper b k)))
  where
    chosen :
        (t : Text)
        → t ≡ upper_of a ∷ upper_of b ∷ []
        → ◌≡◌ {A = Text × Source}
            (if is_empty t
              then zone_country zone (country_for_zone zone zone_tab)
              else (t, wifi_settings))
            (upper_of a ∷ upper_of b ∷ [], wifi_settings)
    chosen t e =
        subst
          (λ u.
            ◌≡◌ {A = Text × Source}
              (if is_empty u
                then zone_country zone (country_for_zone zone zone_tab)
                else (u, wifi_settings))
              (upper_of a ∷ upper_of b ∷ [], wifi_settings))
          (sym e) refl
