-- ===== src/OsTrust/Canonical.antt =====
-- What a document that `strict_json` accepts is: the one canonical encoding of its value.
use epilykos_os.Base.{
  ℕ, ◌≡◌, refl, sym, ◌∙◌, ap, ◌≤◌, Bool, true, false, Option, none, some, Text, length, same_codes,
  same_codes_iff, ok, refuse, refuse-done, arith,
}
use epilykos_os.Json.{Json, is_unique}
use epilykos_os.OsTrust.{Fault, Tools, is_canonical, strict_json}

-- The refused test does not hold.
pub refused : (b : Bool) (e : Fault) → refuse b e ≡ ok tt → b ≡ false
refused b e h = (refuse-done b e).0 h

module _ (w : Tools) where
  is_canonical-canonical :
      (value : Json) (raw : Text) → is_canonical w value raw ≡ true → w.canonical value ≡ some raw
  is_canonical-canonical value raw h = written (w.canonical value) refl h
    where
      written :
          (o : Option Text)
          → w.canonical value ≡ o
          → elim o [ none ↦ false | some t ↦ same_codes t raw ] ≡ true
          → w.canonical value ≡ some raw
      written none e h = absurd (ground (arith, h))
      written (some t) e h = e ∙ ap some ((same_codes_iff t raw).0 h)

  -- A document that is accepted is read as its value, has no member twice, and is the canonical
  -- encoding of its value.
  pub strict_json-canonical :
      (raw : Text) (maximum : ℕ) (value : Json)
      → strict_json w raw maximum ≡ ok value
      → (w.loads raw ≡ some value)
        × (is_unique value ≡ true)
        × (w.canonical value ≡ some raw)
        × (length raw ≤ maximum)
  unfolding strict_json
  strict_json-canonical raw maximum value h = ground (arith, is_canonical-canonical value raw, h)

  -- Two accepted documents with the same value are the same bytes, so a signature of one is a
  -- signature of the value.
  pub strict_json-same :
      (raw raw' : Text) (maximum maximum' : ℕ) (value : Json)
      → strict_json w raw maximum ≡ ok value
      → strict_json w raw' maximum' ≡ ok value
      → raw ≡ raw'
  strict_json-same raw raw' maximum maximum' value h h' = only_some _ _ (
      sym (strict_json-canonical raw maximum value h).2
      ∙ (strict_json-canonical raw' maximum' value h').2)
    where
      only_some : (s t : Text) → some s ≡ some t → s ≡ t
      only_some s t e = ground (arith, e)
