-- ===== src/OsTrust/Scalars.antt =====
-- Canonical JSON and bounded scalars, and the tools that the module calls.
use epilykos_os.Base.{
  ℕ, String, ◌*◌, Bool, true, false, not, ◌&&◌, ◌||◌, ◌==◌, leb, if◌then◌else◌, Option, none, some,
  List, [], ◌∷◌, Text, codes, same_codes, is_empty, after_prefix, length, all_chars, Result, ok,
  err, refuse, or_raise, ◌>>◌, ◌>>=◌,
}
use epilykos_os.Json.{Json, str, int, is_unique, text_of}

-- TrustError is a ValueError; the others are plain ones. An OSError is `os_error`.
pub data Fault : Type 0 where
  trust_error value_error : String → Fault
  os_error : Fault

-- json.loads (an object's pairs in order) and json.dumps as `canonical` calls it; base64 with
-- validation; the DER that openssl gives for a public key, whether it accepts a signature of some
-- data by a key, and what it prints of a certificate; the pairs of a bundle's manifest by section.
pub record Tools : Type 0 where
  pub loads : Text → Option Json
  pub canonical : Json → Option Text
  pub b64decode : Text → Option Text
  pub b64encode : Text → Text
  pub der_of : Text → Option Text
  pub accepts : Text → Text → Text → Bool
  pub constraints_of : Text → Option Text
  pub read_manifest : Text → Option (List (Text × List (Text × Text)))

-- POLICY_MAX, ENTRY_MAX, UINT64_MAX and BUNDLE_MAX.
abbrev pub policy_max : ℕ
policy_max = 6144

abbrev pub entry_max : ℕ
entry_max = 8192

abbrev pub uint64_max : ℕ
uint64_max = 18446744073709551615

abbrev pub bundle_max : ℕ
bundle_max = 3 * (1024 * (1024 * 1024))

-- ED25519_SPKI
abbrev pub ed25519_spki : Text
ed25519_spki = 48 ∷ 42 ∷ 48 ∷ 5 ∷ 6 ∷ 3 ∷ 43 ∷ 101 ∷ 112 ∷ 3 ∷ 33 ∷ 0 ∷ []

-- An integer in a range, as a number.
unfoldable pub integer : Json → ℕ → Result Fault ℕ
integer (int n) minimum =
    if leb minimum n && leb n uint64_max then ok n else err (value_error "invalid unsigned integer")
integer _ minimum = err (value_error "invalid unsigned integer")

abbrev pub is_printable : ℕ → Bool
is_printable c = leb 32 c && leb c 126

unfoldable pub text : Json → ℕ → Result Fault Text
text (str s) maximum =
    if not (is_empty s) && (leb (length s) maximum && all_chars is_printable s)
    then ok s
    else err (value_error "invalid bounded printable string")
text _ maximum = err (value_error "invalid bounded printable string")

abbrev pub contains : Text → Text → Bool
contains t [] = is_empty t
contains t (c ∷ s) =
    let rest = contains t s in elim (after_prefix t (c ∷ s)) [ none ↦ rest | some _ ↦ true ]

module _ (w : Tools) where
  abbrev pub is_canonical : Json → Text → Bool
  is_canonical value raw = elim (w.canonical value) [
    | none ↦ false
    | some written ↦ same_codes written raw
  ]

  unfoldable pub strict_json : Text → ℕ → Result Fault Json
  strict_json raw maximum =
      refuse (is_empty raw || not (leb (length raw) maximum)) (value_error "JSON size limit")
      >> or_raise (value_error "invalid JSON") (w.loads raw)
      >>= λ value.
          refuse (not (is_unique value)) (value_error "duplicate JSON key")
          >> refuse (not (is_canonical value raw))
              (value_error "JSON must use canonical sorted ASCII encoding")
          >> ok value

  unfoldable pub b64 : Json → ℕ → Result Fault Text
  b64 value size = or_raise (value_error "invalid base64") (w.b64decode (text_of value)) >>= λ raw.
      refuse (not (length raw == size) || not (same_codes (w.b64encode raw) (text_of value)))
        (value_error "invalid canonical base64 length")
      >> ok raw

  -- A public key in PEM that openssl reads as Ed25519, and a signature of its key.
  unfoldable pub require_ed25519 : Text → String → Result Fault (Unit {0})
  require_ed25519 pem message =
      or_raise (value_error "OpenSSL rejected public material or signature") (w.der_of pem)
      >>= λ der.
          refuse (not (length der == 44) || is_empty? (after_prefix ed25519_spki der))
            (value_error message)
    where
      is_empty? : Option Text → Bool
      is_empty? none = true
      is_empty? (some _) = false

  unfoldable pub require_signature : Text → Text → Text → Result Fault (Unit {0})
  require_signature pem bytes signature =
      refuse (not (w.accepts pem bytes signature))
        (value_error "OpenSSL rejected public material or signature")

  unfoldable pub ed25519_verify : Text → Text → Text → Result Fault (Unit {0})
  unfolding require_ed25519 require_signature
  ed25519_verify public_pem bytes signature =
      refuse (not (length signature == 64))
        (value_error "Ed25519 signature must contain exactly 64 bytes")
      >> require_ed25519 public_pem "key must be Ed25519"
      >> require_signature public_pem bytes signature

  unfoldable pub raw_public_pem : Text → Text
  raw_public_pem raw32 =
      joined (codes "-----BEGIN PUBLIC KEY-----\n")
        (joined (w.b64encode (joined ed25519_spki raw32)) (codes "\n-----END PUBLIC KEY-----\n"))
    where
      joined : Text → Text → Text
      joined [] t = t
      joined (c ∷ s) t = c ∷ joined s t
