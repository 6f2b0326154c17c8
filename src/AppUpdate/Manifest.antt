-- ===== src/AppUpdate/Manifest.antt =====
-- The app's manifest: its signature, its schema, and what an update takes of it.
use epilykos_os.Base.{
  ℕ, String, ◌+◌, ◌-◌, Bool, true, false, not, ◌&&◌, ◌||◌, ◌==◌, leb, if◌then◌else◌, Option, none,
  some, [], ◌∷◌, Text, codes, same_codes, is_empty, is_digit, after_prefix, length, decimal, Result,
  ok, refuse, or_raise, ◌>>◌, ◌>>=◌,
}
use epilykos_os.Json.{
  Json, null, boolean, int, negative, real, str, array, object, field, is_object, is_str, matches,
  text_of, number_of, is_hex_digit,
}

-- UpdateError by its sentence; what else Python raises by its class.
pub data UpdateError : Type 0 where
  says : String → UpdateError
  attribute_error : UpdateError
  other_error : UpdateError

pub record Candidate : Type 0 where
  pub release : Text
  pub channel : Text
  pub sequence : ℕ
  pub digest : Text
  pub source : Text

-- `value != 1`: True and 1.0 equal 1.
abbrev pub is_one : Json → Bool
is_one (int n) = n == 1
is_one (boolean b) = b
is_one (real t) = same_codes t (codes "1.0")
is_one _ = false

-- `str(value)`; of a list or a dictionary as much as the patterns look at.
abbrev pub str_of : Json → Text
str_of null = codes "None"
str_of (boolean true) = codes "True"
str_of (boolean false) = codes "False"
str_of (int n) = decimal n
str_of (negative n) = b'-' ∷ decimal n
str_of (real t) = t
str_of (str s) = s
str_of (array vs) = codes "["
str_of (object ms) = codes "{"

-- `app.get(name, '')`
abbrev pub is_there : String → Json → Bool
is_there name value = elim (field name value) [ null ↦ false | _ ↦ true ]

-- The end of a pattern: `$` also stands before a last line feed.
abbrev pub at_end : Text → Bool
at_end [] = true
at_end (c ∷ s) = c == 10 && is_empty s

-- n hexadecimal digits and the end.
abbrev pub is_hex_then_end : Text → ℕ → Bool
is_hex_then_end [] n = n == 0
is_hex_then_end (c ∷ s) n =
    let rest = is_hex_then_end s (n - 1) in
    if n == 0 then at_end (c ∷ s) else is_hex_digit c && rest

-- DIGEST_RE
abbrev pub is_digest : Text → Bool
is_digest s = elim (after_prefix (codes "sha256:") s) [
  | none ↦ false
  | some rest ↦ is_hex_then_end rest 64
]

abbrev pub is_lower : ℕ → Bool
is_lower c = is_digit c || (leb b'a' c && leb c b'z')

-- Characters of a class, at most so many, and the end.
abbrev pub is_source_rest : Text → Bool
is_source_rest [] = true
is_source_rest (c ∷ s) =
    let rest = is_source_rest s in
    (is_lower c || c == b'.' || c == b'_' || c == b'/' || c == b'-') && rest || at_end (c ∷ s)

abbrev pub without_end : Text → ℕ
without_end [] = 0
without_end (c ∷ s) = let rest = without_end s in if at_end (c ∷ s) then 0 else rest + 1

-- SOURCE_RE
abbrev pub is_source : Text → Bool
is_source [] = false
is_source (c ∷ s) = is_lower c && (is_source_rest s && leb (without_end s) 127)

abbrev pub is_positive : Json → Bool
is_positive (int n) = leb 1 n
is_positive _ = false

-- `value or {}`, and whether its `get` is there: a value that is true and no dictionary has none.
abbrev pub has_get : Json → Bool
has_get (object ms) = true
has_get null = true
has_get (boolean b) = not b
has_get (int n) = n == 0
has_get (str s) = is_empty s
has_get (array vs) = is_nothing vs
  where
    is_nothing : epilykos_os.Json.Elements → Bool
    is_nothing epilykos_os.Json.empty = true
    is_nothing (epilykos_os.Json.element v vs) = false
has_get (real t) = same_codes t (codes "0.0") || same_codes t (codes "-0.0")
has_get (negative n) = false

abbrev pub app_of : Json → Json
app_of m = field "epilykos" (field "images" m)

unfoldable pub validate : Text → Json → Result UpdateError Candidate
validate channel m =
    let app : Json = app_of m in
    refuse (not (is_object m) || not (has_get (field "images" m))) attribute_error
    >> refuse
        (not (is_one (field "schema" m))
          || not (is_object app)
          || not (is_positive (field "sequence" m))
          || not (is_there "digest" app && is_digest (str_of (field "digest" app)))
          || not (is_there "source" app && is_source (str_of (field "source" app)))
          || not (matches (λ _. true) (field "release" m)))
        (says "The update manifest is not valid")
    >> refuse (not (is_str channel (field "channel" m)))
        (says "The update is for another channel, not this appliance's")
    >> ok (record {
      release = text_of (field "release" m);
      channel = channel;
      sequence = number_of (field "sequence" m);
      digest = text_of (field "digest" app);
      source = str_of (field "source" app);
    })

-- With the pinned key, whether openssl accepts a signature by it, and json.loads.
pub record Verifier : Type 0 where
  pub has_key : Bool
  pub accepts : Text → Text → Bool
  pub loads : Text → Option Json
  pub channel : Text

unfoldable pub verify : Verifier → Text → Text → Result UpdateError Candidate
unfolding validate
verify v manifest signature =
    refuse (not v.has_key) (
      says
        "This EpilykosOS build has no app update key, so it cannot install app updates. Install a newer EpilykosOS image.")
    >> refuse (not (length signature == 64)) (says "The update signature is not valid")
    >> refuse (not (v.accepts manifest signature))
        (says "The update is not signed by Epilykos, so it was refused")
    >> or_raise (says "The update manifest is unreadable") (v.loads manifest)
    >>= validate v.channel
