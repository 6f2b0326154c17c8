-- ===== src/WifiNetwork/WifiTxt.antt =====
-- epilykos_wifi.py: the reader of wifi.txt.
use epilykos_os.Base.{
  ℕ, ◌+◌, ◌/◌, ◌%◌, Bool, ◌||◌, ◌==◌, ltb, if◌then◌else◌, Option, none, some, List, [], ◌∷◌, ◌++◌,
  Text, codes, same_codes, is_empty, starts_with, split_lines, strip, partition, get, Result,
  refuse, ◌>>=◌, ◌>>◌, or_raise,
}
use epilykos_os.WifiCountry.{upper}
use epilykos_os.WifiNetwork.{Network, WifiError, validate, lower, empty_ssid, no_ssid_line}

-- `str.encode('utf-8')`
abbrev pub utf8_of : ℕ → List ℕ
utf8_of c =
    if ltb c 128
    then c ∷ []
    else (if ltb c 2048
        then (192 + c / 64) ∷ ((128 + c % 64) ∷ [])
        else (if ltb c 65536
            then (224 + c / 4096) ∷ ((128 + (c / 64) % 64) ∷ ((128 + c % 64) ∷ []))
            else (240 + c / 262144)
              ∷ ((128 + (c / 4096) % 64) ∷ ((128 + (c / 64) % 64) ∷ ((128 + c % 64) ∷ [])))))

abbrev pub utf8 : Text → List ℕ
utf8 [] = []
utf8 (c ∷ s) = utf8_of c ++ utf8 s

-- What stands before a last character, where that is `q`.
abbrev pub before_last : ℕ → Text → Option Text
before_last q [] = none
before_last q (c ∷ []) = if c == q then some [] else none
before_last q (c ∷ (d ∷ s)) = elim (before_last q (d ∷ s)) [ none ↦ none | some t ↦ some (c ∷ t) ]

abbrev pub inside_quotes : Text → Text
inside_quotes [] = []
inside_quotes (c ∷ s) =
    if c == b'"' || c == 39 then elim (before_last c s) [ none ↦ c ∷ s | some t ↦ t ] else c ∷ s

-- `_unquote`
unfoldable pub unquote : Text → Text
unfolding strip
unquote value = inside_quotes (strip value)

unfoldable pub truthy : Text → Bool
unfolding strip
truthy value =
    let word = lower (strip value) in
    same_codes word (codes "1")
    || (same_codes word (codes "true")
        || (same_codes word (codes "yes") || same_codes word (codes "on")))

-- `lstrip('\ufeff')`
abbrev pub without_mark : Text → Text
without_mark [] = []
without_mark (c ∷ s) = let rest = without_mark s in if c == 65279 then rest else c ∷ s

-- A line without `=`, a comment and an empty line are passed over.
unfoldable pub put_setting : Text → List (Text × Text) → List (Text × Text)
unfolding strip partition unquote
put_setting raw values =
    let line = without_mark (strip raw) in
    let (key, value) = partition b'=' line in
    if starts_with b'#' line
    then values
    else elim value [ none ↦ values | some v ↦ (lower (strip key), unquote v) ∷ values ]

unfoldable pub settings : List Text → List (Text × Text) → List (Text × Text)
unfolding put_setting
settings [] values = values
settings (raw ∷ lines) values = settings lines (put_setting raw values)

abbrev pub get_or : Text → List (Text × Text) → Text → Text
get_or key values other = elim (get key values) [ none ↦ other | some v ↦ v ]

-- The `WifiNetwork` of these values, before it is validated.
unfoldable pub network_of : List (Text × Text) → Text → Network
unfolding truthy
network_of values ssid = record {
  ssid = utf8 ssid;
  passphrase =
      get_or (codes "password") values
        (get_or (codes "psk") values (get_or (codes "passphrase") values []));
  is_hidden = truthy (get_or (codes "hidden") values []);
  country = upper (get_or (codes "country") values []);
}

unfoldable pub with_ssid : List (Text × Text) → Text → Result WifiError Network
unfolding validate network_of
with_ssid values ssid = refuse (is_empty ssid) empty_ssid >> validate (network_of values ssid)

unfoldable pub parse_wifi_txt : Text → Result WifiError Network
unfolding split_lines settings with_ssid
parse_wifi_txt text =
    let values = settings (split_lines text) [] in
    or_raise no_ssid_line (get (codes "ssid") values) >>= with_ssid values
