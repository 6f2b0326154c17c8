-- ===== src/WifiCountry.antt =====
-- epilykos_wifi.py: the regulatory country of the radio, and the small text helpers beside it. Letters
-- are put in upper case as ASCII letters.
pub mod Saved
mod Examples
use epilykos_os.Base.{
  ℕ, ◌-◌, String, Bool, true, false, not, ◌&&◌, ◌||◌, ◌==◌, leb, if◌then◌else◌, Option, none, some,
  List, [], ◌∷◌, ◌++◌, Text, codes, same_codes, is_empty, starts_with, onto_first, strip,
}

abbrev pub is_upper : ℕ → Bool
is_upper c = leb b'A' c && leb c b'Z'

abbrev pub is_lower : ℕ → Bool
is_lower c = leb b'a' c && leb c b'z'

abbrev pub upper_of : ℕ → ℕ
upper_of c = if is_lower c then c - 32 else c

abbrev pub upper : Text → Text
upper [] = []
upper (c ∷ s) = upper_of c ∷ upper s

-- COUNTRY; `$` also stands before a last line feed.
abbrev pub at_end : Text → Bool
at_end [] = true
at_end (c ∷ s) = c == 10 && is_empty s

abbrev pub is_country : Text → Bool
is_country (a ∷ b ∷ s) = is_upper a && (is_upper b && at_end s)
is_country _ = false

-- The file that is left, or the WifiError.
unfoldable pub save_country : Text → Option Text
save_country country = if is_country (upper country) then some (upper country ++ 10 ∷ []) else none

abbrev pub if_country : Text → Text
if_country value = if is_country value then value else []

unfoldable pub load_country : Option Text → Text
load_country none = []
load_country (some file) = if_country (upper (strip file))

-- `text.split(separator)`
unfoldable pub split_on : ℕ → Text → List Text
split_on separator [] = [] ∷ []
split_on separator (c ∷ s) =
    let rest = split_on separator s in if c == separator then [] ∷ rest else onto_first c rest

-- The country of one line of zone.tab, if it is the line of the zone.
abbrev pub country_in : Text → Text → List Text → Option Text
country_in zone line (country ∷ place ∷ name ∷ rest) =
    if not (starts_with b'#' line) && (same_codes name zone && is_country country)
    then some country
    else none
country_in zone line _ = none

unfoldable pub first_country : Text → List Text → Text
first_country zone [] = []
first_country zone (line ∷ lines) = elim (country_in zone line (split_on 9 line)) [
  | some country ↦ country
  | none ↦ first_country zone lines
]

-- With zone.tab, if it can be read.
unfoldable pub country_for_zone : Text → Option Text → Text
unfolding first_country split_on
country_for_zone zone none = []
country_for_zone zone (some file) = first_country zone (split_on 10 file)

-- Where a country came from.
pub data Source : Type 0 where
  nowhere wifi_settings : Source
  time_zone : Text → Source

unfoldable pub zone_country : Text → Text → Text × Source
zone_country zone country = if is_empty country then ([], nowhere) else (country, time_zone zone)

unfoldable pub effective_country : Text → Option Text → Option Text → Text × Source
effective_country zone file zone_tab =
    if is_empty (load_country file)
    then zone_country zone (country_for_zone zone zone_tab)
    else (load_country file, wifi_settings)

-- With whether `iw reg set` succeeds for a country.
unfoldable pub apply_country :
    (Text → Bool) → Text → Option Text → Option Text → Text × Source × Bool
unfolding effective_country
apply_country sets zone file zone_tab =
    let (country, source) = effective_country zone file zone_tab in
    if is_empty country then ([], nowhere, true) else (country, source, sets country)

-- Zero bytes, spaces, tabs and line ends, and a file that has nothing else.
abbrev pub is_filler : ℕ → Bool
is_filler c = c == 0 || c == 32 || c == 9 || c == 13 || c == 10

abbrev pub is_blank : Text → Bool
is_blank [] = true
is_blank (c ∷ s) = is_filler c && is_blank s
