-- ===== src/WifiNetwork.antt =====
-- epilykos_wifi.py: the networks that are handed to iwd, as files of its state directory; the
-- reader of wifi.txt is WifiNetwork/WifiTxt. An SSID is a list of bytes; a directory is the list of
-- its files, the newest first. Letters are put in lower and upper case as ASCII letters, and a text
-- has no surrogates.
pub mod WifiTxt
pub mod Restored
pub mod Provisioned
mod Examples
use epilykos_os.Base.{
  ℕ, zero, suc, ◌+◌, ◌-◌, ◌/◌, ◌%◌, Bool, true, false, not, ◌&&◌, ◌||◌, ◌==◌, leb, ltb,
  if◌then◌else◌, Option, none, some, List, [], ◌∷◌, ◌++◌, length, Text, codes, same_codes, is_empty,
  starts_with, split_lines, strip, strip_end, partition, get, is_digit, all_chars, Result, ok, err,
  refuse, ◌>>=◌, ◌>>◌, or_raise,
}
use epilykos_os.WifiCountry.{is_upper, is_lower, upper, at_end, is_country}

pub record Network : Type 0 where
  pub ssid : List ℕ
  pub passphrase : Text
  pub is_hidden : Bool
  pub country : Text

pub data WifiError : Type 0 where
  ssid_length password_length password_chars country_code no_ssid_line empty_ssid : WifiError

abbrev pub is_hex : ℕ → Bool
is_hex c = is_digit c || (leb b'A' c && leb c b'F') || (leb b'a' c && leb c b'f')

-- So many hexadecimal digits, and the end of the text.
unfoldable pub is_hex_run : ℕ → Text → Bool
is_hex_run zero s = at_end s
is_hex_run (suc n) [] = false
is_hex_run (suc n) (c ∷ s) = is_hex c && is_hex_run n s

-- HEX64
unfoldable pub is_hex64 : Text → Bool
unfolding is_hex_run
is_hex64 s = is_hex_run 64 s

abbrev pub is_printable : ℕ → Bool
is_printable c = leb 32 c && leb c 126

abbrev pub is_between : ℕ → ℕ → ℕ → Bool
is_between low high n = leb low n && leb n high

-- `p and not HEX64.match(p)`
unfoldable pub is_typed : Text → Bool
unfolding is_hex64
is_typed p = not (is_empty p) && not (is_hex64 p)

unfoldable pub validate : Network → Result WifiError Network
unfolding is_hex64
validate net =
    refuse (not (is_between 1 32 (length net.ssid))) ssid_length
    >> (refuse (is_typed net.passphrase && not (is_between 8 63 (length net.passphrase)))
          password_length
        >> (refuse (is_typed net.passphrase && not (all_chars is_printable net.passphrase))
              password_chars
            >> (refuse (not (is_empty net.country) && not (is_country net.country)) country_code
                >> ok net)))

abbrev pub is_letter : ℕ → Bool
is_letter c = is_upper c || is_lower c

-- `c.isalnum() or c in '-_ '`, of ASCII.
abbrev pub is_plain : ℕ → Bool
is_plain c = is_digit c || is_letter c || c == b'-' || c == b'_' || c == b' '

abbrev pub is_ascii : ℕ → Bool
is_ascii c = ltb c 128

abbrev pub hex_digit : ℕ → ℕ
hex_digit n = if ltb n 10 then b'0' + n else b'a' + (n - 10)

-- `bytes.hex`
unfoldable pub hex : List ℕ → Text
hex [] = []
hex (b ∷ bs) = hex_digit (b / 16) ∷ (hex_digit (b % 16) ∷ hex bs)

abbrev pub extension : Bool → Text
extension true = codes ".open"
extension false = codes ".psk"

abbrev pub is_plain_name : List ℕ → Bool
is_plain_name ssid = all_chars is_ascii ssid && (not (is_empty ssid) && all_chars is_plain ssid)

unfoldable pub stem : List ℕ → Text
unfolding hex
stem ssid = if is_plain_name ssid then ssid else b'=' ∷ hex ssid

unfoldable pub iwd_file_name : List ℕ → Bool → Text
unfolding stem
iwd_file_name ssid open_network = stem ssid ++ extension open_network

-- `value.replace(c, text)` for one character.
unfoldable pub replace : ℕ → Text → Text → Text
replace c by [] = []
replace c by (d ∷ s) = let rest = replace c by s in if d == c then by ++ rest else d ∷ rest

abbrev pub mark_space : Text → Text
mark_space [] = []
mark_space (c ∷ s) = if c == b' ' then b'\\' ∷ (b's' ∷ s) else c ∷ s

unfoldable pub settings_escape : Text → Text
unfolding replace
settings_escape value = mark_space (
    replace 13 (b'\\' ∷ (b'r' ∷ [])) (
      replace 10 (b'\\' ∷ (b'n' ∷ []))
        (replace 9 (b'\\' ∷ (b't' ∷ [])) (replace b'\\' (b'\\' ∷ (b'\\' ∷ [])) value))))

abbrev pub lower_of : ℕ → ℕ
lower_of c = if is_upper c then c + 32 else c

abbrev pub lower : Text → Text
lower [] = []
lower (c ∷ s) = lower_of c ∷ lower s

unfoldable pub security : Text → List Text
unfolding is_hex64 settings_escape
security [] = []
security (c ∷ p) =
    codes "[Security]"
    ∷ ((if is_hex64 (c ∷ p)
          then codes "PreSharedKey=" ++ lower (c ∷ p)
          else codes "Passphrase=" ++ settings_escape (c ∷ p))
        ∷ ([] ∷ []))

-- `'\n'.join(lines) + '\n'`
abbrev pub lines_text : List Text → Text
lines_text [] = []
lines_text (l ∷ ls) = l ++ (10 ∷ lines_text ls)

unfoldable pub iwd_file_content : Network → Text
unfolding security
iwd_file_content net = lines_text (
    security net.passphrase
    ++ (codes "[Settings]"
        ∷ (codes "AutoConnect=true" ∷ (if net.is_hidden then codes "Hidden=true" ∷ [] else []))))

abbrev pub Files : Type 0
Files = List (Text × Text)

-- `os.unlink`, where a file that is not there is fine.
unfoldable pub unlink : Text → Files → Files
unlink name [] = []
unlink name ((n, text) ∷ d) =
    let rest = unlink name d in if same_codes n name then rest else (n, text) ∷ rest

-- `_write_file`: the new file takes the place of an old one.
unfoldable pub write_file : Text → Text → Files → Files
unfolding unlink
write_file name text d = (name, text) ∷ unlink name d

unfoldable pub write_valid : Network → Files → Files
unfolding iwd_file_name iwd_file_content write_file
write_valid net d =
    write_file (iwd_file_name net.ssid (is_empty net.passphrase)) (iwd_file_content net)
      (unlink (iwd_file_name net.ssid (not (is_empty net.passphrase))) d)

unfoldable pub write_iwd_network : Network → Files → Result WifiError Files
unfolding validate write_valid
write_iwd_network net d = validate net >>= λ valid. ok (write_valid valid d)

unfoldable pub remove_iwd_network : List ℕ → Files → Files
unfolding iwd_file_name unlink
remove_iwd_network ssid d = unlink (iwd_file_name ssid true) (unlink (iwd_file_name ssid false) d)

-- What `read` gives of a file opened as text: a carriage return ends a line, with the line feed that
-- may follow it.
abbrev pub read_text : Text → Text
read_text [] = []
read_text (c ∷ s) =
    let rest = read_text s in
    if c == 13 then (if starts_with 10 s then rest else 10 ∷ rest) else c ∷ rest

abbrev pub found_file : Text → Option Text → Files
found_file name none = []
found_file name (some text) = (name, read_text text) ∷ []

unfoldable pub saved_network : List ℕ → Files → Files
unfolding iwd_file_name
saved_network ssid d =
    found_file (iwd_file_name ssid false) (get (iwd_file_name ssid false) d)
    ++ found_file (iwd_file_name ssid true) (get (iwd_file_name ssid true) d)

unfoldable pub write_all : Files → Files → Files
unfolding write_file
write_all [] d = d
write_all ((name, text) ∷ saved) d = write_all saved (write_file name text d)

unfoldable pub restore_network : List ℕ → Files → Files → Files
unfolding remove_iwd_network write_all
restore_network ssid saved d = write_all saved (remove_iwd_network ssid d)
