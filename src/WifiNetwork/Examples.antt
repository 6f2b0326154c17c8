-- ===== src/WifiNetwork/Examples.antt =====
-- A wifi.txt, and a network whose password is written anew and put back.
use epilykos_os.Base.{
  ◌≡◌, refl, false, true, Bool, not, ◌==◌, both, all_chars, subst, Option, arith, some, [], ◌∷◌,
  ◌++◌, Text, codes, get, ok,
}
use epilykos_os.WifiNetwork.{
  Network, Files, iwd_file_name, iwd_file_content, write_iwd_network, write_valid, saved_network,
  restore_network, is_typed,
}
use epilykos_os.WifiNetwork.WifiTxt.{parse_wifi_txt}
use epilykos_os.WifiNetwork.Restored.{HasNoReturn, restore_network-saved}

abbrev home : Network
home = record {
  ssid = codes "My home";
  passphrase = codes "12345678";
  is_hidden = false;
  country = codes "GB";
}

abbrev note : Text
note =
    codes "ssid = \"My home\""
    ++ (10 ∷ codes "# the password" ++ (10 ∷ codes "PSK=12345678" ++ (10 ∷ codes "country=gb")))

-- Read, with a comment passed over and the keys in any case.
note_read : parse_wifi_txt note ≡ ok home
unfolding parse_wifi_txt is_typed
note_read = refl

content_escaped :
    iwd_file_content (record home { passphrase = codes " back\\slash" })
    ≡ codes "[Security]"
      ++ (10 ∷ codes "Passphrase=\\s"
          ++ (codes "back\\\\slash"
              ++ (10 ∷ 10 ∷ codes "[Settings]" ++ (10 ∷ codes "AutoConnect=true" ++ (10 ∷ [])))))
unfolding iwd_file_content
content_escaped = refl

hex_name : iwd_file_name (195 ∷ 169 ∷ []) false ≡ codes "=c3a9.psk"
unfolding iwd_file_name
hex_name = refl

abbrev directory : Files
directory =
    (codes "My home.open", codes "[Settings]") ∷ ((codes "cafe.open", codes "[Settings]") ∷ [])

no_return : (s : Text) → all_chars (λ c. not (c == 13)) s ≡ true → HasNoReturn s
no_return [] h = tt
no_return (c ∷ s) h =
    let p = both (not (c == 13)) (all_chars (λ c. not (c == 13)) s) h in
    (λ e. absurd (ground (arith, e, p.0)), no_return s p.1)

directory_plain :
    (is_open : Bool) (text : Text)
    → get (iwd_file_name home.ssid is_open) directory ≡ some text
    → HasNoReturn text
unfolding iwd_file_name
directory_plain true text at =
    subst HasNoReturn (same (codes "[Settings]") text at) (no_return (codes "[Settings]") refl)
  where
    same : (s t : Text) → ◌≡◌ {A = Option Text} (some s) (some t) → s ≡ t
    same s t e = ground (arith, e)
directory_plain false text at = cc

restore_network-saved_example :
    get
      (codes "My home.open")
      (restore_network home.ssid (saved_network home.ssid directory) (write_valid home directory))
    ≡ get (codes "My home.open") directory
unfolding write_iwd_network is_typed
restore_network-saved_example =
    restore_network-saved home directory (write_valid home directory) (codes "My home.open")
      directory_plain refl
