-- ===== src/WifiCountry/Examples.antt =====
-- A saved country, and one of a time zone.
use epilykos_os.Base.{◌≡◌, refl, none, some, codes}
use epilykos_os.WifiCountry.{save_country, wifi_settings, effective_country, country_for_zone}
use epilykos_os.WifiCountry.Saved.{save_country-effective_country}

lagos :
    country_for_zone
      (codes "Africa/Lagos")
      (some (codes "# zones\nNG\t+0627+00324\tAfrica/Lagos\n"))
    ≡ codes "NG"
unfolding country_for_zone
lagos = refl

save_country-effective_country_example :
    effective_country (codes "Africa/Lagos") (save_country (codes "ng")) none
    ≡ (codes "NG", wifi_settings)
save_country-effective_country_example =
    save_country-effective_country 110 103 (codes "Africa/Lagos") none refl refl
