-- ===== src/OsBundle/Sample.antt =====
-- A signed bundle of the sample release, with its manifest.
use epilykos_os.Base.{some, [], ◌∷◌, String, Text, codes}
use epilykos_os.OsTrust.{Tools, Sections}
use epilykos_os.OsTrust.Bundle.{Bundle}
use epilykos_os.OsTrust.Sample.{sha, tools}

abbrev pair : String → String → Text × Text
pair k v = (codes k, codes v)

-- By the size of the image.
abbrev pub manifest : String → Sections
manifest size =
    (codes "update", pair "compatible" "epilykos-raspberrypi3" ∷ [])
    ∷ ((codes "bundle", pair "format" "verity" ∷ [])
        ∷ ((codes "image.rootfs", pair "size" size ∷ (pair "sha256" sha ∷ []))
            ∷ ((
              codes "meta.epilykos",
              pair "board" "raspberrypi3"
                  ∷ (pair "channel" "stable"
                      ∷ (pair "sequence" "9"
                          ∷ (pair "boot_protocol" "2"
                              ∷ (pair "min_host_api" "2" ∷ (pair "trust_epoch" "2" ∷ []))))),
            )
                ∷ [])))

abbrev pub reader : String → Tools
reader size = record tools { read_manifest = λ _. some (manifest size) }

abbrev pub package_file : Bundle
package_file = record {
  size = 100;
  sha256 = codes sha;
  signed = some (codes "manifest", codes sha);
}
