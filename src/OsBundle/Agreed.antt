-- ===== src/OsBundle/Agreed.antt =====
-- What `check_manifest` and `check_meta` compare.
use epilykos_os.Base.{
  String, List, [], ◌∷◌, codes, decimal, false, same_codes, same_codes_iff, ℕ, ◌≡◌, not, Text, ok,
  refuse, refuse-done, then-ok, neither, is_so, ap, ◌∙◌,
}
use epilykos_os.Json.{Json, str, int, field}
use epilykos_os.OsTrust.{
  Sections, check_manifest, check_meta, meta_fields, shown, is_rootfs_only, image_sections,
  has_section, has_option, says,
}

-- What the manifest says of a field is what the entry says.
abbrev AgreesOn : Sections → Json → String → Type 0
AgreesOn parser entry key =
    ((s : Text) → field key entry ≡ str s → says parser "meta.epilykos" key ≡ s)
    × ((n : ℕ) → field key entry ≡ int n → says parser "meta.epilykos" key ≡ decimal n)

-- A verity bundle for this system, of the entry's release, with one image and nothing that runs.
abbrev pub Agrees : Sections → Json → Type 0
Agrees parser entry =
    (says parser "update" "compatible" ≡ codes "epilykos-raspberrypi3")
    × (says parser "bundle" "format" ≡ codes "verity")
    × (image_sections parser ≡ codes "image.rootfs" ∷ [])
    × (has_section parser "hooks" ≡ false)
    × (has_option parser "image.rootfs" "hooks" ≡ false)
    × (has_option parser "image.rootfs" "adaptive" ≡ false)
    × (has_section parser "handler" ≡ false)
    × AgreesOn parser entry "board"
    × AgreesOn parser entry "channel"
    × AgreesOn parser entry "sequence"
    × AgreesOn parser entry "boot_protocol"
    × AgreesOn parser entry "min_host_api"
    × AgreesOn parser entry "trust_epoch"

same_of : (s t : Text) → not (same_codes s t) ≡ false → s ≡ t
same_of s t h = (same_codes_iff s t).0 (is_so (same_codes s t) h)

rootfs_only :
    (names : List Text) → not (is_rootfs_only names) ≡ false → names ≡ codes "image.rootfs" ∷ []
rootfs_only [] h = cc
rootfs_only (name ∷ []) h = ap (λ n. n ∷ []) (same_of name (codes "image.rootfs") h)
rootfs_only (name ∷ other ∷ names) h = cc

check_meta-AgreesOn :
    (parser : Sections) (entry : Json) (key : String) (keys : List String)
    → check_meta parser entry (key ∷ keys) ≡ ok tt
    → AgreesOn parser entry key × (check_meta parser entry keys ≡ ok tt)
unfolding check_meta
check_meta-AgreesOn parser entry key keys h =
    let a = then-ok (refuse _ _) (check_meta parser entry keys) tt h in
    let shows =
      same_of (says parser "meta.epilykos" key) (shown (field key entry))
        ((refuse-done _ _).0 a.0) in
    ((λ s e. shows ∙ ap shown e, λ n e. shows ∙ ap shown e), a.1)

pub check_manifest-Agrees :
    (parser : Sections) (entry : Json) → check_manifest parser entry ≡ ok tt → Agrees parser entry
unfolding check_manifest
check_manifest-Agrees parser entry h =
    let a = then-ok _ (check_meta parser entry meta_fields) tt h in
    let b = then-ok _ _ tt a.0 in
    let c = then-ok _ _ tt b.0 in
    let d = then-ok _ _ tt c.0 in
    let e = neither _ _ ((refuse-done _ _).0 c.1) in
    let f = neither _ _ e.0 in
    let g = neither _ _ f.0 in
    let m = check_meta-AgreesOn parser entry "board" _ a.1 in
    let n = check_meta-AgreesOn parser entry "channel" _ m.1 in
    let o = check_meta-AgreesOn parser entry "sequence" _ n.1 in
    let p = check_meta-AgreesOn parser entry "boot_protocol" _ o.1 in
    let q = check_meta-AgreesOn parser entry "min_host_api" _ p.1 in
    let r = check_meta-AgreesOn parser entry "trust_epoch" _ q.1 in
    (
      same_of _ _ ((refuse-done _ _).0 d.0),
      same_of _ _ ((refuse-done _ _).0 d.1),
      rootfs_only _ g.0,
      g.1,
      f.1,
      e.1,
      (refuse-done _ _).0 b.1,
      m.0,
      n.0,
      o.0,
      p.0,
      q.0,
      r.0,
    )
