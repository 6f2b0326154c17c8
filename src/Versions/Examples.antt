-- ===== src/Versions/Examples.antt =====
-- A repository with two tags.
use epilykos_os.Base.{
  ℕ, ◌≡◌, refl, inl, inr, Bool, true, false, Option, none, some, List, [], ◌∷◌, Text, codes,
}
use epilykos_os.Versions.{parse, is_newer, tag_text, Version, Repo, decide_main}
use epilykos_os.Versions.Order.{parse-tag_text, decide_main-newest}

abbrev repo : Repo
repo = record {
  tags = codes "v0.9" ∷ codes "latest" ∷ codes "v0.10" ∷ [];
  head = codes "abc";
  tag_commit = λ _. codes "def";
  changed_since = λ _. true;
}

next_is_11 : (decide_main repo).tag ≡ some (codes "v0.11")
unfolding decide_main epilykos_os.Versions.latest_version parse epilykos_os.Base.partition
    epilykos_os.Versions.version_text epilykos_os.Base.decimal
next_is_11 = refl

parse-tag_text_example : parse (tag_text 1 12) ≡ some (1, 12)
parse-tag_text_example = parse-tag_text 1 12

decide_main-newest_example :
    (tag : Text) × (w : ℕ × ℕ) × ((decide_main repo).tag ≡ some tag)
    × (parse tag ≡ some w)
    × (is_newer w (0, 10) ≡ true)
unfolding decide_main parse epilykos_os.Base.partition epilykos_os.Versions.latest_version
decide_main-newest_example =
    decide_main-newest repo (codes "v0.10") (0, 10) (inr (inr (inl refl))) refl refl
