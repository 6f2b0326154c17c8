-- ===== src/Versions.antt =====
-- tools/os_version.py: which version an OS image build is, by the repository's tags.
pub mod Order
mod Examples
use epilykos_os.Base.{
  ℕ, ◌+◌, String, Bool, true, false, not, ◌&&◌, ◌||◌, ◌==◌, leb, ltb, if◌then◌else◌, Option, none,
  some, List, [], ◌∷◌, ◌++◌, Text, codes, same_codes, same_codes?, is_digits, to_int, decimal,
  partition, take,
}

-- `$` also stands before a last line feed.
abbrev pub without_newline : Text → Text
without_newline [] = []
without_newline (c ∷ []) = if c == 10 then [] else c ∷ []
without_newline (c ∷ d ∷ s) = let rest = without_newline (d ∷ s) in c ∷ rest

abbrev pub numbers_of : Text × Option Text → Option (ℕ × ℕ)
numbers_of (major, none) = none
numbers_of (major, some minor) =
    if is_digits major && is_digits (without_newline minor)
    then some (to_int major, to_int (without_newline minor))
    else none

-- TAG_RE and `parse`, of ASCII digits.
unfoldable pub parse : Text → Option (ℕ × ℕ)
parse [] = none
parse (c ∷ s) = if c == b'v' then numbers_of (partition b'.' s) else none

-- The order of the pairs.
abbrev pub is_newer : ℕ × ℕ → ℕ × ℕ → Bool
is_newer (a, b) (c, d) = ltb c a || (a == c && ltb d b)

-- `max(tags, key=parse)` of the tags that parse: the first of the newest, with its numbers.
abbrev pub newer_of : Text → Option (ℕ × ℕ) → Option (Text × (ℕ × ℕ)) → Option (Text × (ℕ × ℕ))
newer_of tag none best = best
newer_of tag (some v) none = some (tag, v)
newer_of tag (some v) (some (t, w)) = if is_newer w v then some (t, w) else some (tag, v)

unfoldable pub latest_version : List Text → Option (Text × (ℕ × ℕ))
latest_version [] = none
latest_version (tag ∷ tags) = newer_of tag (parse tag) (latest_version tags)

-- `f'{major}.{minor}'`
unfoldable pub version_text : ℕ → ℕ → Text
version_text major minor = decimal major ++ b'.' ∷ decimal minor

abbrev pub tag_text : ℕ → ℕ → Text
tag_text major minor = b'v' ∷ version_text major minor

pub record Version : Type 0 where
  pub version : Text
  pub tag : Option Text
  pub is_new : Bool
  pub previous : Option Text

-- What git says.
pub record Repo : Type 0 where
  pub tags : List Text
  pub head : Text
  pub tag_commit : Text → Text
  pub changed_since : Text → Bool

-- `tag[1:]`
abbrev pub rest_of : Text → Text
rest_of [] = []
rest_of (c ∷ s) = s

abbrev pub latest_tag : List Text → Option Text
latest_tag tags = elim (latest_version tags) [ none ↦ none | some best ↦ some best.0 ]

abbrev pub unchanged : Text → Version
unchanged tag = record {
  version = rest_of tag;
  tag = some tag;
  is_new = false;
  previous = some tag;
}

abbrev pub next_version : Text × (ℕ × ℕ) → Version
next_version (tag, (major, minor)) = record {
  version = version_text major (minor + 1);
  tag = some (tag_text major (minor + 1));
  is_new = true;
  previous = some tag;
}

-- `decide('main')`, with the newest tag.
abbrev pub decide_after : Repo → Option (Text × (ℕ × ℕ)) → Version
decide_after repo none = record {
  version = codes "0.1";
  tag = some (codes "v0.1");
  is_new = true;
  previous = none;
}
decide_after repo (some best) =
    if same_codes (repo.tag_commit best.0) repo.head || not (repo.changed_since best.0)
    then unchanged best.0
    else next_version best

unfoldable pub decide_main : Repo → Version
decide_main repo = decide_after repo (latest_version repo.tags)

abbrev pub next_minor : Option (Text × (ℕ × ℕ)) → Text
next_minor none = codes "0.1"
next_minor (some best) = version_text best.1.0 (best.1.1 + 1)

-- `decide('dev')`
unfoldable pub decide_dev : Repo → Version
decide_dev repo = record {
  version = next_minor (latest_version repo.tags) ++ codes "-dev+" ++ take 7 repo.head;
  tag = none;
  is_new = false;
  previous = latest_tag repo.tags;
}

-- `decide('release', tag)`, or its ValueError.
unfoldable pub decide_release : Repo → Text → Option Version
decide_release repo tag = elim (parse tag) [
  | none ↦ none
  | some v ↦ some (record {
    version = rest_of tag;
    tag = some tag;
    is_new = false;
    previous = latest_tag repo.tags;
  })
]
