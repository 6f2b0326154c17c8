-- ===== src/Base/Lines.antt =====
-- Python's text methods on code points: strip, split, splitlines, partition, startswith, and the
-- dictionary of the lines `name=value`.
use Prim.Native.Nat.{ℕ, zero, suc, ◌-◌}
use mathlib.Core.Path.{◌≡◌, refl}
use mathlib.Core.Logic.{◌↔◌}
use native.Mathlib.Omega.{arith}
use mathlib.Core.Bool.{Bool, true, false, ◌&&◌, ◌||◌}
use mathlib.Core.Option.{Option, none, some}
use mathlib.Core.List.{List, [], ◌∷◌}
use epilykos_os.Base.Lists.{length}
use epilykos_os.Base.Tests.{leb, ◌==◌, if◌then◌else◌}

abbrev pub Text : Type 0
Text = List ℕ

abbrev pub same_codes : Text → Text → Bool
same_codes [] [] = true
same_codes (a ∷ s) (b ∷ t) = a == b && same_codes s t
same_codes _ _ = false

pub same_codes_iff : (s t : Text) → (same_codes s t ≡ true) ↔ (s ≡ t)
same_codes_iff [] [] = (λ _. refl, λ _. refl)
same_codes_iff [] (b ∷ t) = (λ h. absurd (ground (arith, h)), λ h. absurd (ground (arith, h)))
same_codes_iff (a ∷ s) [] = (λ h. absurd (ground (arith, h)), λ h. absurd (ground (arith, h)))
same_codes_iff (a ∷ s) (b ∷ t) = ground (arith, same_codes_iff s t)

abbrev pub same_codes? : Option Text → Text → Bool
same_codes? none t = false
same_codes? (some s) t = same_codes s t

abbrev pub is_empty {ℓ} : {A : Type ℓ} → List A → Bool
is_empty [] = true
is_empty (_ ∷ _) = false

-- `str.isspace` on one code point.
abbrev pub is_space : ℕ → Bool
is_space c =
    (leb 9 c && leb c 13)
    || (leb 28 c && leb c 32)
    || c == 133
    || c == 160
    || c == 5760
    || (leb 8192 c && leb c 8202)
    || c == 8232
    || c == 8233
    || c == 8239
    || c == 8287
    || c == 12288

-- The line boundaries of `str.splitlines`.
abbrev pub is_break : ℕ → Bool
is_break c = (leb 10 c && leb c 13) || (leb 28 c && leb c 30) || c == 133 || c == 8232 || c == 8233

unfoldable pub strip_start : Text → Text
strip_start [] = []
strip_start (c ∷ s) = let rest = strip_start s in if is_space c then rest else c ∷ s

unfoldable pub strip_end : Text → Text
strip_end [] = []
strip_end (c ∷ s) = let rest = strip_end s in if is_space c && is_empty rest then [] else c ∷ rest

unfoldable pub strip : Text → Text
unfolding strip_start strip_end
strip s = strip_end (strip_start s)

-- Put a code point in front of the first line.
abbrev pub onto_first : ℕ → List Text → List Text
onto_first c [] = (c ∷ []) ∷ []
onto_first c (l ∷ ls) = (c ∷ l) ∷ ls

-- Does a text start with this code point?
abbrev pub starts_with : ℕ → Text → Bool
starts_with c [] = false
starts_with c (d ∷ s) = d == c

-- A carriage return before a line feed is one boundary with it.
unfoldable pub split_lines : Text → List Text
split_lines [] = []
split_lines (c ∷ s) =
    let rest = split_lines s in
    if c == 13 && starts_with 10 s
    then rest
    else if is_break c
    then [] ∷ rest
    else onto_first c rest

-- The pieces between single spaces, and without the empty ones.
unfoldable pub pieces : Text → List Text
pieces [] = [] ∷ []
pieces (c ∷ s) = let rest = pieces s in if is_space c then [] ∷ rest else onto_first c rest

unfoldable pub nonempty : List Text → List Text
nonempty [] = []
nonempty ([] ∷ ls) = nonempty ls
nonempty ((c ∷ l) ∷ ls) = (c ∷ l) ∷ nonempty ls

-- `str.split()`
unfoldable pub split_words : Text → List Text
unfolding pieces nonempty
split_words s = nonempty (pieces s)

-- `s[len(prefix):]` if `s.startswith(prefix)`.
abbrev pub after_prefix : Text → Text → Option Text
after_prefix [] s = some s
after_prefix (p ∷ ps) [] = none
after_prefix (p ∷ ps) (c ∷ s) = if c == p then after_prefix ps s else none

-- `str.partition`: what stands before the separator, and what follows it, if it is there.
unfoldable pub partition : ℕ → Text → Text × Option Text
partition sep [] = ([], none)
partition sep (c ∷ s) =
    let rest = partition sep s in if c == sep then ([], some s) else (c ∷ rest.0, rest.1)

-- A dictionary, the newest entry first.
abbrev pub get {ℓ} : {A : Type ℓ} → Text → List (Text × A) → Option A
get k [] = none
get k ((j, v) ∷ d) = if same_codes j k then some v else get k d

-- One line `name=value`, put into the dictionary if it has the separator.
abbrev pub put_line : Text × Option Text → List (Text × Text) → List (Text × Text)
put_line (name, none) d = d
put_line (name, some value) d = (name, value) ∷ d

unfoldable pub put_lines : List Text → List (Text × Text) → List (Text × Text)
unfolding partition
put_lines [] d = d
put_lines (l ∷ ls) d = put_lines ls (put_line (partition b'=' l) d)

-- The loop of `parse_env` and of `read_env`.
unfoldable pub parse_env : Text → List (Text × Text)
unfolding put_lines split_lines
parse_env text = put_lines (split_lines text) []

-- How often `str.count` finds a text that is not empty; `skip` code points belong to the last find.
abbrev pub occurrences : Text → ℕ → Text → ℕ
occurrences t skip [] = 0
occurrences t (suc skip) (c ∷ s) = occurrences t skip s
occurrences t zero (c ∷ s) = elim (after_prefix t (c ∷ s)) [
  | none ↦ occurrences t zero s
  | some _ ↦ suc (occurrences t (length t - 1) s)
]
