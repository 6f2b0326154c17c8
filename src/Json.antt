-- ===== src/Json.antt =====
-- What Python's json module makes of a document, and the questions that the programs ask of it.
-- A number without a fraction is `int`, or `negative` below zero; any other keeps its `repr`. An
-- object has its pairs as they stand in the document, doubles included; in a dictionary the last
-- pair of a name holds.
use epilykos_os.Base.{
  ℕ, String, Bool, true, false, not, ◌&&◌, ◌||◌, ◌==◌, leb, if◌then◌else◌, Option, none, some, List,
  [], ◌∷◌, Text, codes, same_codes, length, all_chars, is_digit,
}

mutual
  pub data Json : Type 0 where
    null : Json
    boolean : Bool → Json
    int : ℕ → Json
    negative : ℕ → Json
    real : Text → Json
    str : Text → Json
    array : Elements → Json
    object : Members → Json

  pub data Elements : Type 0 where
    empty : Elements
    element : Json → Elements → Elements

  pub data Members : Type 0 where
    end : Members
    member : Text → Json → Members → Members

abbrev pub elements : Elements → List Json
elements empty = []
elements (element v vs) = v ∷ elements vs

abbrev pub members : Members → List (Text × Json)
members end = []
members (member k v ms) = (k, v) ∷ members ms

abbrev pub has_key : Text → List (Text × Json) → Bool
has_key k [] = false
has_key k ((j, v) ∷ ms) = same_codes j k || has_key k ms

-- No object in the document names a member twice.
unfoldable mutual
  pub is_unique : Json → Bool
  is_unique (array vs) = all_unique vs
  is_unique (object ms) = members_unique ms
  is_unique _ = true

  pub all_unique : Elements → Bool
  all_unique empty = true
  all_unique (element v vs) = is_unique v && all_unique vs

  pub members_unique : Members → Bool
  members_unique end = true
  members_unique (member k v ms) =
      not (has_key k (members ms)) && (is_unique v && members_unique ms)

abbrev pub or_else : Option Json → Json → Json
or_else none v = v
or_else (some v) w = v

-- The member of a dictionary: the last of its pairs.
unfoldable pub find : Text → List (Text × Json) → Option Json
find k [] = none
find k ((j, v) ∷ ms) =
    let rest = find k ms in if same_codes j k then some (or_else rest v) else rest

-- `value.get(name)` on a dictionary: null where the name is missing.
unfoldable pub field : String → Json → Json
unfolding find
field name (object ms) = or_else (find (codes name) (members ms)) null
field name _ = null

abbrev pub in_names : Text → List String → Bool
in_names k [] = false
in_names k (n ∷ ns) = same_codes k (codes n) || in_names k ns

abbrev pub all_named : List (Text × Json) → List String → Bool
all_named [] ns = true
all_named ((k, v) ∷ ms) ns = in_names k ns && all_named ms ns

abbrev pub all_there : List String → List (Text × Json) → Bool
all_there [] ms = true
all_there (n ∷ ns) ms = has_key (codes n) ms && all_there ns ms

-- `type(value) is dict and set(value) == names`
abbrev pub has_fields : List String → Json → Bool
has_fields names (object ms) = all_named (members ms) names && all_there names (members ms)
has_fields names _ = false

abbrev pub is_object : Json → Bool
is_object (object ms) = true
is_object _ = false

abbrev pub is_array : Json → Bool
is_array (array vs) = true
is_array _ = false

-- The elements of a list, none of anything else.
abbrev pub listed : Json → List Json
listed (array vs) = elements vs
listed _ = []

-- `type(value) is int and value == n`
abbrev pub is_int : ℕ → Json → Bool
is_int n (int m) = m == n
is_int n _ = false

-- `value == 'text'`
abbrev pub is_str : Text → Json → Bool
is_str t (str s) = same_codes s t
is_str t _ = false

-- `value is True`, and with false.
abbrev pub is_boolean : Bool → Json → Bool
is_boolean true (boolean b) = b
is_boolean false (boolean b) = not b
is_boolean _ _ = false

-- `isinstance(value, str)`, and its pattern.
abbrev pub matches : (Text → Bool) → Json → Bool
matches p (str s) = p s
matches p _ = false

-- The text of a string, the number of a number; else empty.
abbrev pub text_of : Json → Text
text_of (str s) = s
text_of _ = []

abbrev pub number_of : Json → ℕ
number_of (int n) = n
number_of _ = 0

-- [0-9a-f]{n}, the whole text.
abbrev pub is_hex_digit : ℕ → Bool
is_hex_digit c = is_digit c || (leb b'a' c && leb c b'f')

abbrev pub is_hex_of : ℕ → Text → Bool
is_hex_of n s = (length s == n) && all_chars is_hex_digit s
