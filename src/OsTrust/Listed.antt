-- ===== src/OsTrust/Listed.antt =====
-- `key_of`: the key that is listed under an identifier.
use epilykos_os.Base.{
  ◌≡◌, ◌≢◌, ◌↔◌, List, [], ◌∷◌, ◌++◌, Option, none, Bool, false, sym, if◌then◌else◌, same_codes_iff,
  refl, ◌∙◌, ap, subst, true, some, Text, arith,
}
use epilykos_os.Json.{Json, str, field, is_str}
use epilykos_os.OsTrust.{key_of}

-- None of the keys has the identifier.
abbrev NoneNamed : Text → List Json → Type 0
NoneNamed id [] = Unit {0}
NoneNamed id (k ∷ keys) = (field "key_id" k ≢ str id) × NoneNamed id keys

-- The last of the listed keys with the identifier has this public key.
abbrev pub Names : Text → List Json → Json → Type 0
Names id keys public_key =
    (before : List Json) × ((k : Json) × ((after : List Json) × (keys ≡ before ++ (k ∷ after))
        × (field "key_id" k ≡ str id)
        × (field "public_key" k ≡ public_key)
        × NoneNamed id after))

is_str_iff : (id : Text) (v : Json) → (is_str id v ≡ true) ↔ (v ≡ str id)
is_str_iff id v =
    (has v, λ e. subst (λ u. is_str id u ≡ true) (sym e) ((same_codes_iff id id).1 refl))
  where
    has : (v : Json) → is_str id v ≡ true → v ≡ str id
    has (str s) h = ap str ((same_codes_iff s id).0 h)
    has v h = absurd (ground (arith, h))

key_of-none : (id : Text) (keys : List Json) → key_of id keys ≡ none → NoneNamed id keys
unfolding key_of
key_of-none id [] h = tt
key_of-none id (k ∷ keys) h =
    by_rest (key_of id keys) refl (is_str id (field "key_id" k)) refl (key_of-none id keys) h
  where
    by_rest :
        (o : Option Json)
        → key_of id keys ≡ o
        → (b : Bool) → is_str id (field "key_id" k) ≡ b
        → (key_of id keys ≡ none → NoneNamed id keys)
        → elim o [ some j ↦ some j | none ↦ if b then some (field "public_key" k) else none ] ≡ none
        → NoneNamed id (k ∷ keys)
    by_rest (some j) at b is later h = cc
    by_rest none at true is later h = cc
    by_rest none at false is later h =
        (λ e. absurd (ground (arith, is, (is_str_iff id (field "key_id" k)).1 e)), later at)

pub key_of-Names :
    (id : Text) (keys : List Json) (key : Json) → key_of id keys ≡ some key → Names id keys key
unfolding key_of
key_of-Names id [] key h = cc
key_of-Names id (k ∷ keys) key h =
    by_rest (key_of id keys) refl (is_str id (field "key_id" k)) refl (key_of-Names id keys key) h
  where
    by_rest :
        (o : Option Json)
        → key_of id keys ≡ o
        → (b : Bool) → is_str id (field "key_id" k) ≡ b
        → (key_of id keys ≡ some key → Names id keys key)
        → elim o [ some j ↦ some j | none ↦ if b then some (field "public_key" k) else none ]
          ≡ some key
        → Names id (k ∷ keys) key
    by_rest (some j) at b is later h =
        let (before, (l, (after, split, named, has, last))) = later (at ∙ h) in
        (k ∷ before, (l, (after, ap (◌∷◌ k) split, named, has, last)))
    by_rest none at true is later h = (
      [],
      (
        k,
        (
          keys,
          refl,
          (is_str_iff id (field "key_id" k)).0 is,
          ground (arith, h),
          key_of-none id keys at,
        ),
      ),
    )
    by_rest none at false is later h = cc
