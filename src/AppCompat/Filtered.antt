-- ===== src/AppCompat/Filtered.antt =====
-- What the filters over the environment and the mounts of a container leave out.
use epilykos_os.Base.{
  ℕ, ◌≢◌, ◌++◌, ◌∙◌, ◌&&◌, if◌then◌else◌, subst, sym, Option, none, some, after_prefix, both,
  String, ◌≡◌, refl, ap, Bool, true, false, List, [], ◌∷◌, Text, codes, same_codes_iff, arith,
}
use epilykos_os.Json.{Json, str, object, text_of, is_object, boolean, field, is_str, is_boolean}
use epilykos_os.AppCompat.{names, is_only, starting, mounted_at, is_bind, has_any}

-- None of the values is a string with the prefix.
abbrev NoneStarts : Text → List Json → Type 0
NoneStarts prefix [] = Unit {0}
NoneStarts prefix (v ∷ vs) = ((rest : Text) → v ≢ str (prefix ++ rest)) × NoneStarts prefix vs

-- The string is in the list, and no other value of it has the prefix.
abbrev pub SetsOnce : Text → Text → List Json → Type 0
SetsOnce prefix t vs =
    (before : List Json) × ((after : List Json) × (vs ≡ before ++ (str t ∷ after))
      × NoneStarts prefix before
      × NoneStarts prefix after)

-- No mount has the destination.
abbrev pub NoneAt : String → List Json → Type 0
NoneAt destination [] = Unit {0}
NoneAt destination (m ∷ ms) =
    (field "Destination" m ≢ str (codes destination)) × NoneAt destination ms

-- One mount has the destination, and it is a bind mount of the source, writable or not.
abbrev pub BindsAt : String → String → Bool → List Json → Type 0
BindsAt destination source writable mounts =
    (before : List Json) × ((m : Json) × ((after : List Json) × (mounts ≡ before ++ (m ∷ after))
        × NoneAt destination before
        × NoneAt destination after
        × (field "Destination" m ≡ str (codes destination))
        × (field "Type" m ≡ str (codes "bind"))
        × (field "Source" m ≡ str (codes source))
        × (field "RW" m ≡ boolean writable)))

-- The only mount of a list is a bind mount of the source, writable or not.
abbrev Binds : String → Bool → List Json → Type 0
Binds source writable mounts =
    (m : Json) × (mounts ≡ m ∷ [])
    × (field "Type" m ≡ str (codes "bind"))
    × (field "Source" m ≡ str (codes source))
    × (field "RW" m ≡ boolean writable)

pub is_str-str : (t : Text) (v : Json) → is_str t v ≡ true → v ≡ str t
is_str-str t (str s) h = ap str ((same_codes_iff s t).0 h)
is_str-str t _ h = absurd (ground (arith, h))

pub is_boolean-boolean : (b : Bool) (v : Json) → is_boolean b v ≡ true → v ≡ boolean b
is_boolean-boolean true (boolean c) h = ground (arith, h)
is_boolean-boolean false (boolean c) h = ground (arith, h)
is_boolean-boolean true _ h = absurd (ground (arith, h))
is_boolean-boolean false _ h = absurd (ground (arith, h))

pub is_only-one : (t : Text) (ts : List Text) → is_only t ts ≡ true → ts ≡ t ∷ []
is_only-one t (s ∷ []) h = ap (λ u. u ∷ []) ((same_codes_iff s t).0 h)
is_only-one t [] h = absurd (ground (arith, h))
is_only-one t (s ∷ u ∷ ts) h = absurd (ground (arith, h))

pub has_any-none : (vs : List Json) → has_any vs ≡ false → vs ≡ []
has_any-none [] h = refl
has_any-none (v ∷ vs) h = absurd (ground (arith, h))

pub is_bind-Binds :
    (source : String) (w : Bool) (vs : List Json) → is_bind source w vs ≡ true → Binds source w vs
is_bind-Binds source w (m ∷ []) h =
    let p = both _ _ h in
    let q = both _ _ p.1 in
    (m, refl, is_str-str _ _ p.0, is_str-str _ _ q.0, is_boolean-boolean _ _ q.1)
is_bind-Binds source w [] h = absurd (ground (arith, h))
is_bind-Binds source w (m ∷ n ∷ vs) h = absurd (ground (arith, h))

after_prefix-none : (p t rest : Text) → after_prefix p t ≡ none → t ≢ p ++ rest
after_prefix-none [] t rest h e = absurd (ground (arith, h))
after_prefix-none (c ∷ p) [] rest h e = cc
after_prefix-none (c ∷ p) (d ∷ t) rest h e =
    after_prefix-none p t rest (ground (arith, h, e)) (ground (arith, e))

-- What is missing from the filtered list is not in the list.
starting-none : (p : Text) (vs : List Json) → starting p vs ≡ [] → NoneStarts p vs
unfolding starting
starting-none p [] h = tt
starting-none p (v ∷ vs) h = by_prefix (after_prefix p (text_of v)) refl (starting-none p vs) h
  where
    by_prefix :
        (o : Option Text)
        → after_prefix p (text_of v) ≡ o
        → (starting p vs ≡ [] → NoneStarts p vs)
        → elim o [ none ↦ starting p vs | some _ ↦ text_of v ∷ starting p vs ] ≡ []
        → NoneStarts p (v ∷ vs)
    by_prefix none at rest h = (λ r e. after_prefix-none p (text_of v) r at (ap text_of e), rest h)
    by_prefix (some t) at rest h = cc

text_of-str : (v : Json) (c : ℕ) (t : Text) → text_of v ≡ c ∷ t → v ≡ str (c ∷ t)
text_of-str (str s) c t h = ap str h
text_of-str v c t h = absurd (ground (arith, h))

pub starting-SetsOnce :
    (p : Text) (c : ℕ) (t : Text) (vs : List Json)
    → starting p vs ≡ (c ∷ t) ∷ []
    → SetsOnce p (c ∷ t) vs
unfolding starting
starting-SetsOnce p c t [] h = cc
starting-SetsOnce p c t (v ∷ vs) h =
    by_prefix (after_prefix p (text_of v)) refl (starting-SetsOnce p c t vs) h
  where
    by_prefix :
        (o : Option Text)
        → after_prefix p (text_of v) ≡ o
        → (starting p vs ≡ (c ∷ t) ∷ [] → SetsOnce p (c ∷ t) vs)
        → elim o [ none ↦ starting p vs | some _ ↦ text_of v ∷ starting p vs ] ≡ (c ∷ t) ∷ []
        → SetsOnce p (c ∷ t) (v ∷ vs)
    by_prefix none at rest h =
        let (before, (after, split, first, last)) = rest h in
        (
          v ∷ before,
          (
            after,
            ap (◌∷◌ v) split,
            (λ r e. after_prefix-none p (text_of v) r at (ap text_of e), first),
            last,
          ),
        )
    by_prefix (some r) at rest h =
        let is : text_of v ≡ c ∷ t = head_eq _ _ _ _ h in
        (
          [],
          (vs, ap (λ u. u ∷ vs) (text_of-str v c t is), tt, starting-none p vs (tail_eq _ _ _ _ h)),
        )
      where
        head_eq : (a b : Text) (s t : List Text) → (a ∷ s) ≡ (b ∷ t) → a ≡ b
        head_eq a b s t e = ground (arith, e)

        tail_eq : (a b : Text) (s t : List Text) → (a ∷ s) ≡ (b ∷ t) → s ≡ t
        tail_eq a b s t e = ground (arith, e)

-- A value with a destination is an object.
names_destination :
    (d : String) (m : Json)
    → (is_object m && names "Destination" m d) ≡ false
    → field "Destination" m ≢ str (codes d)
unfolding field
names_destination d (object ms) h e = absurd (
    ground (
      arith,
      h,
      subst (λ v. is_str (codes d) v ≡ true) (sym e) ((same_codes_iff (codes d) (codes d)).1 refl),
    ))
names_destination d m h e = absurd (ground (arith, e))

pub mounted_at-none : (d : String) (ms : List Json) → mounted_at d ms ≡ [] → NoneAt d ms
unfolding mounted_at
mounted_at-none d [] h = tt
mounted_at-none d (m ∷ ms) h =
    by_name (is_object m && names "Destination" m d) refl (mounted_at-none d ms) h
  where
    by_name :
        (b : Bool)
        → (is_object m && names "Destination" m d) ≡ b
        → (mounted_at d ms ≡ [] → NoneAt d ms)
        → (if b then m ∷ mounted_at d ms else mounted_at d ms) ≡ []
        → NoneAt d (m ∷ ms)
    by_name true at rest h = cc
    by_name false at rest h = (names_destination d m at, rest h)

pub mounted_at-BindsAt :
    (d source : String) (w : Bool) (ms : List Json)
    → Binds source w (mounted_at d ms)
    → BindsAt d source w ms
unfolding mounted_at
mounted_at-BindsAt d source w [] (m, nil, kind, from, writes) = cc
mounted_at-BindsAt d source w (m ∷ ms) (n, one, kind, from, writes) =
    by_name (is_object m && names "Destination" m d) refl
      (λ e. mounted_at-BindsAt d source w ms (n, e, kind, from, writes)) one
  where
    by_name :
        (b : Bool)
        → (is_object m && names "Destination" m d) ≡ b
        → (mounted_at d ms ≡ n ∷ [] → BindsAt d source w ms)
        → (if b then m ∷ mounted_at d ms else mounted_at d ms) ≡ n ∷ []
        → BindsAt d source w (m ∷ ms)
    by_name true at rest h =
        let same : m ≡ n = ground (arith, h) in
        let end : mounted_at d ms ≡ [] = ground (arith, h) in
        (
          [],
          (
            m,
            (
              ms,
              refl,
              tt,
              mounted_at-none d ms end,
              is_str-str _ _ (both (is_object m) _ at).1,
              ap (field "Type") same ∙ kind,
              ap (field "Source") same ∙ from,
              ap (field "RW") same ∙ writes,
            ),
          ),
        )
    by_name false at rest h =
        let (before, (k, (after, split, first, last, to, kind_is, from_is, rw_is))) = rest h in
        (
          m ∷ before,
          (
            k,
            (
              after,
              ap (◌∷◌ m) split,
              (names_destination d m at, first),
              last,
              to,
              kind_is,
              from_is,
              rw_is,
            ),
          ),
        )
