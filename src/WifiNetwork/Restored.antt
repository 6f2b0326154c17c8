-- ===== src/WifiNetwork/Restored.antt =====
-- `restore_network` undoes `write_iwd_network`.
use epilykos_os.Base.{
  ◌≢◌, ◌==◌, starts_with, ℕ, ◌≡◌, refl, sym, ap, ◌∙◌, subst, ◌⊎◌, inl, inr, Bool, true, false, not,
  if◌then◌else◌, Option, none, some, List, [], ◌∷◌, ◌++◌, length, length-append, Text, same_codes,
  same_codes_iff, get, is_empty, Result, ok, bind-ok, Bool-cases, arith, codes,
}
use epilykos_os.WifiNetwork.Provisioned.{validate-IsUsable}
use epilykos_os.WifiNetwork.{
  Network, WifiError, Files, stem, iwd_file_name, iwd_file_content, unlink, write_file, write_valid,
  validate, write_iwd_network, remove_iwd_network, found_file, read_text, saved_network, write_all,
  restore_network,
}

-- A file under its name, where there is one.
abbrev found : Text → Option Text → Files
found name none = []
found name (some text) = (name, text) ∷ []

same-names : (m n k : Text) → same_codes m n ≡ true → same_codes m k ≡ true → same_codes n k ≡ true
same-names m n k e g =
    (same_codes_iff n k).1 (sym ((same_codes_iff m n).0 e) ∙ (same_codes_iff m k).0 g)

-- What a lookup finds after a file was removed, or written.
get-unlink-same : (n : Text) (d : Files) → get n (unlink n d) ≡ none
unfolding unlink
get-unlink-same n [] = refl
get-unlink-same n ((m, text) ∷ d) = by_name (same_codes m n) refl (get-unlink-same n d)
  where
    by_name :
        (b : Bool)
        → same_codes m n ≡ b
        → get n (unlink n d) ≡ none
        → get n (if b then unlink n d else (m, text) ∷ unlink n d) ≡ none
    by_name true e rest = rest
    by_name false e rest = rw e rest

get-unlink-other : (k n : Text) (d : Files) → same_codes n k ≡ false → get k (unlink n d) ≡ get k d
unfolding unlink
get-unlink-other k n [] h = refl
get-unlink-other k n ((m, text) ∷ d) h =
    by_name (same_codes m n) (same_codes m k) refl refl (get-unlink-other k n d h)
  where
    by_name :
        (b c : Bool)
        → same_codes m n ≡ b
        → same_codes m k ≡ c
        → get k (unlink n d) ≡ get k d
        → get k (if b then unlink n d else (m, text) ∷ unlink n d)
          ≡ (if c then some text else get k d)
    by_name true true e g rest = absurd (ground (arith, h, same-names m n k e g))
    by_name true false e g rest = rest
    by_name false true e g rest = rw g refl
    by_name false false e g rest = rw g rest

get-write_file :
    (k n text : Text) (d : Files)
    → get k (write_file n text d) ≡ (if same_codes n k then some text else get k d)
unfolding write_file
get-write_file k n text d = by_name (same_codes n k) refl
  where
    by_name :
        (b : Bool)
        → same_codes n k ≡ b
        → (if b then some text else get k (unlink n d)) ≡ (if b then some text else get k d)
    by_name true e = refl
    by_name false e = get-unlink-other k n d e

-- The two names of a network differ.
names_differ :
    (ssid : List ℕ) → same_codes (iwd_file_name ssid false) (iwd_file_name ssid true) ≡ false
unfolding iwd_file_name
names_differ ssid =
    elim (Bool-cases (same_codes (iwd_file_name ssid false) (iwd_file_name ssid true))) [
      | inl e ↦ absurd (
          by_length
            (ap length ((same_codes_iff (iwd_file_name ssid false) (iwd_file_name ssid true)).0 e)))
      | inr e ↦ e
    ]
  where
    by_length : length (iwd_file_name ssid false) ≡ length (iwd_file_name ssid true) → ⊥
    by_length h = omega (
      arith,
      h,
      length-append (stem ssid) (codes ".psk"),
      length-append (stem ssid) (codes ".open"),
    )

get-unlink :
    (k n : Text) (d : Files) → get k (unlink n d) ≡ (if same_codes n k then none else get k d)
get-unlink k n d = by_name (Bool-cases (same_codes n k))
  where
    by_name :
        (same_codes n k ≡ true) ⊎ (same_codes n k ≡ false)
        → get k (unlink n d) ≡ (if same_codes n k then none else get k d)
    by_name (inl e) =
        rw e
          (subst (λ m. get m (unlink n d) ≡ none) ((same_codes_iff n k).0 e) (get-unlink-same n d))
    by_name (inr e) = rw e (get-unlink-other k n d e)

-- Two files of different names, and a lookup of any name.
module _ (psk open_name n : Text) where
  get-remove :
      (d : Files)
      → get n (unlink open_name (unlink psk d))
        ≡ (if same_codes open_name n then none else (if same_codes psk n then none else get n d))
  get-remove d = rw (get-unlink n open_name (unlink psk d)) rw (get-unlink n psk d) refl

  get-put_back :
      (p o : Option Text) (d : Files)
      → get n (write_all (found psk p ++ found open_name o) (unlink open_name (unlink psk d))) ≡ (
          if same_codes open_name n
          then (if same_codes psk n then elim o [ none ↦ p | some u ↦ some u ] else o)
          else (if same_codes psk n then p else get n d))
  unfolding write_all
  get-put_back none none d = ground (arith, get-remove d)
  get-put_back (some t) none d =
      ground (arith, get-write_file n psk t (unlink open_name (unlink psk d)), get-remove d)
  get-put_back none (some u) d =
      ground (arith, get-write_file n open_name u (unlink open_name (unlink psk d)), get-remove d)
  get-put_back (some t) (some u) d = ground (
    arith,
    get-write_file n open_name u (write_file psk t (unlink open_name (unlink psk d))),
    get-write_file n psk t (unlink open_name (unlink psk d)),
    get-remove d,
  )

  -- With what was there before, under the same names.
  get-put_back-get :
      same_codes psk open_name ≡ false
      → (d d' : Files)
      → (same_codes open_name n ≡ false → same_codes psk n ≡ false → get n d' ≡ get n d)
      → get n (
          write_all
            (found psk (get psk d) ++ found open_name (get open_name d))
            (unlink open_name (unlink psk d')))
        ≡ get n d
  get-put_back-get apart d d' kept =
      get-put_back (get psk d) (get open_name d) d'
      ∙ by_name (same_codes open_name n) (same_codes psk n) refl refl
    where
      at : (m : Text) → same_codes m n ≡ true → get m d ≡ get n d
      at m e = ap (λ k. get k d) ((same_codes_iff m n).0 e)

      by_name :
          (a b : Bool)
          → same_codes open_name n ≡ a
          → same_codes psk n ≡ b
          → (if a
              then (if b
                  then elim (get open_name d) [ none ↦ get psk d | some u ↦ some u ]
                  else get open_name d)
              else (if b then get psk d else get n d'))
            ≡ get n d
      by_name true true e g = absurd (
          ground (
            arith,
            apart,
            (same_codes_iff psk open_name).1
                ((same_codes_iff psk n).0 g ∙ sym ((same_codes_iff open_name n).0 e)),
          ))
      by_name true false e g = at open_name e
      by_name false true e g = at psk g
      by_name false false e g = kept e g

-- A network that is written touches only its own two names.
write_valid-others :
    (net : Network) (d : Files) (n : Text)
    → same_codes (iwd_file_name net.ssid true) n ≡ false
    → same_codes (iwd_file_name net.ssid false) n ≡ false
    → get n (write_valid net d) ≡ get n d
unfolding write_valid
write_valid-others net d n open_other psk_other = by_kind (is_empty net.passphrase)
  where
    by_kind :
        (b : Bool)
        → get n (
            write_file
              (iwd_file_name net.ssid b)
              (iwd_file_content net)
              (unlink (iwd_file_name net.ssid (not b)) d))
          ≡ get n d
    by_kind true =
        get-write_file n (iwd_file_name net.ssid true) _ _
        ∙ rw open_other (get-unlink-other n (iwd_file_name net.ssid false) d psk_other)
    by_kind false =
        get-write_file n (iwd_file_name net.ssid false) _ _
        ∙ rw psk_other (get-unlink-other n (iwd_file_name net.ssid true) d open_other)

-- What was written is the valid network.
written-eq :
    (net : Network) (d d' : Files) → write_iwd_network net d ≡ ok d' → d' ≡ write_valid net d
unfolding write_iwd_network
written-eq net d d' h =
    let v = bind-ok (validate net) (λ valid. ok (write_valid valid d)) d' h in
    same_files v.0 v.2 ∙ ap (λ n. write_valid n d) (validate-IsUsable net v.0 v.1).0
  where
    same_files :
        (n : Network)
        → ◌≡◌ {A = Result WifiError Files} (ok (write_valid n d)) (ok d')
        → d' ≡ write_valid n d
    same_files n e = ground (arith, e)

-- A text without carriage returns.
abbrev pub HasNoReturn : Text → Type 0
HasNoReturn [] = Unit {0}
HasNoReturn (c ∷ s) = (c ≢ 13) × HasNoReturn s

read_text-same : (s : Text) → HasNoReturn s → read_text s ≡ s
read_text-same [] h = refl
read_text-same (c ∷ s) h = other (c == 13) refl (read_text-same s h.1)
  where
    other :
        (b : Bool)
        → (c == 13) ≡ b
        → read_text s ≡ s
        → (if b
            then (if starts_with 10 s then read_text s else 10 ∷ read_text s)
            else c ∷ read_text s)
          ≡ c ∷ s
    other true e rest = absurd (h.0 (ground (arith, e)))
    other false e rest = ap (◌∷◌ c) rest

found_file-found :
    (name : Text) (o : Option Text)
    → ((text : Text) → o ≡ some text → HasNoReturn text)
    → found_file name o ≡ found name o
found_file-found name none h = refl
found_file-found name (some text) h = ap (λ t. (name, t) ∷ []) (read_text-same text (h text refl))

-- Whatever was saved of an SSID in a directory whose files of that SSID have no carriage return, and
-- whatever network of it was then written: after the restoration every file of the directory is found
-- as it was before, those of other networks too.
pub restore_network-saved :
    (net : Network) (d d' : Files) (n : Text)
    → ((is_open : Bool) (text : Text)
        → get (iwd_file_name net.ssid is_open) d ≡ some text
        → HasNoReturn text)
    → write_iwd_network net d ≡ ok d'
    → get n (restore_network net.ssid (saved_network net.ssid d) d') ≡ get n d
unfolding restore_network saved_network remove_iwd_network
restore_network-saved net d d' n plain h =
    rw
      (found_file-found (iwd_file_name net.ssid false) (get (iwd_file_name net.ssid false) d)
        (plain false))
      rw
      (found_file-found (iwd_file_name net.ssid true) (get (iwd_file_name net.ssid true) d)
        (plain true))
      (get-put_back-get (iwd_file_name net.ssid false) (iwd_file_name net.ssid true) n
        (names_differ net.ssid) d d'
        λ e g. ap (get n) (written-eq net d d' h) ∙ write_valid-others net d n e g)
