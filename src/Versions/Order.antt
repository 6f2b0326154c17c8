-- ===== src/Versions/Order.antt =====
-- Tags are read back as their numbers, and a new version is above every tag.
use epilykos_os.Base.{
  both, all_digits, ℕ, ◌+◌, ◌≡◌, refl, sym, ◌∙◌, ap, subst, ◌⊎◌, inl, inr, Bool, true, false, ◌&&◌,
  ◌==◌, if◌then◌else◌, Option, none, some, List, [], ◌∷◌, ◌++◌, Text, is_digit, is_digits,
  all_chars, to_int, decimal, to_int-decimal, is_digits-decimal, partition, arith,
}
use epilykos_os.Versions.{
  without_newline, numbers_of, parse, is_newer, newer_of, latest_version, version_text, tag_text,
  Repo, unchanged, next_version, decide_after, decide_main,
}

partition_digits :
    (s t : Text) → all_chars is_digit s ≡ true → partition b'.' (s ++ b'.' ∷ t) ≡ (s, some t)
unfolding partition
partition_digits [] t h = refl
partition_digits (c ∷ s) t h =
    let p = both (is_digit c) (all_chars is_digit s) h in
    no_dot (c == b'.') (partition b'.' (s ++ b'.' ∷ t)) (ground (arith, p.0))
      (partition_digits s t p.1)
  where
    no_dot :
        (b : Bool) (r : Text × Option Text)
        → b ≡ false
        → r ≡ (s, some t)
        → ◌≡◌ {A = Text × Option Text}
            (if b then ([], some (s ++ b'.' ∷ t)) else (c ∷ r.0, r.1))
            (c ∷ s, some t)
    no_dot true r e h = absurd (ground (arith, e))
    no_dot false r e h = ap (λ (q : Text × Option Text). (c ∷ q.0, q.1)) h

without_newline_digits : (s : Text) → all_chars is_digit s ≡ true → without_newline s ≡ s
without_newline_digits [] h = refl
without_newline_digits (c ∷ []) h = ground (arith, h)
without_newline_digits (c ∷ d ∷ s) h =
    ap (λ t. c ∷ t) (without_newline_digits (d ∷ s) (both _ _ h).1)

-- The tag that is printed for two numbers is read back as these.
pub parse-tag_text : (major minor : ℕ) → parse (tag_text major minor) ≡ some (major, minor)
unfolding parse version_text
parse-tag_text major minor =
    subst (λ r. numbers_of r ≡ some (major, minor))
      (sym (
        partition_digits (decimal major) (decimal minor)
          (all_digits (decimal major) (is_digits-decimal major))))
      (read_back (is_digits-decimal major) (
        without_newline_digits (decimal minor)
          (all_digits (decimal minor) (is_digits-decimal minor))))
  where
    by_tests :
        (a b : Bool) (v : ℕ × ℕ)
        → a ≡ true
        → b ≡ true
        → v ≡ (major, minor)
        → (if a && b then some v else none) ≡ some (major, minor)
    by_tests a b v e f g = ground (arith, e, f, g)

    read_back :
        is_digits (decimal major) ≡ true
        → without_newline (decimal minor) ≡ decimal minor
        → numbers_of (decimal major, some (decimal minor)) ≡ some (major, minor)
    read_back d e = by_tests _ _ _ d (ap is_digits e ∙ is_digits-decimal minor) (
        ap (λ n. (n, to_int (without_newline (decimal minor)))) (to_int-decimal major)
        ∙ ap (λ n. (major, n)) (ap to_int e ∙ to_int-decimal minor))

-- The tags of a repository.
abbrev pub Among : Text → List Text → Type 0
Among t [] = ⊥
Among t (u ∷ us) = (t ≡ u) ⊎ Among t us

keeps_newest :
    (v : ℕ × ℕ) (tag : Text) (o : Option (ℕ × ℕ)) (best : Text × (ℕ × ℕ))
    → is_newer v best.1 ≡ false
    → (b : Text × (ℕ × ℕ)) × (newer_of tag o (some best) ≡ some b) × (is_newer v b.1 ≡ false)
keeps_newest v tag none best h = (best, refl, h)
keeps_newest v tag (some w) best h = by_order (is_newer best.1 w) refl
  where
    by_order :
        (b : Bool)
        → is_newer best.1 w ≡ b
        → (c : Text × (ℕ × ℕ)) × ((if b then some best else some (tag, w)) ≡ some c)
          × (is_newer v c.1 ≡ false)
    by_order true e = (best, refl, h)
    by_order false e = ((tag, w), refl, ground (arith, h, e))

takes_newest :
    (v : ℕ × ℕ) (tag : Text) (o : Option (Text × (ℕ × ℕ)))
    → (b : Text × (ℕ × ℕ)) × (newer_of tag (some v) o ≡ some b) × (is_newer v b.1 ≡ false)
takes_newest v tag none = ((tag, v), refl, ground arith)
takes_newest v tag (some best) = by_order (is_newer best.1 v) refl
  where
    by_order :
        (b : Bool)
        → is_newer best.1 v ≡ b
        → (c : Text × (ℕ × ℕ)) × ((if b then some best else some (tag, v)) ≡ some c)
          × (is_newer v c.1 ≡ false)
    by_order true e = (best, refl, ground (arith, e))
    by_order false e = ((tag, v), refl, ground arith)

latest_newest :
    (tags : List Text) (t : Text) (v : ℕ × ℕ)
    → Among t tags
    → parse t ≡ some v
    → (b : Text × (ℕ × ℕ)) × (latest_version tags ≡ some b) × (is_newer v b.1 ≡ false)
unfolding latest_version
latest_newest [] t v m p = absurd m
latest_newest (u ∷ us) t v (inl e) p =
    subst
      (λ o.
        (b : Text × (ℕ × ℕ)) × (newer_of u o (latest_version us) ≡ some b)
        × (is_newer v b.1 ≡ false))
      (sym p ∙ ap parse e) (takes_newest v u (latest_version us))
latest_newest (u ∷ us) t v (inr m) p =
    let (b, e, n) = latest_newest us t v m p in
    subst (λ o. (c : Text × (ℕ × ℕ)) × (newer_of u (parse u) o ≡ some c) × (is_newer v c.1 ≡ false))
      (sym e) (keeps_newest v u (parse u) b n)

next_newer :
    (repo : Repo) (best : Text × (ℕ × ℕ)) (v : ℕ × ℕ) (same : Bool)
    → is_newer v best.1 ≡ false
    → (if same then unchanged best.0 else next_version best).is_new ≡ true
    → (tag : Text) × (w : ℕ × ℕ) × ((if same then unchanged best.0 else next_version best).tag
        ≡ some tag)
      × (parse tag ≡ some w)
      × (is_newer w v ≡ true)
next_newer repo best v true n h = absurd (ground (arith, h))
next_newer repo (tag, (major, minor)) v false n h = (
  tag_text major (minor + 1),
  (major, minor + 1),
  refl,
  parse-tag_text major (minor + 1),
  ground (arith, n),
)

-- A build of main that is a new version gets a tag that is read back as a version above that of every
-- tag of the repository that is one.
pub decide_main-newest :
    (repo : Repo) (t : Text) (v : ℕ × ℕ)
    → Among t repo.tags
    → parse t ≡ some v
    → (decide_main repo).is_new ≡ true
    → (tag : Text) × (w : ℕ × ℕ) × ((decide_main repo).tag ≡ some tag)
      × (parse tag ≡ some w)
      × (is_newer w v ≡ true)
unfolding decide_main
decide_main-newest repo t v m p new =
    let (best, e, n) = latest_newest repo.tags t v m p in
    after (latest_version repo.tags) best e n new
  where
    after :
        (o : Option (Text × (ℕ × ℕ))) (best : Text × (ℕ × ℕ))
        → o ≡ some best
        → is_newer v best.1 ≡ false
        → (decide_after repo o).is_new ≡ true
        → (tag : Text) × (w : ℕ × ℕ) × ((decide_after repo o).tag ≡ some tag)
          × (parse tag ≡ some w)
          × (is_newer w v ≡ true)
    after none best e n h = absurd (ground (arith, e))
    after (some b) best e n h = next_newer repo b v _ (ground (arith, e, n)) h
