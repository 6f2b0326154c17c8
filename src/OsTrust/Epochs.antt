-- ===== src/OsTrust/Epochs.antt =====
-- What an admission of a trust policy leaves: the epoch does not go back.
use epilykos_os.Base.{
  ℕ, ◌≡◌, refl, sym, ◌∙◌, ap, subst, ◌≤◌, true, some, Text, same_codes_iff, Result, ok, then-ok,
  bind-ok, arith,
}
use epilykos_os.Json.{Json, int, field, number_of}
use epilykos_os.OsTrust.{
  Fault, Tools, policy_max, strict_json, integer, require_signature, check_signed, check_epoch,
  authorize, check_policy, Current, verify_policy, Trust, Board,
}

-- What is known of a policy that was verified against a current one.
abbrev pub Follows : Text → Current → ℕ → Type 0
Follows raw current epoch =
    (current.trust_epoch ≤ epoch) × (epoch ≡ current.trust_epoch → raw ≡ current.raw)

-- The policy that was verified has the epoch.
abbrev pub Verifies : Tools → Text → Text → Text → Current → Json → Type 0
Verifies w raw signature root current policy =
    (w.accepts root raw signature ≡ true)
    × Follows raw current (number_of (field "trust_epoch" policy))

pub same_value : {A : Type 0} (a b : A) (r : Result Fault A) → r ≡ ok a → r ≡ ok b → a ≡ b
same_value a b r e f = ground (arith, e, f)

pub integer-int : (v : Json) (minimum n : ℕ) → integer v minimum ≡ ok n → n ≡ number_of v
unfolding integer
integer-int (int m) minimum n h = ground (arith, h)
integer-int v minimum n h = absurd (ground (arith, h))

module _ (w : Tools) where
  check_epoch-Follows :
      (current : Current) (epoch : ℕ) (raw : Text)
      → check_epoch w (some current) epoch raw ≡ ok tt
      → Follows raw current epoch
  unfolding check_epoch integer
  check_epoch-Follows current epoch raw h =
      (ground (arith, h), λ e. (same_codes_iff _ _).0 (ground (arith, h, e)))

  check_signed-accepts :
      (raw signature root : Text)
      → check_signed w raw signature root ≡ ok tt
      → w.accepts root raw signature ≡ true
  unfolding check_signed require_signature
  check_signed-accepts raw signature root h = ground (arith, h)

  authorize-Follows :
      (raw signature root : Text) (current : Current) (policy got : Json) (epoch : ℕ)
      → authorize w raw signature root (some current) policy epoch ≡ ok got
      → (w.accepts root raw signature ≡ true) × Follows raw current epoch × (got ≡ policy)
  unfolding authorize
  authorize-Follows raw signature root current policy got epoch h =
      let a = then-ok _ _ _ h in
      let b = then-ok _ _ _ a.0 in
      let c = then-ok _ _ _ b.0 in
      let f = check_epoch-Follows current epoch raw b.1 in
      (check_signed-accepts raw signature root c.0, f, sym (same_value _ _ _ refl a.1))

  check_policy-Verifies :
      (raw signature root board channel : Text) (current : Current) (policy got : Json)
      → check_policy w raw signature root board channel (some current) policy ≡ ok got
      → Verifies w raw signature root current got
  unfolding check_policy
  check_policy-Verifies raw signature root board channel current policy got h =
      let (n, m, rest) = bind-ok _ (authorize w raw signature root (some current) policy) got h in
      let a = then-ok _ (integer (field "trust_epoch" policy) 1) n m in
      let p = authorize-Follows raw signature root current policy got n rest in
      (
        p.0,
        subst (Follows raw current)
            (integer-int _ 1 n a.1 ∙ ap (λ g. number_of (field "trust_epoch" g)) (sym p.2)) p.1,
      )

  -- A policy that is verified against a current one is signed by the root, and either has a newer
  -- epoch or is the same bytes.
  pub verify_policy-Verifies :
      (raw signature root board channel : Text) (current : Current) (policy : Json)
      → verify_policy w raw signature root board channel (some current) ≡ ok policy
      → Verifies w raw signature root current policy
  unfolding verify_policy
  verify_policy-Verifies raw signature root board channel current policy h =
      let (v, m, rest) =
        bind-ok (strict_json w raw policy_max)
          (check_policy w raw signature root board channel (some current)) policy h in
      check_policy-Verifies raw signature root board channel current v policy rest

  module _ {E : Type 0} (board : Board E) (platform : Json) (state : Trust) (root : Text) where
    abbrev current : Current
    current = record { raw = state.raw; trust_epoch = state.trust_epoch }

    -- What is known of the trust state that an admission returns.
    abbrev pub Advances : Text → Text → Trust → Type 0
    Advances raw signature after =
        (after.raw ≡ raw)
        × (w.accepts root raw signature ≡ true)
        × Follows raw current after.trust_epoch
