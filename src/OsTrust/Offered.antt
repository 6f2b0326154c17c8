-- ===== src/OsTrust/Offered.antt =====
-- What an OS release that is offered is known to be.
use epilykos_os.OsTrust.Listed.{Names, key_of-Names}
use epilykos_os.Base.{
  neither, is_so, ℕ, String, ◌≡◌, none, if◌then◌else◌, refl, ◌∙◌, ap, subst, ◌<◌, true, leb, some,
  Text, Result, ok, err, or_raise, then-ok, first-ok, bind-ok, or_raise-ok, arith,
}
use epilykos_os.Json.{Json, str, matches, int, field, number_of, text_of, listed, is_int, is_str}
use epilykos_os.OsTrust.Epochs.{same_value, integer-int}
use epilykos_os.OsTrust.{
  Fault, trust_error, value_error, os_error, Tools, entry_max, integer, text, strict_json, b64,
  ed25519_verify, require_signature, raw_public_pem, key_of, as_trust_error, or_malformed,
  listed_key, verify_with, require_signed_by, check_authorized, check_terms, check_host,
  check_entry, verify_entry, verify_os_release, admissible,
}
use epilykos_os.OsTrust.Canonical.{refused}

-- The key of the policy with the identifier that the entry names signed the entry's bytes.
abbrev pub IsSigned : Tools → Text → Text → Json → Json → Type 0
IsSigned w entry_bytes signature entry policy =
    (id : Text) × (key : Json) × (raw : Text) × (field "index_key_id" entry ≡ str id)
    × Names id (listed (field "index_keys" policy)) key
    × (w.b64decode (text_of key) ≡ some raw)
    × (w.accepts (raw_public_pem w raw) entry_bytes signature ≡ true)

as_trust_error-ok :
    {A : Type 0} (message : String) (r : Result Fault A) (a : A)
    → as_trust_error message r ≡ ok a
    → r ≡ ok a
as_trust_error-ok message (ok b) a h = h
as_trust_error-ok message (err (trust_error e)) a h = absurd (ground (arith, h))
as_trust_error-ok message (err (value_error e)) a h = absurd (ground (arith, h))
as_trust_error-ok message (err os_error) a h = absurd (ground (arith, h))

or_malformed-ok : {A : Type 0} (r : Result Fault A) (a : A) → or_malformed r ≡ ok a → r ≡ ok a
or_malformed-ok (ok b) a h = h
or_malformed-ok (err (trust_error e)) a h = absurd (ground (arith, h))
or_malformed-ok (err (value_error e)) a h = absurd (ground (arith, h))
or_malformed-ok (err os_error) a h = absurd (ground (arith, h))

same_number : (n : ℕ) (v : Json) → is_int n v ≡ true → number_of v ≡ n
same_number n (int m) h = ground (arith, h)
same_number n v h = absurd (ground (arith, h))

module _ (w : Tools) where
  b64-decoded :
      (v : Json) (size : ℕ) (raw : Text)
      → b64 w v size ≡ ok raw
      → w.b64decode (text_of v) ≡ some raw
  unfolding b64
  b64-decoded v size raw h = ground (arith, h)

  ed25519_verify-accepts :
      (pem bytes signature : Text)
      → ed25519_verify w pem bytes signature ≡ ok tt
      → w.accepts pem bytes signature ≡ true
  unfolding ed25519_verify require_signature
  ed25519_verify-accepts pem bytes signature h = ground (arith, h)

  check_authorized-IsSigned :
      (entry_bytes signature : Text) (entry policy : Json)
      → check_authorized w entry_bytes signature entry policy ≡ ok tt
      → IsSigned w entry_bytes signature entry policy
  unfolding check_authorized require_signed_by
  check_authorized-IsSigned entry_bytes signature entry policy h =
      let (key, m, rest) =
        bind-ok (or_raise _ (listed_key w entry policy)) (require_signed_by w entry_bytes signature)
          tt h in
      let found = or_raise-ok (listed_key w entry policy) _ key m in
      named (field "index_key_id" entry) refl key found rest
    where
      named :
          (v : Json)
          → field "index_key_id" entry ≡ v
          → (key : Json)
          → (if matches (λ _. true) v
              then key_of (text_of v) (listed (field "index_keys" policy))
              else none)
            ≡ some key
          → require_signed_by w entry_bytes signature key ≡ ok tt
          → IsSigned w entry_bytes signature entry policy
      named (str id) at key found r =
          let (raw, got, verified) =
            bind-ok (b64 w key 32) (verify_with w entry_bytes signature) tt
              (as_trust_error-ok _ _ tt r) in
          (
            id,
            key,
            raw,
            at,
            key_of-Names id _ key found,
            b64-decoded key 32 raw got,
            ed25519_verify-accepts (raw_public_pem w raw) entry_bytes signature verified,
          )
      named v at key found r = absurd (ground (arith, found))

  -- What `check_host` and what follows it have found of the entry that they return.
  abbrev Authorized : Text → Text → Json → Json → Type 0
  Authorized entry_bytes signature entry policy =
      IsSigned w entry_bytes signature entry policy
      × (number_of (field "trust_epoch" policy) ≡ number_of (field "trust_epoch" entry))

  check_terms-IsSigned :
      (entry_bytes signature : Text) (policy entry got : Json) (epoch : ℕ)
      → check_terms w entry_bytes signature policy entry epoch ≡ ok got
      → IsSigned w entry_bytes signature entry policy
        × (number_of (field "trust_epoch" policy) ≡ epoch)
        × (entry ≡ got)
  unfolding check_terms
  check_terms-IsSigned entry_bytes signature policy entry got epoch h =
      let a = then-ok _ _ _ h in
      let b = then-ok _ _ _ a.0 in
      let (t, c) = first-ok _ _ _ b.0 in
      let d = then-ok _ (text (field "version" entry) 64) _ c in
      (
        check_authorized-IsSigned entry_bytes signature entry policy b.1,
        same_number epoch (field "trust_epoch" policy) (is_so _ (refused _ _ d.0)),
        same_value _ _ _ refl a.1,
      )

  check_host-Authorized :
      (entry_bytes signature : Text) (platform policy entry got : Json) (api : ℕ)
      → check_host w entry_bytes signature platform policy entry api ≡ ok got
      → Authorized entry_bytes signature entry policy × (entry ≡ got)
  unfolding check_host
  check_host-Authorized entry_bytes signature platform policy entry got api h =
      let (epoch, m, rest) = bind-ok _ (check_terms w entry_bytes signature policy entry) got h in
      let a = then-ok _ (integer (field "trust_epoch" entry) 1) epoch m in
      let p = check_terms-IsSigned entry_bytes signature policy entry got epoch rest in
      ((p.0, p.1 ∙ integer-int _ 1 epoch a.1), p.2)

  check_entry-Authorized :
      (entry_bytes signature : Text) (platform policy entry got : Json)
      → check_entry w entry_bytes signature platform policy entry ≡ ok got
      → Authorized entry_bytes signature entry policy
        × (is_str (text_of (field "channel" policy)) (field "channel" entry) ≡ true)
        × (is_str (text_of (field "channel" platform)) (field "channel" entry) ≡ true)
        × (entry ≡ got)
  unfolding check_entry
  check_entry-Authorized entry_bytes signature platform policy entry got h =
      let (api, m, rest) =
        bind-ok _ (check_host w entry_bytes signature platform policy entry) got h in
      let a = then-ok _ (integer (field "min_host_api" entry) 1) api m in
      let (n, b) = first-ok _ _ _ a.0 in
      let c = then-ok _ (integer (field "sequence" entry) 1) n b in
      let d = then-ok _ _ _ c.0 in
      let e = then-ok _ _ _ d.0 in
      let p = check_host-Authorized entry_bytes signature platform policy entry got api rest in
      (
        p.0,
        is_so _
            (neither _ _
              (refused _ (trust_error "OS release does not match the trust policy") d.1)).1,
        is_so _
            (neither _ _
              (refused _ (trust_error "OS release is for another board or channel") e.1)).1,
        p.1,
      )

  admissible-newer :
      (entry platform got : Json) (floor : ℕ)
      → admissible entry platform floor ≡ ok got
      → (floor < number_of (field "sequence" entry))
        × (number_of (field "os_sequence" platform) < number_of (field "sequence" entry))
        × (entry ≡ got)
  unfolding admissible
  admissible-newer entry platform got floor h =
      let a = then-ok _ (ok entry) got h in
      let p =
        neither (leb (number_of (field "sequence" entry)) floor)
          (leb (number_of (field "sequence" entry)) (number_of (field "os_sequence" platform)))
          (refused _ _ a.0) in
      (ground (arith, p.0), ground (arith, p.1), same_value _ _ _ refl a.1)

  -- An OS release that is verified and then found admissible: its exact bytes are signed by the key
  -- that the verified policy lists, last of those with the identifier that it names, it is authorized
  -- under the policy's epoch and is for the channel of the policy and of this slot, and it is newer
  -- than the confirmed floor and than this slot's own system.
  pub admissible-IsSigned :
      (entry_bytes signature : Text) (platform policy entry got : Json) (floor : ℕ)
      → verify_os_release w entry_bytes signature platform policy ≡ ok entry
      → admissible entry platform floor ≡ ok got
      → IsSigned w entry_bytes signature entry policy
        × (number_of (field "trust_epoch" policy) ≡ number_of (field "trust_epoch" entry))
        × (is_str (text_of (field "channel" policy)) (field "channel" entry) ≡ true)
        × (is_str (text_of (field "channel" platform)) (field "channel" entry) ≡ true)
        × (floor < number_of (field "sequence" got))
        × (number_of (field "os_sequence" platform) < number_of (field "sequence" got))
  unfolding verify_os_release verify_entry
  admissible-IsSigned entry_bytes signature platform policy entry got floor h k =
      let (e, m, rest) =
        bind-ok (strict_json w entry_bytes entry_max)
          (check_entry w entry_bytes signature platform policy) entry (or_malformed-ok _ _ h) in
      let p = check_entry-Authorized entry_bytes signature platform policy e entry rest in
      let q = admissible-newer entry platform got floor k in
      (
        subst (λ v. IsSigned w entry_bytes signature v policy) p.3 p.0.0,
        p.0.1 ∙ ap (λ v. number_of (field "trust_epoch" v)) p.3,
        subst (λ v. is_str (text_of (field "channel" policy)) (field "channel" v) ≡ true) p.3 p.1,
        subst (λ v. is_str (text_of (field "channel" platform)) (field "channel" v) ≡ true) p.3 p.2,
        subst (λ v. floor < number_of (field "sequence" v)) q.2 q.0,
        subst (λ v. number_of (field "os_sequence" platform) < number_of (field "sequence" v)) q.2
            q.1,
      )
