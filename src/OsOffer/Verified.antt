-- ===== src/OsOffer/Verified.antt =====
-- The policy under which a published release is checked.
use epilykos_os.Base.{
  ◌≡◌, subst, ◌<◌, true, false, ltb, some, Text, Result, ok, err, ◌>>=◌, bind-ok, arith,
}
use epilykos_os.Json.{Json, field, text_of, number_of}
use epilykos_os.OsTrust.{Fault, Tools, Current, verify_policy, verify_os_release, Trust}
use epilykos_os.OsTrust.Epochs.{Verifies, verify_policy-Verifies}
use epilykos_os.OsOffer.{
  Published, Offer, or_unverified, or_untrusted, published_policy, with_policy, verify_release,
}

module _ (w : Tools) (files : Published) (plat : Json) (state : Trust) (root : Text) where
  abbrev current : Current
  current = record { raw = state.raw; trust_epoch = state.trust_epoch }

  or_unverified-ok : {A : Type 0} (r : Result Fault A) (a : A) → or_unverified r ≡ ok a → r ≡ ok a
  or_unverified-ok (ok b) a h = ground (arith, h)
  or_unverified-ok (err e) a h = absurd (ground (arith, h))

  verified_under :
      (policy : Json) (r : Result Fault Json) (offer : Offer)
      → (or_untrusted r >>= λ e. ok (record {
        entry = e;
        policy = policy;
        is_newer = ltb state.trust_epoch (number_of (field "trust_epoch" policy));
      }))
        ≡ ok offer
      → (r ≡ ok offer.entry)
        × (policy ≡ offer.policy)
        × (offer.is_newer ≡ ltb state.trust_epoch (number_of (field "trust_epoch" offer.policy)))
  verified_under policy (ok e) offer h = ground (arith, h)
  verified_under policy (err e) offer h = absurd (ground (arith, h))

  -- A published release that is accepted: its entry is verified under a policy that the root has
  -- signed, and that policy is exactly the current one, byte for byte, unless it is reported as newer,
  -- which it is only with a newer epoch.
  pub verify_release-Verifies :
      (offer : Offer)
      → verify_release w files plat state (some root) ≡ ok offer
      → (verify_os_release w files.entry files.entry_sig plat offer.policy ≡ ok offer.entry)
        × (w.accepts root files.policy files.policy_sig ≡ true)
        × (offer.is_newer ≡ false → files.policy ≡ state.raw)
        × (offer.is_newer ≡ true → state.trust_epoch < number_of (field "trust_epoch" offer.policy))
  unfolding verify_release
  verify_release-Verifies offer h =
      let (policy, m, rest) =
        bind-ok (published_policy w files plat state (some root)) (with_policy w files plat state)
          offer h in
      let v =
        verify_policy-Verifies w files.policy files.policy_sig root (text_of (field "board" plat))
          (text_of (field "channel" plat)) current policy
          (or_unverified-ok
            (verify_policy w files.policy files.policy_sig root (text_of (field "board" plat))
              (text_of (field "channel" plat)) (some current))
            policy m) in
      let p =
        verified_under policy (verify_os_release w files.entry files.entry_sig plat policy) offer
          rest in
      let f = subst (λ q. Verifies w files.policy files.policy_sig root current q) p.1 v in
      (
        subst (λ q. verify_os_release w files.entry files.entry_sig plat q ≡ ok offer.entry) p.1
            p.0,
        v.0,
        λ e. f.1.1 (ground (arith, f.1.0, p.2, e)),
        λ e. ground (arith, p.2, e),
      )
