-- ===== src/OsOffer.antt =====
-- epilykos_os_update.py: whether the running system and app let an OS update be offered, and the
-- check of the release that the server publishes.
pub mod Verified
mod Examples
use epilykos_os.Base.{
  ℕ, ◌+◌, ◌*◌, String, Bool, true, false, not, ◌&&◌, ◌||◌, ◌==◌, leb, ltb, if◌then◌else◌, Option,
  none, some, List, [], ◌∷◌, ◌++◌, Text, codes, same_codes, is_empty, get, split_words, Result, ok,
  err, ◌>>=◌,
}
use epilykos_os.Json.{Json, field, is_object, is_str, text_of, number_of}
use epilykos_os.AppCompat.{CompatibilityError, inspection, os_update_guard}
use epilykos_os.OsTrust.{Fault, Tools, Current, verify_policy, verify_os_release, Trust}

abbrev pub when : Bool → String → List String
when true sentence = sentence ∷ []
when false sentence = []

-- `(env.get('BOOT_ORDER') or '').split()[:1] == [slot]`
abbrev pub is_first : Text → List Text → Bool
is_first slot [] = false
is_first slot (word ∷ words) = same_codes word slot

abbrev pub text_in : String → List (Text × Text) → Text
text_in name env = elim (get (codes name) env) [ none ↦ [] | some v ↦ v ]

-- health.json, or an empty object; what is no object has no `get`, which raises.
unfoldable pub health_of : Option Json → Option (Option Json)
health_of none = some none
health_of (some v) = if is_object v then some (some v) else none

abbrev pub is_confirmed_slot : Text → Option Json → Bool
is_confirmed_slot slot none = false
is_confirmed_slot slot (some health) =
    is_str (codes "confirmed") (field "state" health) && is_str slot (field "slot" health)

unfoldable pub health_blockers : Option Json → List (Text × Text) → Text → List String
unfolding split_words
health_blockers health env slot =
    when (not (is_confirmed_slot slot health))
      "The running system has not been confirmed healthy since it started"
    ++ when (not (is_empty (text_in "epk_os_pending" env))) "An earlier OS update has not finished"
    ++ when (not (is_first slot (split_words (text_in "BOOT_ORDER" env))))
        "The running system is not the one the box starts by default"

-- What an app's check ends with; the sentences are those of the errors.
pub data AppBlocker : Type 0 where
  not_running no_reply : AppBlocker
  incompatible : CompatibilityError → AppBlocker

abbrev pub blockers_of : {A : Type 0} → Result CompatibilityError A → List AppBlocker
blockers_of (ok a) = []
blockers_of (err e) = incompatible e ∷ []

-- By what podman answers: nothing, or its exit status and output.
unfoldable pub app_blockers : (Text → Option Json) → Option (ℕ × Text) → List AppBlocker
app_blockers loads none = no_reply ∷ []
app_blockers loads (some (code, out)) =
    if code == 0 then blockers_of (inspection loads out >>= os_update_guard) else not_running ∷ []

-- OCI_ALLOWANCE and `required_bytes`.
abbrev pub oci_allowance : ℕ
oci_allowance = 1536 * (1024 * 1024)

abbrev pub required_bytes : Json → ℕ
required_bytes entry = number_of (field "size" (field "bundle" entry)) + oci_allowance

-- The four files of a release.
pub record Published : Type 0 where
  pub entry : Text
  pub entry_sig : Text
  pub policy : Text
  pub policy_sig : Text

-- What `verify_release` returns.
pub record Offer : Type 0 where
  pub entry : Json
  pub policy : Json
  pub is_newer : Bool

-- OsUpdateError, or what the trust module raises.
pub data OfferError : Type 0 where
  policy_unverified : OfferError
  untrusted : Fault → OfferError

abbrev pub or_unverified : {A : Type 0} → Result Fault A → Result OfferError A
or_unverified (ok a) = ok a
or_unverified (err e) = err policy_unverified

abbrev pub or_untrusted : {A : Type 0} → Result Fault A → Result OfferError A
or_untrusted (ok a) = ok a
or_untrusted (err e) = err (untrusted e)

module _ (w : Tools) where
  abbrev pub published_policy : Published → Json → Trust → Option Text → Result OfferError Json
  published_policy files plat state none = err policy_unverified
  published_policy files plat state (some root) = or_unverified (
      verify_policy w files.policy files.policy_sig root (text_of (field "board" plat))
        (text_of (field "channel" plat))
        (some (record { raw = state.raw; trust_epoch = state.trust_epoch })))

  abbrev pub with_policy : Published → Json → Trust → Json → Result OfferError Offer
  with_policy files plat state policy =
      or_untrusted (verify_os_release w files.entry files.entry_sig plat policy) >>= λ entry.
      ok (record {
        entry = entry;
        policy = policy;
        is_newer = ltb state.trust_epoch (number_of (field "trust_epoch" policy));
      })

  -- With the root's PEM, if it could be read.
  unfoldable pub verify_release : Published → Json → Trust → Option Text → Result OfferError Offer
  verify_release files plat state root_pem =
      published_policy files plat state root_pem >>= with_policy files plat state
