-- ===== src/OsTrust/State.antt =====
-- The trust state in the redundant environment, a newer policy, and RAUC's keyring.
use epilykos_os.Base.{
  ℕ, String, Bool, true, false, not, ◌||◌, ◌==◌, if◌then◌else◌, Option, none, some, List, [], ◌∷◌,
  ◌++◌, Text, codes, same_codes, same_codes?, take, get, is_digits, to_int, decimal, parse_env,
  Result, ok, err, refuse, or_raise, ◌>>◌, ◌>>=◌,
}
use epilykos_os.Json.{Json, field, listed, text_of, number_of}
use epilykos_os.OsTrust.Scalars.{Fault, trust_error, value_error, os_error, Tools, strict_json}
use epilykos_os.OsTrust.Policy.{texts, verify_policy, validate_platform}

unfoldable pub keyring_pem : Json → Text
keyring_pem policy = joined (texts (listed (field "rauc_cas" policy)))
  where
    joined : List Text → Text
    joined [] = []
    joined (t ∷ ts) = t ++ joined ts

-- What `current_state` returns.
pub record Trust : Type 0 where
  pub policy : Json
  pub raw : Text
  pub signature : Text
  pub trust_epoch : ℕ
  pub floor : ℕ

-- An `except` that names KeyError, OSError and ValueError, for all that is raised here.
abbrev pub or_trust_error {ℓ} : {A : Type ℓ} → String → Result Fault A → Result Fault A
or_trust_error message (ok a) = ok a
or_trust_error message (err e) = err (trust_error message)

-- What fw_printenv prints, if it ends well.
unfoldable pub read_env : Option Text → Result Fault (List (Text × Text))
unfolding parse_env
read_env none = err (trust_error "system state is unreadable; OS updates are off")
read_env (some printed) = ok (parse_env printed)

-- `env[name]`
abbrev pub variable : String → List (Text × Text) → Result Fault Text
variable name env = or_raise (value_error "KeyError") (get (codes name) env)

module _ (w : Tools) where
  abbrev pub decoded : Text → Result Fault Text
  decoded value = or_raise (value_error "invalid base64") (w.b64decode value)

  unfoldable pub verified_state : Json → List (Text × Text) → Option Text → Result Fault Trust
  verified_state platform env root_pem = or_raise os_error root_pem >>= λ root.
      variable "epk_trust_policy" env >>= decoded >>= λ raw.
      variable "epk_trust_policy_sig" env >>= decoded >>= λ signature.
      variable "epk_trust_epoch" env >>= λ epoch. variable "epk_os_floor" env >>= λ floor.
      refuse
        (not (same_codes? (get (codes "epk_state_schema") env) (codes "1"))
          || not (is_digits epoch)
          || not (is_digits floor))
        (value_error "state schema")
      >> verify_policy w raw signature root (text_of (field "board" platform))
          (text_of (field "channel" platform)) none
      >>= λ policy.
          refuse (not (same_codes (decimal (number_of (field "trust_epoch" policy))) epoch))
            (value_error "scalar epoch differs from the signed policy")
          >> ok (record {
            policy = policy;
            raw = raw;
            signature = signature;
            trust_epoch = number_of (field "trust_epoch" policy);
            floor = to_int floor;
          })

  -- With the root's PEM as it was read, if it could be.
  unfoldable pub current_state : Json → List (Text × Text) → Option Text → Result Fault Trust
  current_state platform env root_pem =
      or_trust_error "system trust state is missing or invalid; OS updates are off"
        (verified_state platform env root_pem)

-- The redundant environment: what fw_printenv prints of it, and what a script of fw_setenv makes of
-- it and whether that ends well.
pub record Board (E : Type 0) : Type 0 where
  pub print : E → Option Text
  pub set_env : List (Text × Text) → E → Bool × E

module _ (w : Tools) where
  -- The batch for the guarded fw_setenv.
  abbrev pub policy_script : Text → Text → ℕ → List (Text × Text)
  policy_script raw signature epoch =
      (codes "epk_trust_policy", w.b64encode raw)
      ∷ (codes "epk_trust_policy_sig", w.b64encode signature)
      ∷ (codes "epk_trust_epoch", decimal epoch)
      ∷ []

  abbrev pub require_same : Text → ℕ → Trust → Result Fault Trust
  require_same raw epoch after =
      refuse (not (same_codes after.raw raw) || not (after.trust_epoch == epoch))
        (trust_error "the saved trust policy did not read back")
      >> ok after

  -- What is read back must be the policy that was sent.
  unfoldable pub read_back : Json → Text → Text → ℕ → Option Text → Result Fault Trust
  read_back platform root raw epoch printed =
      (read_env printed >>= λ env. current_state w platform env (some root))
      >>= require_same raw epoch

  -- The policy is accepted: it is saved and read back.
  abbrev pub save_policy :
      {E : Type 0}
      → Board E
      → Text
      → Text
      → Json
      → Text
      → Result Fault Json
      → E
      → Result Fault Trust × E
  save_policy board raw signature platform root (err e) env = (err e, env)
  save_policy board raw signature platform root (ok policy) env =
      let epoch : ℕ = number_of (field "trust_epoch" policy) in
      let (saved, env') = board.set_env (policy_script raw signature epoch) env in
      (
        refuse (not saved) (trust_error "could not save the new trust policy")
            >> read_back platform root raw epoch (board.print env'),
        env',
      )

  unfoldable pub admit_policy :
      {E : Type 0} → Board E → Text → Text → Json → Trust → Text → E → Result Fault Trust × E
  admit_policy board raw signature platform state root env =
      save_policy board raw signature platform root
        (or_trust_error "the new trust policy is not acceptable" (
          verify_policy w raw signature root (text_of (field "board" platform))
            (text_of (field "channel" platform))
            (some (record { raw = state.raw; trust_epoch = state.trust_epoch }))))
        env

  unfoldable pub load_platform : Option Text → Result Fault Json
  load_platform file =
      or_raise os_error file >>= λ bytes. strict_json w (take 4097 bytes) 4096 >>= validate_platform

  abbrev pub keyring_state : Option Text → Option Text → Option Text → Result Fault Trust
  keyring_state platform printed root_pem =
      load_platform platform >>= λ p. read_env printed >>= λ env. current_state w p env root_pem

  -- The exit status and the keyring that is left. The keyring is replaced whole, if it is written;
  -- its removal may raise.
  abbrev pub end_keyring :
      Bool → Bool → Option Text → Result Fault Trust → Result Fault ℕ × Option Text
  end_keyring writes unlinks keyring (ok state) =
      if writes then (ok 0, some (keyring_pem state.policy)) else unlink_keyring unlinks keyring
    where
      unlink_keyring : Bool → Option Text → Result Fault ℕ × Option Text
      unlink_keyring true keyring = (ok 1, none)
      unlink_keyring false keyring = (err os_error, keyring)
  end_keyring writes unlinks keyring (err e) =
      if unlinks then (ok 1, none) else (err os_error, keyring)

  unfoldable pub keyring_main :
      Option Text
      → Option Text
      → Option Text
      → Bool
      → Bool
      → Option Text
      → Result Fault ℕ × Option Text
  keyring_main platform printed root_pem writes unlinks keyring =
      end_keyring writes unlinks keyring (keyring_state platform printed root_pem)
