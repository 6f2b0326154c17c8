-- ===== src/OsJobs/Install.antt =====
-- epilykos_os_update.py: `install`, the admission of a job.
use epilykos_os.Base.{
  ℕ, ◌+◌, Bool, true, false, not, ◌==◌, ◌&&◌, if◌then◌else◌, Option, none, some, List, [], ◌∷◌,
  ◌++◌, String, Result,
}
use epilykos_os.OsBox.{
  Slot, same_slot, other, Env, queued, is_terminal, Message, says, Documents, Job, Error,
  os_update_error, trust_error, os_error, done, Action, ◌>>=◌, ◌>>◌, pure, raise, raise_if, gets,
  try_except, spend, Host, Platform, TrustState, Entry, same_number, journal, booted_slot, remove,
  save, read_env, start_worker,
}
use epilykos_os.OsUpdate.{starts_by, guard_state, is_idle, platform, settled}
use epilykos_os.OsActivate.{
  oci_allowance, is_stale, current_state, verify_os_release, raise_first, admit_space, app_blockers,
}
use epilykos_os.OsJobs.{View, old_card, view}

-- An order of Settings, whose members match their patterns.
pub record Order : Type 0 where
  pub sequence : ℕ
  pub sha256 : ℕ
  pub request_id : ℕ

-- What `install` reads and calls beside the Host: the checked documents on DATA, the state that
-- health.json gives with its slot, the check of the published policy, and a fresh identifier.
pub record Shop : Type 0 where
  pub checked : ℕ → Option Documents
  pub health : ℕ → Option (Bool × Slot)
  pub verify_policy : Documents → Platform → TrustState → Result Error ℕ
  pub new_id : ℕ → ℕ

abbrev pub is_for : Order → Option Job → Bool
is_for order none = false
is_for order (some j) = same_number j.request_id (some order.request_id)

-- `(job['sequence'], job['sha256']) != (sequence, sha256)`, negated.
abbrev pub is_same_package : Order → Option Job → Bool
is_same_package order none = false
is_same_package order (some j) =
    j.sequence == order.sequence && same_number j.sha256 (some order.sha256)

-- `job and job['state'] not in TERMINAL`
abbrev pub is_unfinished : Option Job → Bool
is_unfinished none = false
is_unfinished (some j) = not (is_terminal j.state)

abbrev pub sentence_if : Bool → String → List Message
sentence_if true sentence = says sentence ∷ []
sentence_if false sentence = []

abbrev pub is_confirmed_on : Slot → Option (Bool × Slot) → Bool
is_confirmed_on slot none = false
is_confirmed_on slot (some (confirmed, s)) = confirmed && same_slot s slot

-- `health_blockers`
abbrev pub slot_blockers : Slot → Option (Bool × Slot) → Env → List Message
slot_blockers slot health env =
    sentence_if (not (is_confirmed_on slot health))
      "The running system has not been confirmed healthy since it started"
    ++ sentence_if (not (same_number env.pending none)) "An earlier OS update has not finished"
    ++ sentence_if (not (starts_by (some slot) env.boot_order))
        "The running system is not the one the box starts by default"

abbrev pub is_ordered : Order → Entry → Bool
is_ordered order entry = entry.sequence == order.sequence && entry.bundle_sha256 == order.sha256

-- The `job` of `install`.
abbrev pub new_job : ℕ → Order → Entry → Slot → Documents → Job
new_job id order entry slot files = record {
  id = id;
  request_id = some order.request_id;
  state = queued;
  sequence = order.sequence;
  sha256 = some order.sha256;
  size = some entry.bundle_size;
  source = some slot;
  target = some (other slot);
  documents = some files;
  image = none;
  progress = record { phase = queued; activated = false };
  error = none;
  reconstructed = false;
}

-- `except (OSError, ValueError) as exc` around `verify_policy`; a TrustError is a ValueError, and
-- any other one counts as a TrustError here.
abbrev pub or_policy_error : {A : Type 0} → Error → Action A
or_policy_error (trust_error m) =
    raise (os_update_error (says "The published trust policy does not verify"))
or_policy_error os_error =
    raise (os_update_error (says "The published trust policy does not verify"))
or_policy_error e = raise e

abbrev pub checked_files : Option Documents → Action Documents
checked_files none = raise (os_update_error (says "Check for OS updates again, then install"))
checked_files (some files) = pure files

module _ (h : Host) where
  -- The end of `install`: the job is in the journal before the worker is started.
  unfoldable pub begin_job : Job → Action View
  begin_job job = do
    remove h λ b. record b { cancel = none }
    save h job
    start_worker h
    view h false

  module _ (shop : Shop) where
    unfoldable pub read_checked : Action Documents
    read_checked = spend λ b. checked_files (shop.checked b.power) b

    -- `verify_release`, as `install` calls it.
    unfoldable pub verify_offer : Documents → Platform → TrustState → Action Entry
    verify_offer files plat state = do
      policy ← try_except (settled (shop.verify_policy files plat state)) or_policy_error
      verify_os_release h files plat (record state { policy = policy })

    unfoldable pub all_blockers : Slot → Action (List Message)
    all_blockers slot = do
      env ← read_env h
      health ← spend λ b. (done (shop.health b.power), b)
      app ← app_blockers h
      pure (slot_blockers slot health env ++ app)

    -- The checks of an order that is new.
    unfoldable pub admit_order : Order → Platform → Action Job
    unfolding read_checked verify_offer all_blockers
    admit_order order plat = do
      files ← read_checked
      state ← current_state h plat
      entry ← verify_offer files plat state
      raise_if (not (is_ordered order entry))
          (os_update_error (says "The verified OS update changed; check again"))
      raise_if (is_stale entry plat state.floor)
          (trust_error (says "OS release is not newer than this box's system"))
      slot ← booted_slot
      blockers ← all_blockers slot
      raise_first blockers
      admit_space h (entry.bundle_size + oci_allowance)
      gets λ b. new_job (shop.new_id b.power) order entry slot files

    unfoldable pub install_new : Order → Platform → Option Job → Action View
    unfolding admit_order begin_job
    install_new order plat found = do
      raise_if (is_unfinished found) (os_update_error (says "An OS update is already in progress"))
      g ← gets λ b. guard_state b.guard
      raise_if (not (is_idle g))
          (os_update_error (says "An OS update needs checking before another can start"))
      job ← admit_order order plat
      begin_job job

    unfoldable pub install_found : Order → Platform → Option Job → Action View
    unfolding install_new
    install_found order plat found =
        if is_for order found
        then (do
          raise_if (not (is_same_package order found))
              (os_update_error (says "That request was for a different OS update"))
          view h true)
        else install_new order plat found

    unfoldable pub install_on : Order → Option Platform → Action View
    unfolding install_found
    install_on order none = raise (os_update_error old_card)
    install_on order (some plat) = do found ← journal; install_found order plat found

    -- `install`; `none` is an order of which a member does not match its pattern.
    unfoldable pub install : Option Order → Action View
    unfolding install_on
    install none = raise (os_update_error (says "Check for OS updates again, then install"))
    install (some order) = do plat ← platform h; install_on order plat
