-- ===== src/OsWorker/Fetching.antt =====
-- epilykos_os_update.py: the part of `work` before RAUC, which authorizes the job again, advances the
-- trust, fetches the bundle and checks it; and what the worker finds outside.
use epilykos_os.Base.{
  ℕ, zero, suc, Bool, false, not, ◌==◌, ◌&&◌, if◌then◌else◌, Option, none, some, List, ◌∷◌, Text,
  Result, ok, err, length,
}
use epilykos_os.Json.{Json}
use epilykos_os.OsBox.{
  done, Env, JobState, downloading, verifying, Message, says, space, Documents, Job, Image, Error,
  os_update_error, trust_error, storage_error, os_error, Action, ◌>>=◌, ◌>>◌, pure, raise, raise_if,
  spend, Host, Platform, TrustState, Entry, same_number, layout, save, required,
}
use epilykos_os.OsUpdate.{settled}
use epilykos_os.OsActivate.{is_stale, current_state, verify_os_release}
use epilykos_os.OsJobs.Install.{Shop, verify_offer}
use epilykos_os.OsRauc.{Bus, Writer, restart_rauc}
use epilykos_os.OsTrust.{Fault, Tools}
use epilykos_os.OsTrust.Bundle.{Bundle}
use epilykos_os.OsBundle.{
  SlotImage, BundleError, distrusted, no_number, no_fit, keyring_failed, verify_bundle,
}
use epilykos_os.OsDownload.{
  Failure, network, too_large, kept_failing, stopped, os_failure, answered_code, no_headroom,
  Staged, Server,
}
use epilykos_os.OsDownload.Attempts.{download}

-- One download: the server and the staged files as `OsDownload.download` takes them, the number of
-- times that progress is saved, and what openssl finds in the bytes.
pub record Delivery : Type 0 where
  pub server : Server
  pub staged : Staged
  pub move_fails : Bool
  pub sync_fails : Bool
  pub saves : ℕ
  pub tools : Tools
  pub read_bundle : List ℕ → Bundle
  pub keyring_unwritten : Bool
  pub keyring_unremoved : Bool
  pub number_of : Text → ℕ

-- What the worker finds outside beside a Host, a Bus and a Shop, by the number of the call: the lease
-- of `maintenance.acquire` (a message where it raises MaintenanceError), the newer trust policy, the
-- delivery, the documents that an entry and a policy are read from, RAUC's output, what it does to the
-- environment, and what `job['rauc']` holds.
pub record Crew : Type 0 where
  pub attempts : ℕ
  pub cancel_readable : ℕ → Bool
  pub lease : ℕ → Result Error (Option Message)
  pub is_newer : Documents → TrustState → Bool
  pub admit_policy : ℕ → Documents → Platform → TrustState → Result Error TrustState
  pub delivery : ℕ → Delivery
  pub entry_json : Entry → Json
  pub policy_json : ℕ → Json
  pub rauc : ℕ → Option (List Bool)
  pub exit_code : ℕ → ℕ
  pub last_line : ℕ → Option Message
  pub rauc_writes : ℕ → Env → Env
  pub recorded : ℕ → Writer
  pub started : ℕ

-- `job['state'] = phase; job['progress'] = {'phase': phase, ...}`
abbrev pub at_phase : JobState → Job → Job
at_phase phase job = record job {
  state = phase;
  progress = record { phase = phase; activated = false };
}

-- The sentence of `work` for a ValueError.
abbrev pub value_failed : Error
value_failed = os_update_error (says "The OS update failed (ValueError)")

-- The exceptions of `download`; `network` never leaves it, and the code is left out of its sentence.
abbrev pub download_error : Failure → Error
download_error network = os_error
download_error os_failure = os_error
download_error too_large = os_update_error (says "The download is larger than the signed size")
download_error kept_failing =
    os_update_error (says "The download kept failing; check the network and try again")
download_error stopped = os_error
download_error (answered_code n) = os_update_error (says "The OS update server answered")
download_error (no_headroom e) = storage_error (space e)

-- `Cancelled` is none.
abbrev pub downloaded : Result Failure (List ℕ) → Action (Option (List ℕ))
downloaded (ok bytes) = pure (some bytes)
downloaded (err stopped) = pure none
downloaded (err e) = raise (download_error e)

abbrev pub bundle_error : BundleError → Error
bundle_error (distrusted (Fault.trust_error s)) = trust_error (says s)
bundle_error (distrusted (Fault.value_error s)) = value_failed
bundle_error (distrusted Fault.os_error) = os_error
bundle_error no_number = value_failed
bundle_error no_fit = os_update_error (says "The OS update image does not fit a system slot")
bundle_error keyring_failed = os_error

-- `image` of `work`.
abbrev pub image_record : (Text → ℕ) → SlotImage → Image
image_record number_of i = record { size = some i.size; sha256 = some (number_of i.sha256) }

abbrev pub verified : (Text → ℕ) → Result BundleError SlotImage → Action Image
verified number_of (ok i) = pure (image_record number_of i)
verified number_of (err e) = raise (bundle_error e)

-- `download` and `verify_bundle` of a delivery.
abbrev pub bytes_of : ℕ → ℕ → Delivery → Result Failure (List ℕ)
bytes_of attempts size d =
    (download d.server
      (record {
        layout_fails = false;
        save_fails = false;
        move_fails = d.move_fails;
        sync_fails = d.sync_fails;
      })
      attempts size d.staged).0

abbrev pub image_in : Delivery → Json → Json → List ℕ → Result BundleError SlotImage
image_in d entry policy bytes =
    verify_bundle d.tools d.keyring_unwritten d.keyring_unremoved (d.read_bundle bytes) entry policy

-- `final.exists() and final.stat().st_size == size`
abbrev pub is_whole : ℕ → Option (List ℕ) → Bool
is_whole size none = false
is_whole size (some bytes) = length bytes == size

-- `(entry['sequence'], entry['bundle']['sha256']) == (job['sequence'], job['sha256'])`
abbrev pub is_for_job : Job → Entry → Bool
is_for_job job entry =
    entry.sequence == job.sequence && same_number (some entry.bundle_sha256) job.sha256

module _ (h : Host) where
  -- `step`
  unfoldable pub save_phase : JobState → Job → Action (Unit {0})
  save_phase phase job = save h (at_phase phase job)

  -- The saves of the progress.
  unfoldable pub save_progress : ℕ → Job → Action (Unit {0})
  unfolding save_phase
  save_progress zero job = pure tt
  save_progress (suc n) job = save_phase downloading job >> save_progress n job

  module _ (bus : Bus) (shop : Shop) (crew : Crew) where
    -- A newer policy advances the trust, and RAUC reads its keyring again.
    unfoldable pub advance : Documents → Platform → TrustState → Action TrustState
    advance files plat state =
        if crew.is_newer files state
        then (do
          next ← spend λ b. settled (crew.admit_policy b.power files plat state) b
          restart_rauc bus
          pure next)
        else pure state

    -- It hands on the entry and `state['policy']`.
    unfoldable pub authorize_job : Job → Option Platform → Action (Entry × ℕ)
    unfolding advance
    authorize_job job found = do
      plat ← required found
      state ← current_state h plat
      files ← required job.documents
      verify_offer h shop files plat state
      state ← advance files plat state
      entry ← verify_os_release h files plat state
      raise_if (is_stale entry plat state.floor)
          (trust_error (says "OS release is not newer than this box's system"))
      raise_if (not (is_for_job job entry))
          (os_update_error (says "The OS update record does not match its authorization"))
      pure (entry, state.policy)

    -- The saves of a download, with the part file after the first.
    unfoldable pub transfer_saves : Job → ℕ → Action (Unit {0})
    unfolding save_progress
    transfer_saves job saves = do
      save_phase downloading job
      spend λ b. (done tt, record b { staging = job.id ∷ b.staging })
      save_progress saves job

    -- `download`: the saves of its progress, then its result.
    unfoldable pub fetch_bundle : Job → ℕ → Delivery → Action (Option (List ℕ))
    unfolding transfer_saves
    fetch_bundle job size d = do
      layout h
      if is_whole size d.staged.final then pure tt else transfer_saves job d.saves
      spend λ b. downloaded (bytes_of crew.attempts size d) b

    unfoldable pub check_image :
        Job → Delivery → Entry × ℕ → Option (List ℕ) → Action (Option Image)
    unfolding save_phase
    check_image job d authorized none = pure none
    check_image job d (entry, policy) (some bytes) = do
      save_phase verifying job
      image ← spend λ b.
          verified d.number_of (image_in d (crew.entry_json entry) (crew.policy_json policy) bytes)
            b
      pure (some image)

    -- `work` up to the image; none where the job was cancelled.
    unfoldable pub fetch_image : Job → Option Platform → Action (Option Image)
    unfolding authorize_job fetch_bundle check_image
    fetch_image job found = do
      authorized ← authorize_job job found
      d ← spend λ b. pure (crew.delivery b.power) b
      bytes ← fetch_bundle job authorized.0.bundle_size d
      check_image job d authorized bytes
