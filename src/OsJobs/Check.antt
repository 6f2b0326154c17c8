-- ===== src/OsJobs/Check.antt =====
-- epilykos_os_update.py: `check`, which fetches the release of the card's channel, says whether it may
-- be installed, and keeps its documents for `install`.
use epilykos_os.Base.{
  ℕ, ◌+◌, ltb, if◌then◌else◌, Bool, true, false, Option, none, some, List, [], ◌∷◌, ◌++◌, Result,
  ok, err,
}
use epilykos_os.Storage.{Space, StorageError, admit}
use epilykos_os.OsBox.{
  Message, says, space, Documents, done, os_update_error, Action, ◌>>=◌, ◌>>◌, pure, raise, spend,
  Host, Platform, TrustState, Entry, booted_slot, read_env, layout, write_atomic,
}
use epilykos_os.OsUpdate.{platform}
use epilykos_os.OsActivate.{oci_allowance, is_stale, current_state, app_blockers}
use epilykos_os.OsTrust.{entry_max, policy_max}
use epilykos_os.OsJobs.{View, view}
use epilykos_os.OsJobs.Install.{Shop, slot_blockers, verify_offer}

-- What the server gives for a name, by the number of the call: the size of the answer, and the
-- document that its bytes are; and whether a policy is newer than the trust state's.
pub record Feed : Type 0 where
  pub index : ℕ → Option (ℕ × ℕ)
  pub index_sig : ℕ → Option (ℕ × ℕ)
  pub policy : ℕ → Option (ℕ × ℕ)
  pub policy_sig : ℕ → Option (ℕ × ℕ)
  pub is_newer : Documents → TrustState → Bool

-- What Settings is told: the view alone, with a release that is not newer, or with one that is.
pub data CheckResult : Type 0 where
  status : View → CheckResult
  unavailable : View → Entry → CheckResult
  available : View → Entry → List Message → Option Space → Bool → CheckResult

abbrev pub unless_large : Bool → ℕ → Action ℕ
unless_large true document = raise (os_update_error (says "The OS update information is too large"))
unless_large false document = pure document

abbrev pub fetched_document : ℕ → Option (ℕ × ℕ) → Action ℕ
fetched_document maximum none =
    raise (os_update_error (says "Could not reach the OS update server"))
fetched_document maximum (some (size, document)) = unless_large (ltb maximum size) document

-- `storage.admit` in its `try` statement, with the blockers so far.
abbrev pub with_space : List Message → Result StorageError Space → List Message × Option Space
with_space blockers (ok s) = (blockers, some s)
with_space blockers (err e) = (blockers ++ (space e ∷ []), none)

-- `_fetch`
unfoldable pub fetch_document : ℕ → (ℕ → Option (ℕ × ℕ)) → Action ℕ
fetch_document maximum reply = spend λ b. fetched_document maximum (reply b.power) b

module _ (h : Host) (shop : Shop) (feed : Feed) where
  unfoldable pub fetch_release : Action Documents
  unfolding fetch_document
  fetch_release = do
    entry ← fetch_document entry_max feed.index
    entry_sig ← fetch_document 64 feed.index_sig
    policy ← fetch_document policy_max feed.policy
    policy_sig ← fetch_document 64 feed.policy_sig
    pure (record { entry = entry; entry_sig = entry_sig; policy = policy; policy_sig = policy_sig })

  -- `health_blockers(slot, env) + app_blockers()`
  unfoldable pub found_blockers : Action (List Message)
  found_blockers = do
    env ← read_env h
    slot ← booted_slot
    health ← spend λ b. (done (shop.health b.power), b)
    app ← app_blockers h
    pure (slot_blockers slot health env ++ app)

  -- The release may be installed; its documents are kept for `install`, which reads them from a Shop.
  unfoldable pub offer_release : Documents → TrustState → Entry → View → Action CheckResult
  unfolding found_blockers
  offer_release files state entry result = do
    blockers ← found_blockers
    room ← spend λ b. (
      done (with_space blockers (admit (entry.bundle_size + oci_allowance) (h.usage b.power))),
      b,
    )
    layout h
    write_atomic h λ b. b
    pure (available result entry room.0 room.1 (feed.is_newer files state))

  unfoldable pub check_on : Option Platform → Action CheckResult
  unfolding fetch_release offer_release
  check_on none = do result ← view h true; pure (status result)
  check_on (some plat) = do
    state ← current_state h plat
    files ← fetch_release
    entry ← verify_offer h shop files plat state
    result ← view h true
    if is_stale entry plat state.floor
        then pure (unavailable result entry)
        else offer_release files state entry result

  -- `check`
  unfoldable pub check : Action CheckResult
  unfolding check_on
  check = do plat ← platform h; check_on plat
