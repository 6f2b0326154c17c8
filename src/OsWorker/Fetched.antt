-- ===== src/OsWorker/Fetched.antt =====
-- `work` up to the image: the journal holds the job as it was or in one of its first phases, and an
-- image that is found is one that `verify_bundle` accepted of the bytes that `download` returned.
use epilykos_os.Base.{
  ℕ, zero, suc, ◌==◌, ◌&&◌, ◌≡◌, refl, ◌⊎◌, inr, Bool, true, not, Option, none, some, List, Result,
  ok, err, Text, arith,
}
use epilykos_os.OsBox.{
  required, trust_error, os_update_error, says, ◌>>◌, same_number, JobState, downloading, verifying,
  is_working, Job, Image, Journal, holds, Box, Error, Host, Documents, Platform, TrustState, Entry,
  IsFaithful, ◌>>=◌, pure, raise_if, Predicate, On, Implies, Ends, Triple, Triple-pure, Triple-bind,
  Triple-weaken, Triple-if, Triple-given, Triple-raise_if, Triple-required, spend-Triple,
  looks-Triple, layout-Triple, save-Triple,
}
use epilykos_os.OsUpdate.Slots.{settled_box, not-eq_false}
use epilykos_os.OsActivate.{is_stale, verify_os_release}
use epilykos_os.OsUpdate.{settled}
use epilykos_os.OsActivate.Safety.{current_state-Triple}
use epilykos_os.OsJobs.Install.{Shop, verify_offer}
use epilykos_os.OsJobs.Ordered.{verify_offer-Triple, check-Triple}
use epilykos_os.OsRauc.{Bus, run_command, operation_of, rauc_operation, restart_rauc, rauc_identity}
use epilykos_os.OsRauc.Waits.{run_command-Triple}
use epilykos_os.OsBundle.{SlotImage, BundleError}
use epilykos_os.OsDownload.{
  Failure, network, too_large, kept_failing, stopped, os_failure, answered_code, no_headroom,
}
use epilykos_os.OsWorker.Fetching.{
  Delivery, Crew, at_phase, downloaded, verified, image_record, bytes_of, image_in, is_whole,
  is_for_job, save_phase, save_progress, transfer_saves, advance, authorize_job, fetch_bundle,
  check_image, fetch_image,
}

-- The commands that the worker gives to RAUC change nothing of the box.
module _ (bus : Bus) (I X : Predicate) (x : Implies I X) where
  ran-Triple :
      (reply : ℕ → Option (ℕ × Text)) → Triple (On I) (run_command reply) (λ _. On I) (On X)
  ran-Triple reply =
      Triple-weaken (run_command-Triple I X x reply) (λ b p. p) (λ _ b p. p.0) (λ b p. p)

  refuses-Triple : (c : Bool) (e : Error) → Triple (On I) (raise_if c e) (λ _. On I) (On X)
  refuses-Triple c e =
      Triple-weaken (Triple-raise_if c e (λ b p. x _ _ _ p)) (λ b p. p) (λ _ b p. p.0) (λ b p. p)

  rauc_operation-Triple : Triple (On I) (rauc_operation bus) (λ _. On I) (On X)
  unfolding rauc_operation operation_of
  rauc_operation-Triple = Triple-bind (ran-Triple bus.name_owner) λ owner.
      Triple-if (owner.0 == 0) _ _
        (λ _. Triple-bind (ran-Triple bus.operation) λ reply. Triple-pure _ λ b p. p)
        λ _. Triple-pure _ λ b p. p

  restart_rauc-Triple : Triple (On I) (restart_rauc bus) (λ _. On I) (On X)
  unfolding restart_rauc
  restart_rauc-Triple = Triple-bind rauc_operation-Triple λ seen.
      Triple-bind (refuses-Triple _ _)
        λ _. Triple-bind (ran-Triple bus.restart_rauc) λ reply. refuses-Triple _ _

  pub rauc_identity-Triple : Triple (On I) (rauc_identity bus) (λ _. On I) (On X)
  unfolding rauc_identity
  rauc_identity-Triple = Triple-bind (ran-Triple bus.start_rauc) λ begun.
      Triple-bind (refuses-Triple _ _) λ _. Triple-bind rauc_operation-Triple λ seen.
        Triple-bind (ran-Triple bus.invocation)
          λ reply. Triple-bind (refuses-Triple _ _) λ _. Triple-pure _ λ b p. p

module _ (h : Host) (crew : Crew) (job : Job) where
  -- The job's documents hold this entry, signed under this policy, and it is the job's release.
  abbrev pub IsAuthorizedBy : Entry → ℕ → Type 0
  IsAuthorizedBy entry policy =
      (files : Documents) × ((plat : Platform) × (job.documents ≡ some files)
        × (h.verify_os_release files plat policy ≡ ok entry)
        × (entry.sequence ≡ job.sequence)
        × (job.sha256 ≡ some entry.bundle_sha256))

  -- An image that `verify_bundle` accepted with the authorized entry and its policy, of the bytes that
  -- a download of the entry's size returned.
  abbrev pub IsChecked : Image → Type 0
  IsChecked image =
      (t : ℕ) × (entry : Entry) × (policy : ℕ) × (bytes : List ℕ) × (found : SlotImage)
      × IsAuthorizedBy entry policy
      × (bytes_of crew.attempts entry.bundle_size (crew.delivery t) ≡ ok bytes)
      × (image_in (crew.delivery t) (crew.entry_json entry) (crew.policy_json policy) bytes
          ≡ ok found)
      × (image ≡ image_record (crew.delivery t).number_of found)

  abbrev pub Found : Option Image → Type 0
  Found none = Unit {0}
  Found (some image) = IsChecked image

-- The journal as it was, or with the job in one of its first phases.
abbrev pub Early : Journal → Job → Predicate
Early j₀ job e j g =
    (j ≡ j₀) ⊎ ((s : JobState) × (is_working s ≡ true) × (j ≡ holds (at_phase s job)))

for_job_lem :
    (job : Job) (entry : Entry)
    → is_for_job job entry ≡ true
    → (entry.sequence ≡ job.sequence) × (job.sha256 ≡ some entry.bundle_sha256)
for_job_lem job entry e = by_sum job.sha256 e
  where
    by_sum :
        (s : Option ℕ)
        → (entry.sequence == job.sequence && same_number (some entry.bundle_sha256) s) ≡ true
        → (entry.sequence ≡ job.sequence) × (s ≡ some entry.bundle_sha256)
    by_sum none e = absurd (ground (arith, e))
    by_sum (some n) e = ground (arith, e)

settled-Ends :
    {A : Type 0} (r : Result Error A) (b : Box) (P : Box → Type 0)
    → P b
    → Ends (λ a b. P b × (r ≡ ok a)) P (settled r b).0 (settled r b).1
settled-Ends (ok a) b P p = (p, refl)
settled-Ends (err e) b P p = p

downloaded-Ends :
    (r : Result Failure (List ℕ)) (b : Box) (P : Box → Type 0)
    → P b
    → let (o, b') = downloaded r b in
      Ends (λ o b. P b × ((bytes : List ℕ) → o ≡ some bytes → r ≡ ok bytes)) P o b'
downloaded-Ends (ok bytes) b P p = (p, λ bs e. ground (arith, e))
downloaded-Ends (err stopped) b P p = (p, λ bs e. ground (arith, e))
downloaded-Ends (err network) b P p = p
downloaded-Ends (err os_failure) b P p = p
downloaded-Ends (err too_large) b P p = p
downloaded-Ends (err kept_failing) b P p = p
downloaded-Ends (err (answered_code n)) b P p = p
downloaded-Ends (err (no_headroom e)) b P p = p

verified-Ends :
    (number_of : Text → ℕ) (r : Result BundleError SlotImage) (b : Box) (P : Box → Type 0)
    → P b
    → let (o, b') = verified number_of r b in
      Ends
        (λ image b. P b × ((i : SlotImage) × (r ≡ ok i) × (image ≡ image_record number_of i)))
        P
        o
        b'
verified-Ends number_of (ok i) b P p = (p, (i, refl, refl))
verified-Ends number_of (err e) b P p = p

module _ {h : Host} (f : IsFaithful h) (bus : Bus) (shop : Shop) (crew : Crew) (j₀ : Journal)
    (job : Job) where
  abbrev E : Predicate
  E = Early j₀ job

  keep : Implies E E
  keep e j g p = p

  phase-Triple :
      (s : JobState) → is_working s ≡ true → Triple (On E) (save_phase h s job) (λ _. On E) (On E)
  unfolding save_phase
  phase-Triple s w = save-Triple h E E keep E (at_phase s job) (λ e j g p. inr (s, w, refl)) keep

  progress-Triple : (n : ℕ) → Triple (On E) (save_progress h n job) (λ _. On E) (On E)
  unfolding save_progress
  progress-Triple zero = Triple-pure _ λ b p. p
  progress-Triple (suc n) = Triple-bind (phase-Triple downloading refl) λ _. progress-Triple n

  saves-Triple : (n : ℕ) → Triple (On E) (transfer_saves h bus shop crew job n) (λ _. On E) (On E)
  unfolding transfer_saves
  saves-Triple n =
      Triple-bind (phase-Triple downloading refl)
        λ _. Triple-bind (spend-Triple E E (λ _. On E) _ keep λ b p. p) λ _. progress-Triple n

  advance-Triple :
      (files : Documents) (plat : Platform) (state : TrustState)
      → Triple (On E) (advance h bus shop crew files plat state) (λ _. On E) (On E)
  unfolding advance
  advance-Triple files plat state =
      Triple-if (crew.is_newer files state) _ _
        (λ _.
          Triple-bind
            (looks-Triple E E _ keep
              λ b. settled_box (crew.admit_policy b.power files plat state) b)
            λ next. Triple-bind (restart_rauc-Triple bus E E keep) λ _. Triple-pure _ λ b p. p)
        λ _. Triple-pure _ λ b p. p

  signed-Triple :
      (files : Documents) (plat : Platform) (state : TrustState)
      → Triple
          (On E)
          (verify_os_release h files plat state)
          (λ entry b. On E b × (h.verify_os_release files plat state.policy ≡ ok entry))
          (On E)
  unfolding verify_os_release
  signed-Triple files plat state = record {
    at = λ b p. settled-Ends (h.verify_os_release files plat state.policy) b (On E) p;
  }

  -- The last checks, of the entry that was read under the policy.
  admitted-Triple :
      (files : Documents) (plat : Platform) (state : TrustState) (entry : Entry)
      → job.documents ≡ some files
      → h.verify_os_release files plat state.policy ≡ ok entry
      → (e₁ e₂ : Error)
      → Triple {A = Entry × ℕ}
          (On E)
          (do
            raise_if (is_stale entry plat state.floor) e₁
            raise_if (not (is_for_job job entry)) e₂
            pure (entry, state.policy))
          (λ authorized b. On E b × IsAuthorizedBy h crew job authorized.0 authorized.1)
          (On E)
  admitted-Triple files plat state entry has signed e₁ e₂ =
      Triple-bind (check-Triple f shop E E keep (is_stale entry plat state.floor) e₁) λ _.
        Triple-bind (Triple-raise_if (not (is_for_job job entry)) e₂ (λ b p. p)) λ _.
          Triple-pure (entry, state.policy)
            λ b p.
              let same = for_job_lem job entry (not-eq_false (is_for_job job entry) p.1) in
              (p.0, (files, (plat, has, signed, same.0, same.1)))

  abbrev Authorized : Entry × ℕ → Box → Type 0
  Authorized authorized b = On E b × IsAuthorizedBy h crew job authorized.0 authorized.1

  authorize_job-Triple :
      (found : Option Platform)
      → Triple (On E) (authorize_job h bus shop crew job found) Authorized (On E)
  unfolding authorize_job
  authorize_job-Triple found =
      Triple-bind {Q = λ _. On E} (Triple-required found (λ b p. p) (λ a e b p. p)) λ plat.
        Triple-bind (current_state-Triple f E E keep plat) λ state.
          Triple-bind {A = Documents} {Q = λ files b. On E b × (job.documents ≡ some files)}
            {m = required job.documents}
            {f = λ files. do
              verify_offer h shop files plat state
              next ← advance h bus shop crew files plat state
              entry ← verify_os_release h files plat next
              raise_if (is_stale entry plat next.floor)
                  (trust_error (says "OS release is not newer than this box's system"))
              raise_if (not (is_for_job job entry))
                  (os_update_error (says "The OS update record does not match its authorization"))
              pure (entry, next.policy)}
            (Triple-required job.documents (λ b p. p) (λ a e b p. (p, e)))
            λ files. Triple-given λ has.
              Triple-bind (verify_offer-Triple f shop E E keep files plat state) λ offered.
                Triple-bind (advance-Triple files plat state) λ next.
                  Triple-bind (signed-Triple files plat next) λ entry. Triple-given λ signed.
                    admitted-Triple files plat next entry has signed
                      (trust_error (says "OS release is not newer than this box's system"))
                      (os_update_error
                        (says "The OS update record does not match its authorization"))

  fetch_bundle-Triple :
      (size t : ℕ)
      → Triple
          (On E)
          (fetch_bundle h bus shop crew job size (crew.delivery t))
          (λ o b.
            On E b
            × ((bytes : List ℕ)
                → o ≡ some bytes
                → bytes_of crew.attempts size (crew.delivery t) ≡ ok bytes))
          (On E)
  unfolding fetch_bundle
  fetch_bundle-Triple size t =
      let d = crew.delivery t in
      Triple-bind (layout-Triple h E E keep) λ _.
        Triple-bind
          (Triple-if (is_whole size d.staged.final) _ _ (λ _. Triple-pure _ λ b p. p)
            λ _. saves-Triple d.saves)
          λ _.
            spend-Triple E E _ _ keep
              λ b p. downloaded-Ends (bytes_of crew.attempts size d) b (On E) p

  check_image-Triple :
      (entry : Entry) (policy t : ℕ) (o : Option (List ℕ))
      → IsAuthorizedBy h crew job entry policy
      → ((bytes : List ℕ)
          → o ≡ some bytes
          → bytes_of crew.attempts entry.bundle_size (crew.delivery t) ≡ ok bytes)
      → Triple
          (On E)
          (check_image h bus shop crew job (crew.delivery t) (entry, policy) o)
          (λ found b. On E b × Found h crew job found)
          (On E)
  unfolding check_image
  check_image-Triple entry policy t none same sized = Triple-pure none λ b p. (p, tt)
  check_image-Triple entry policy t (some bytes) same sized =
      let d = crew.delivery t in
      let r = image_in d (crew.entry_json entry) (crew.policy_json policy) bytes in
      Triple-bind (phase-Triple verifying refl) λ _.
        Triple-bind (spend-Triple E E _ _ keep λ b p. verified-Ends d.number_of r b (On E) p)
          λ image.
            Triple-pure (some image)
              λ b p. (p.0, (t, entry, policy, bytes, p.1.0, same, sized bytes refl, p.1.1, p.1.2))

  delivered-Triple :
      (entry : Entry) (policy : ℕ)
      → IsAuthorizedBy h crew job entry policy
      → (t : ℕ) (d : Delivery) → d ≡ crew.delivery t
      → Triple
          (On E)
          (do
            bytes ← fetch_bundle h bus shop crew job entry.bundle_size d
            check_image h bus shop crew job d (entry, policy) bytes)
          (λ image b. On E b × Found h crew job image)
          (On E)
  delivered-Triple entry policy same t d at = rw at (
      Triple-bind (fetch_bundle-Triple entry.bundle_size t)
        λ bytes. Triple-given λ sized. check_image-Triple entry policy t bytes same sized)

  pub fetch_image-Triple :
      (found : Option Platform)
      → Triple
          (On E)
          (fetch_image h bus shop crew job found)
          (λ image b. On E b × Found h crew job image)
          (On E)
  unfolding fetch_image
  fetch_image-Triple found = Triple-bind (authorize_job-Triple found) λ authorized.
      Triple-given λ same.
        Triple-bind {Q = λ d b. On E b × ((t : ℕ) × (d ≡ crew.delivery t))}
          (spend-Triple E E (λ d b. On E b × ((t : ℕ) × (d ≡ crew.delivery t)))
            (λ b. pure (crew.delivery b.power) b) keep λ b p. (p, (b.power, refl)))
          λ d. Triple-given λ at. delivered-Triple authorized.0 authorized.1 same at.0 d at.1
