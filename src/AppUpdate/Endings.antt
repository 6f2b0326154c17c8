-- ===== src/AppUpdate/Endings.antt =====
-- How an installation ends: the result and the image that starts next.
use epilykos_os.Base.{
  ℕ, zero, suc, ◌∙◌, ap, ◌≡◌, refl, ◌⊎◌, inl, inr, Bool, true, false, not, ◌||◌, ◌==◌,
  if◌then◌else◌, Option, none, some, Text, same_codes, arith, Result, ok, err,
}
use epilykos_os.AppUpdate.{
  UpdateError, Candidate, AppRelease, Chosen, promoted, baseline, release_of, active_of, AppJob,
  Store, Outside, says, installed, failed, ◌>>=◌, ◌>>◌, pure, write, raise_if, raise, try_except,
  spend_of, starting, pull, inspected, plain, inspect_image, compatible, remove_image, current_of,
  set_active, release_lease, clean_up, run_job, start_candidate, put_back, restarted_if, answered,
  release_with, prepare, promote, keep_previous, drop_image,
}
use epilykos_os.Json.{Json}
use epilykos_os.AppCompat.{CompatibilityError, candidate_image, inspection}
use epilykos_os.AppUpdate.Returns.{
  Returns, AtReturn, Returns-pure, Returns-bind, Returns-try_except, Returns-spend, Returns-write,
  Returns-remove, Returns-answered, Returns-raise_if, Returns-nothing, Returns-try_then,
  Returns-try_finally,
}

-- Podman says of the candidate's image, at some call, that it has this identifier, and the image is one
-- for this system.
abbrev pub IsImageOf : Outside → Candidate → Text → Type 0
IsImageOf h c id =
    (n : ℕ) × (out : Text) × (info : Json) × (h.inspect_image n c ≡ some (0, out))
    × (inspection h.verifier.loads out ≡ ok info)
    × (candidate_image info ≡ ok id)

-- The image that starts next, and what the result says of it.
abbrev pub Ended : Outside → Candidate → Chosen → Unit {0} → Store → Type 0
Ended h c before _ s =
    ((cand : AppRelease) × (cand.release ≡ c.release)
      × (cand.sequence ≡ c.sequence)
      × (cand.digest ≡ c.digest)
      × IsImageOf h c cand.image_id
      × (s.active
          ≡ some (record {
            image_id = cand.image_id;
            sequence = cand.sequence;
            release = plain cand.release;
          }))
      × (s.current ≡ some cand)
      × (s.stored_floor ≡ some c.sequence)
      × (s.result ≡ some (installed c.release c.sequence)))
    ⊎ ((e : UpdateError) × (back : Bool) × (s.result ≡ some (failed e back c.release))
        × (back ≡ true → s.active ≡ active_of before))

module _ (h : Outside) where
  pub set_active-Returns :
      (r : Chosen) → Returns (λ _. Unit {0}) (set_active h r) (λ _ s. s.active ≡ active_of r)
  unfolding set_active
  set_active-Returns (baseline r) = Returns-remove h _ λ s n p. refl
  set_active-Returns (promoted r) = Returns-write h _ λ s n p. refl

  set_active_and :
      (F : Type 0) (r : Chosen)
      → F
      → Returns (λ _. Unit {0}) (set_active h r) (λ _ s. (s.active ≡ active_of r) × F)
  unfolding set_active
  set_active_and F (baseline r) f = Returns-remove h _ λ s n p. (refl, f)
  set_active_and F (promoted r) f = Returns-write h _ λ s n p. (refl, f)

  put_back-Ended :
      (c : Candidate) (before : Chosen) (started : Bool) (e : UpdateError)
      → Returns (λ _. Unit {0}) (put_back h c before started e) (Ended h c before)
  unfolding put_back
  put_back-Ended c before started e =
      Returns-bind {Q = λ back s. back ≡ true → s.active ≡ active_of before}
        (Returns-try_except (Returns-bind (set_active-Returns before) λ _. restarted started)
          λ f. Returns-pure false λ s p q. absurd (ground (arith, q)))
        λ back. Returns-write h _ λ s n p. inr (e, back, refl, p)
    where
      restarted :
          (b : Bool)
          → Returns
              (λ s. s.active ≡ active_of before)
              (restarted_if h b)
              (λ back s. back ≡ true → s.active ≡ active_of before)
      restarted true =
          Returns-spend {m = λ k. answered (h.restart k) >>= λ code. pure (code == 0)} (λ s n p. p)
            λ k.
              Returns-bind (Returns-answered (h.restart k) λ code s p. p)
                λ code. Returns-pure (code == 0) λ s p q. p
      restarted false = Returns-pure true λ s p q. p

  -- What holds once the candidate is the image that starts next.
  abbrev Prepared : Candidate → Text → Store → Type 0
  Prepared c id s = (s.active ≡ active_of (promoted (release_with c id))) × IsImageOf h c id

  abbrev IsSeen : Candidate → Json → Store → Type 0
  IsSeen c info s =
      (n : ℕ) × (out : Text) × (h.inspect_image n c ≡ some (0, out))
      × (inspection h.verifier.loads out ≡ ok info)

  compatible-Returns :
      {A : Type 0} (r : Result CompatibilityError A)
      → Returns (λ _. Unit {0}) (compatible r) (λ a _. r ≡ ok a)
  compatible-Returns (ok a) = record { at = λ s p. refl }
  compatible-Returns (err e) = record { at = λ s p. tt }

  inspect_image-Returns : (c : Candidate) → Returns (λ _. Unit {0}) (inspect_image h c) (IsSeen c)
  inspect_image-Returns c =
      Returns-spend {m = λ n. inspected h (h.inspect_image n c)} (λ s n p. p)
        λ n. seen n (h.inspect_image n c) refl
    where
      seen :
          (n : ℕ) (o : Option (ℕ × Text))
          → h.inspect_image n c ≡ o
          → Returns (λ _. Unit {0}) (inspected h o) (IsSeen c)
      seen n none at = record { at = λ s p. tt }
      seen n (some (code, out)) at = record {
        at = λ s p. by_code s (code == 0) refl (inspection h.verifier.loads out) refl;
      }
        where
          by_code :
              (s : Store) (b : Bool)
              → (code == 0) ≡ b
              → (r : Result CompatibilityError Json) → inspection h.verifier.loads out ≡ r
              → AtReturn (IsSeen c) (
                  (if b
                      then compatible r
                      else raise (says "Could not verify the app maintenance configuration"))
                    s)
          by_code s true is (ok info) read = (n, out, at ∙ zero_code, read)
            where
              zero_code : ◌≡◌ {A = Option (ℕ × Text)} (some (code, out)) (some (0, out))
              zero_code = ap (λ k. some (k, out)) (ground (arith, is))
          by_code s true is (err e) read = tt
          by_code s false is r read = tt

  prepare-Prepared :
      (c : Candidate) (job : AppJob) → Returns (λ _. Unit {0}) (prepare h c job) (Prepared c)
  unfolding prepare
  prepare-Prepared c job = Returns-bind {Q = λ _ _. Unit {0}} {m = pull h c} Returns-nothing λ code.
      Returns-bind {Q = IsSeen c}
        {m = raise_if (not (code == 0)) (says "Could not download the update") >> inspect_image h c}
        (Returns-bind {A = Unit {0}} {Q = λ _ _. Unit {0}}
          {m = raise_if (not (code == 0)) (says "Could not download the update")} Returns-nothing
          λ _. inspect_image-Returns c)
        λ info.
          Returns-bind {Q = λ id s. IsSeen c info s × (candidate_image info ≡ ok id)}
            {m = compatible (candidate_image info)}
            (record { at = λ s seen. kept s info seen (candidate_image info) refl })
            λ id.
              Returns-bind {Q = λ _ s. Prepared c id s}
                (Returns-bind {Q = λ _ s. IsSeen c info s × (candidate_image info ≡ ok id)}
                  {m = write h λ s. record s { job = some (record job { state = starting }) }}
                  (Returns-write h _ λ s n p. p)
                  λ _. record {
                    at = λ s p.
                        (set_active_and (IsImageOf h c id) (promoted (release_with c id)) (
                            let (seen, is) = p in
                            let (n, out, at, read) = seen in (n, out, info, at, read, is))).at
                          s tt;
                  })
                λ _. Returns-pure id λ s p. p
    where
      kept :
          (s : Store) (info : Json)
          → IsSeen c info s
          → (r : Result CompatibilityError Text) → candidate_image info ≡ r
          → AtReturn (λ id s. IsSeen c info s × (candidate_image info ≡ ok id)) (compatible r s)
      kept s info seen (ok id) is = (seen, is)
      kept s info seen (err e) is = tt

  keep_previous-Prepared :
      (c : Candidate) (id : Text) (before : Chosen)
      → Returns (Prepared c id) (keep_previous h before) (λ _. Prepared c id)
  keep_previous-Prepared c id (baseline r) = Returns-pure tt λ s p. p
  keep_previous-Prepared c id (promoted r) = Returns-write h _ λ s n p. p

  drop_image-keeps :
      (P : Store → Type 0)
      → ((s : Store) (n : ℕ) → P s → P (record s { power = n }))
      → (old : Option AppRelease) (cand : AppRelease) (before : Chosen)
      → Returns P (drop_image h old cand before) (λ _. P)
  drop_image-keeps P same none cand before = Returns-pure tt λ s p. p
  drop_image-keeps P same (some old) cand before = by_use (
      same_codes old.image_id cand.image_id
      || same_codes old.image_id (release_of before).image_id
      || same_codes old.image_id h.base.image_id)
    where
      by_use :
          (b : Bool)
          → Returns P (if b then pure tt else remove_image h old.image_id >> pure tt) (λ _. P)
      by_use true = Returns-pure tt λ s p. p
      by_use false =
          Returns-bind {Q = λ _. P}
            (Returns-spend {m = λ k. answered (h.remove_image k old.image_id)} same
              λ k. Returns-answered (h.remove_image k old.image_id) λ a s p. p)
            λ _. Returns-pure tt λ s p. p

  promote-Ended :
      (c : Candidate) (id : Text) (before : Chosen)
      → Returns (Prepared c id) (promote h (release_with c id) before) (Ended h c before)
  unfolding promote
  promote-Ended c id before = record {
    at = λ s p.
        (Returns-bind {Q = λ _. Ended h c before tt}
            (Returns-bind
              {Q = λ _ t.
                Prepared c id t
                × (t.current ≡ some (release_with c id))
                × (t.stored_floor ≡ some c.sequence)}
              (Returns-bind {Q = λ _ t. Prepared c id t × (t.current ≡ some (release_with c id))}
                (Returns-bind (keep_previous-Prepared c id before)
                  λ _. Returns-write h _ λ t n q. (q, refl))
                λ _. Returns-write h _ λ t n q. (q.0, q.1, refl))
              λ _.
                Returns-write h _
                  λ t n q. inl (release_with c id, refl, refl, refl, q.0.1, q.0.0, q.1, q.2, refl))
            λ _. drop_image-keeps (Ended h c before tt) (λ t n q. q) s.previous _ before).at
          s p;
  }

  -- A restart changes no file, whether it answers or not.
  answer_at :
      (c : Candidate) (id : Text) (o : Option ℕ) (s : Store)
      → Prepared c id s
      → AtReturn
          (λ _. Prepared c id)
          (try_except (answered o >>= λ code. pure (code == 0)) (λ _. pure false) s)
  answer_at c id none s p = p
  answer_at c id (some code) s p = p

  restart_at :
      (c : Candidate) (id : Text) (n : ℕ) (s : Store)
      → Prepared c id s
      → AtReturn
          (λ _. Prepared c id)
          (try_except
            (spend_of n λ t. (answered (h.restart t.power) >>= λ code. pure (code == 0)) t)
            (λ _. pure false)
            s)
  restart_at c id zero s p = tt
  restart_at c id (suc n) s p = answer_at c id (h.restart n) (record s { power = n }) p

  start_candidate-Ended :
      (c : Candidate) (id : Text) (before : Chosen)
      → Returns (Prepared c id) (start_candidate h (release_with c id) before) (Ended h c before)
  unfolding start_candidate
  start_candidate-Ended c id before =
      Returns-bind {Q = λ _. Prepared c id} (record { at = λ s p. restart_at c id s.power s p })
        λ healthy.
          Returns-bind {Q = λ _. Prepared c id} (Returns-raise_if _ _ λ s p. p)
            λ _. promote-Ended c id before

  clean_up-Ended :
      (c : Candidate) (before : Chosen)
      → Returns (Ended h c before tt) (clean_up h) (λ _. Ended h c before tt)
  unfolding clean_up
  clean_up-Ended c before =
      Returns-try_finally {k = release_lease h}
        (Returns-bind (Returns-remove h _ λ s n p. p) λ _. Returns-remove h _ λ s n p. p)
        λ _. record { at = λ s p. p }

  -- An installation that returns has either installed the candidate: a release with its name, sequence
  -- and digest, and with the identifier that podman gave for its image and `candidate_image` accepted,
  -- is then the image that starts next and current, and its sequence is the floor; or reports a failure, and where the report says that the old
  -- version is back, the image that starts next is the one that was current when it began.
  pub run_job-Ended :
      (c : Candidate) (job : AppJob) (s : Store)
      → AtReturn (Ended h c (current_of h s)) (run_job h c job s)
  unfolding run_job
  run_job-Ended c job s =
      (Returns-try_finally {Q = Ended h c (current_of h s)}
          (Returns-try_then {Q = Prepared c} (prepare-Prepared c job)
            (λ id.
              Returns-try_except (start_candidate-Ended c id (current_of h s))
                (put_back-Ended c (current_of h s) true))
            (put_back-Ended c (current_of h s) false))
          λ _. clean_up-Ended c (current_of h s)).at
        s tt
