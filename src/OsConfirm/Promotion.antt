-- ===== src/OsConfirm/Promotion.antt =====
-- What the promotion of the app and the rebuilding of a lost job leave alone.
use epilykos_os.Base.{ℕ, ◌≡◌, refl, sym, ◌∙◌, ap, Bool, true, false, Option, none, some, arith, max}
use epilykos_os.OsBox.{
  Env, Job, Journal, holds, Release, Guard, Host, Predicate, On, Implies, Triple, Triple-pure,
  Triple-bind, Triple-weaken, Triple-required, write_atomic-Triple, save-Triple, reads-Triple,
}
use epilykos_os.OsConfirm.{
  is_job, rebuilt, is_same_channel, write_previous, write_current, write_active, write_floor,
  keep_previous, read_current, read_floor, promote_unless, is_promoted, promote_base, promote_found,
  promote_app, make_job, rebuild_as, rebuild,
}

module _ (h : Host) (I X : Predicate) (x : Implies I X) where
  keep_previous-Triple :
      (same : Bool) (r : Option Release) → Triple (On I) (keep_previous h same r) (λ _. On I) (On X)
  unfolding keep_previous write_previous
  keep_previous-Triple true r = write_atomic-Triple h I X x I _ (λ b p. p) x
  keep_previous-Triple false r = Triple-pure tt λ b p. p

  write_current-Triple : (r : Option Release) → Triple (On I) (write_current h r) (λ _. On I) (On X)
  unfolding write_current
  write_current-Triple r = write_atomic-Triple h I X x I _ (λ b p. p) x

  write_active-Triple : (r : Option Release) → Triple (On I) (write_active h r) (λ _. On I) (On X)
  unfolding write_active
  write_active-Triple r = write_atomic-Triple h I X x I _ (λ b p. p) x

  write_floor-Triple : (n : ℕ) → Triple (On I) (write_floor h n) (λ _. On I) (On X)
  unfolding write_floor
  write_floor-Triple n = write_atomic-Triple h I X x I _ (λ b p. p) x

  read_current-Triple : Triple (On I) (read_current h) (λ _. On I) (On X)
  unfolding read_current
  read_current-Triple = reads-Triple I X _ x (λ b. refl)

  read_floor-Triple : Triple (On I) (read_floor h) (λ _. On I) (On X)
  unfolding read_floor
  read_floor-Triple = reads-Triple I X _ x (λ b. refl)

  promote_unless-Triple :
      (done : Bool) (base : Release) (current : Option Release)
      → Triple (On I) (promote_unless h done base current) (λ _. On I) (On X)
  unfolding promote_unless
  promote_unless-Triple true base current = Triple-pure tt λ b p. p
  promote_unless-Triple false base current =
      Triple-bind (keep_previous-Triple (is_same_channel current base) current) λ _.
        Triple-bind (write_current-Triple (some base)) λ _. Triple-bind read_floor-Triple λ stored.
          Triple-bind (write_floor-Triple (max stored base.sequence))
            λ _. write_active-Triple (some base)

  promote_base-Triple : (base : Release) → Triple (On I) (promote_base h base) (λ _. On I) (On X)
  unfolding promote_base
  promote_base-Triple base =
      Triple-bind read_current-Triple
        λ current. promote_unless-Triple (is_promoted current base) base current

  promote_found-Triple :
      (found : Option Release) → Triple (On I) (promote_found h found) (λ _. On I) (On X)
  unfolding promote_found
  promote_found-Triple none = Triple-pure tt λ b p. p
  promote_found-Triple (some base) = promote_base-Triple base

  -- The promotion of the app touches neither the environment nor the journal nor the guard.
  pub promote_app-Triple : Triple (On I) (promote_app h) (λ _. On I) (On X)
  unfolding promote_app
  promote_app-Triple = promote_found-Triple h.baseline

pub is_job-id :
    (id : ℕ) (found : Option Job) (j : Job) → is_job id found ≡ true → found ≡ some j → j.id ≡ id
is_job-id id none j h e = cc
is_job-id id (some k) j h e = ground arith

module _ (h : Host) (I X : Predicate) (x : Implies I X)
    (any : (job : Job) (e : Env) (j : Journal) (g : Option Guard)
      → I e j g
      → I e (holds job) g) where
  make_job-Triple :
      (env : Env) (id : ℕ)
      → Triple (On I) (make_job h env id) (λ job b. On I b × (job.id ≡ id)) (On X)
  unfolding make_job
  make_job-Triple env id =
      Triple-bind {Q = λ _. On I}
        (Triple-required env.target_sequence (λ b. x _ _ _) (λ a e b p. p))
        λ seq.
          Triple-bind (save-Triple h I X x I (rebuilt id seq env) (any _) x)
            λ _. Triple-pure _ λ b p. (p, refl)

  rebuild_as-Triple :
      (env : Env) (found : Option Job) (id : ℕ) (same : Bool)
      → is_job id found ≡ same
      → Triple (On I) (rebuild_as h env found id same) (λ job b. On I b × (job.id ≡ id)) (On X)
  unfolding rebuild_as
  rebuild_as-Triple env found id true s =
      Triple-required found (λ b. x _ _ _) (λ j e b p. (p, is_job-id id found j s e))
  rebuild_as-Triple env found id false s = make_job-Triple env id

-- What `rebuild` returns has the identifier that the environment gives as pending.
pub rebuild-Triple :
    (h : Host) (I X : Predicate)
    → Implies I X
    → ((job : Job) (e : Env) (j : Journal) (g : Option Guard) → I e j g → I e (holds job) g)
    → (env : Env) (found : Option Job)
    → Triple
        (On I)
        (rebuild h env found)
        (λ job. On λ e j g. I e j g × (env.pending ≡ some job.id))
        (On X)
unfolding rebuild
rebuild-Triple h I X x any env found =
    Triple-bind {Q = λ id. On λ e j g. I e j g × (env.pending ≡ some id)}
      (Triple-required env.pending (λ b. x _ _ _) (λ a e b p. (p, e)))
      λ id.
        Triple-weaken
          (rebuild_as-Triple h (λ e j g. I e j g × (env.pending ≡ some id)) X
            (λ e j g p. x e j g p.0) (λ job e j g p. (any job e j g p.0, p.1)) env found id
            (is_job id found) refl)
          (λ b p. p) (λ job b p. (p.0.0, p.0.1 ∙ ap some (sym p.1))) (λ b p. p)
