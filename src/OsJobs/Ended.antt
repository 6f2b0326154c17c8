-- ===== src/OsJobs/Ended.antt =====
-- `cancel` and `dismiss`: only a job that is still at work is cancelled, only one that has ended is
-- dismissed.
use epilykos_os.Base.{
  ℕ, ◌≡◌, refl, ◌∙◌, ◌⊎◌, inl, inr, Bool, true, false, not, ◌&&◌, Option, none, some, subst, arith,
  if◌then◌else◌, is_so, both, ap,
}
use epilykos_os.OsBox.{
  Env, is_working, cancelled, idle, Job, Journal, absent, holds, held, Guard, Host, IsFaithful,
  Predicate, On, Implies, on_guard, enter, finish, Triple, Triple-pure, Triple-bind, Triple-weaken,
  Triple-if, Triple-raise_if, Triple-required, journal-Triple, write_atomic-Triple, journal,
  worker_active-Triple, remove_to-Triple, finish-Triple, pure,
}
use epilykos_os.OsJobs.{is_named, is_cancellable, has_ended, cancel, dismiss}
use epilykos_os.OsJobs.Views.{view-Triple}
use epilykos_os.OsJobs.Admitted.{Same}

abbrev pub IsDismissed : ℕ → Env → Journal → Option Guard → Predicate
IsDismissed id e₀ j₀ g₀ e j g =
    (is_named id (held j₀) ≡ true) × (has_ended (held j₀) ≡ true) × (j ≡ absent) × (g ≡ g₀)

abbrev pub Undismissed : ℕ → Env → Journal → Option Guard → Predicate
Undismissed id e₀ j₀ g₀ e j g = Same e₀ j₀ g₀ e j g ⊎ IsDismissed id e₀ j₀ g₀ e j g

-- The named job, at work when the cancel request is made.
abbrev pub AtWork : ℕ → Env → Journal → Option Guard → Job → Predicate
AtWork id e₀ j₀ g₀ k e j g =
    Same e₀ j₀ g₀ e j g × (held j₀ ≡ some k) × (k.id ≡ id) × (is_working k.state ≡ true)

abbrev pub IsCancelled : ℕ → Journal → Job → Predicate
IsCancelled id j₀ k e j g =
    (held j₀ ≡ some k)
    × (k.id ≡ id)
    × (is_working k.state ≡ true)
    × (j ≡ holds (enter cancelled none k))

-- The worker runs and will see the request, or the job has ended here.
abbrev pub Cancels : ℕ → Env → Journal → Option Guard → Predicate
Cancels id e₀ j₀ g₀ e j g =
    (k : Job) × (AtWork id e₀ j₀ g₀ k e j g
      ⊎ (IsCancelled id j₀ k e j g × (g ≡ on_guard idle none)))

abbrev pub Uncancelled : ℕ → Env → Journal → Option Guard → Predicate
Uncancelled id e₀ j₀ g₀ e j g = Same e₀ j₀ g₀ e j g ⊎ ((k : Job) × IsCancelled id j₀ k e j g)

module _ {h : Host} (f : IsFaithful h) (id : ℕ) (e₀ : Env) (j₀ : Journal) (g₀ : Option Guard) where
  found-Triple :
      (X : Predicate)
      → Implies (Same e₀ j₀ g₀) X
      → Triple
          (On (Same e₀ j₀ g₀))
          journal
          (λ found. On λ e j g. (Same e₀ j₀ g₀) e j g × (held j₀ ≡ found))
          (On X)
  found-Triple X x =
      Triple-weaken (journal-Triple h (Same e₀ j₀ g₀) X x) (λ b p. p)
        (λ found b p. (p.0, subst (λ j. held j ≡ found) p.0.0 p.1)) (λ b p. p)

  -- A job is dismissed, with the journal removed and the guard left alone, only if it is the one that
  -- is named and has ended; otherwise, and until it is removed, both and the environment are as they
  -- were.
  pub dismiss-Triple :
      Triple
        (On (Same e₀ j₀ g₀))
        (dismiss h id)
        (λ _. On (IsDismissed id e₀ j₀ g₀))
        (On (Undismissed id e₀ j₀ g₀))
  unfolding dismiss
  dismiss-Triple = Triple-bind (found-Triple (Undismissed id e₀ j₀ g₀) (λ e j g p. inl p)) λ found.
      Triple-bind (Triple-raise_if (not (is_named id found && has_ended found)) _ (λ b p. inl p.0))
        λ _.
          Triple-bind
            (remove_to-Triple h
              (λ e j g.
                ((Same e₀ j₀ g₀) e j g × (held j₀ ≡ found))
                × (not (is_named id found && has_ended found) ≡ false))
              (Undismissed id e₀ j₀ g₀) (λ e j g p. inl p.0.0) (IsDismissed id e₀ j₀ g₀) _
              (λ b p.
                let t = both (is_named id found) (has_ended found) (is_so _ p.1) in
                (ap (is_named id) p.0.1 ∙ t.0, ap has_ended p.0.1 ∙ t.1, refl, p.0.0.1)))
            λ _.
              view-Triple f (IsDismissed id e₀ j₀ g₀) (Undismissed id e₀ j₀ g₀) (λ e j g p. inr p)
                true

  Ready-AtWork :
      (found : Option Job) (k : Job) (e : Env) (j : Journal) (g : Option Guard)
      → (Same e₀ j₀ g₀) e j g × (held j₀ ≡ found)
      → not (is_named id found) ≡ false
      → not (is_cancellable found) ≡ false
      → found ≡ some k
      → AtWork id e₀ j₀ g₀ k e j g
  Ready-AtWork none k e j g p n c at = absurd (ground (arith, at))
  Ready-AtWork (some m) k e j g p n c at = (p.0, p.1 ∙ at, same.0, same.1)
    where
      some_eq : (m k : Job) → ◌≡◌ {A = Option Job} (some m) (some k) → m ≡ k
      some_eq m k e = ground (arith, e)

      same : (k.id ≡ id) × (is_working k.state ≡ true)
      same =
          subst (λ m. (m.id ≡ id) × (is_working m.state ≡ true)) (some_eq m k at)
            (ground (arith, n), ground (arith, c))

  end_here-Triple :
      (k : Job) (running : Bool)
      → Triple
          (On (AtWork id e₀ j₀ g₀ k))
          (if running then pure tt else finish h k cancelled none)
          (λ _. On (Cancels id e₀ j₀ g₀))
          (On (Uncancelled id e₀ j₀ g₀))
  end_here-Triple k running =
      Triple-if running _ _ (λ on. Triple-pure tt λ b p. (k, inl p))
        λ off.
          Triple-weaken
            (finish-Triple h (AtWork id e₀ j₀ g₀ k) (IsCancelled id j₀ k)
              (λ e j g. IsCancelled id j₀ k e j g × (g ≡ on_guard idle none))
              (Uncancelled id e₀ j₀ g₀) k cancelled none refl (λ e j g p. inl p.0)
              (λ e j g p. inr (k, p)) (λ e j g p. inr (k, p.0)) (λ e j g p. (p.1, p.2, p.3, refl))
              (λ e j g p. (p, refl)))
            (λ b p. p) (λ _ b p. (k, inr p)) (λ b p. p)

  -- Only the named job that is queued, downloading or verifying is cancelled. If the call returns, the
  -- worker runs and the journal and the guard are left to it, or the job is cancelled and the guard
  -- idle. If it raises or is cut at any point, they and the environment are as they were, or the job is cancelled.
  pub cancel-Triple :
      Triple
        (On (Same e₀ j₀ g₀))
        (cancel h id)
        (λ _. On (Cancels id e₀ j₀ g₀))
        (On (Uncancelled id e₀ j₀ g₀))
  unfolding cancel
  cancel-Triple = Triple-bind (found-Triple (Uncancelled id e₀ j₀ g₀) (λ e j g p. inl p)) λ found.
      Triple-bind (Triple-raise_if (not (is_named id found)) _ (λ b p. inl p.0)) λ _.
        Triple-bind (Triple-raise_if (not (is_cancellable found)) _ (λ b p. inl p.0.0)) λ _.
          Triple-bind {Q = λ k. On (AtWork id e₀ j₀ g₀ k)}
            (Triple-required found (λ b p. inl p.0.0.0)
              (λ k at b p. Ready-AtWork found k b.env b.journal b.guard p.0.0 p.0.1 p.1 at))
            λ k.
              Triple-bind
                (write_atomic-Triple h (AtWork id e₀ j₀ g₀ k) (Uncancelled id e₀ j₀ g₀)
                  (λ e j g p. inl p.0) (AtWork id e₀ j₀ g₀ k) _ (λ b p. p) (λ e j g p. inl p.0))
                λ _.
                  Triple-bind
                    (worker_active-Triple h (AtWork id e₀ j₀ g₀ k) (Uncancelled id e₀ j₀ g₀)
                      (λ e j g p. inl p.0))
                    λ running. Triple-bind (end_here-Triple k running) λ _.
                      Triple-weaken
                        (view-Triple f (Cancels id e₀ j₀ g₀) (Uncancelled id e₀ j₀ g₀) left_so
                          false)
                        (λ b p. p) (λ _ b p. p) (λ b p. p)
    where
      left_so : Implies (Cancels id e₀ j₀ g₀) (Uncancelled id e₀ j₀ g₀)
      left_so e j g (k, inl p) = inl p.0
      left_so e j g (k, inr p) = inr (k, p.0)
