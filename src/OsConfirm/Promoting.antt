-- ===== src/OsConfirm/Promoting.antt =====
-- The phases of a trial: `activated`, `confirming`, and `promoting` in one batch with the floor.
use epilykos_os.Base.{
  ℕ, ◌≡◌, refl, sym, ◌∙◌, ap, true, false, not, Option, some, [], ◌∷◌, arith, ◌≤◌, max, subst, ◌==◌,
}
use epilykos_os.OsBox.{
  Slot, Env, activated, confirming, promoting, Journal, Guard, SameRecord, assign_all, Host,
  IsFaithful, is_phase, pure, Predicate, On, Implies, set_phase, set_floor, Triple, Triple-pure,
  Triple-bind, Triple-weaken, Triple-given, Triple-if, Triple-required, Triple-raise_if,
  set_env-Triple, mark_good-Triple, set_env,
}
use epilykos_os.OsConfirm.{or_zero, to_confirming, to_promoting, raise_floor}
use epilykos_os.OsConfirm.Trial.{
  InTrial, stored_confirming, stored_promoting, leb-max, le_max, is_last,
}

module _ {h : Host} (f : IsFaithful h) (id seq : ℕ) (slot : Slot) (n : ℕ) where
  abbrev S : Predicate
  S = InTrial id seq slot n

  -- The trial, with an environment that was read.
  abbrev SeenAs : Env → Predicate
  SeenAs v e j g = S e j g × (v ≡ e)

  pub to_confirming-Triple :
      (v : Env)
      → Triple
          (On (SeenAs v))
          (to_confirming h v)
          (λ w. On λ e j g. SeenAs w e j g × (is_phase e.phase activated ≡ false))
          (On S)
  unfolding to_confirming
  to_confirming-Triple v =
      Triple-if (is_phase v.phase activated) (set_env h (set_phase (some confirming) ∷ [])) (pure v)
        (λ yes.
          Triple-weaken
            (set_env-Triple f (SeenAs v) S (λ e j g p. p.0) S (set_phase (some confirming) ∷ [])
              (λ e j g p. p) (λ e j g p. p.0) (λ e j g p. ground (arith, p)))
            (λ b p. p) (λ w b p. ((p.0, p.1), stored_confirming _ p.2.0)) (λ b p. p))
        λ no. Triple-pure v λ b p. (p, ground (arith, p))

  -- The trial, with the floor that was read.
  abbrev Floored : Env → Predicate
  Floored v e j g = S e j g × (e.floor ≡ v.floor)

  floored_S : (v : Env) → Implies (Floored v) S
  floored_S v e j g p = p.0

  stored :
      (v : Env) (floor : ℕ) (at : v.floor ≡ some floor) (e : Env) (j : Journal) (g : Option Guard)
      → Floored v e j g
      → S (assign_all (set_floor (some (max floor seq)) ∷ set_phase (some promoting) ∷ []) e) j g
  stored v floor at e j g (p, same) = (
    p.0,
    p.1,
    p.2,
    p.3,
    refl,
    leb-max seq floor,
    le_max n floor seq (subst (λ o. n ≤ or_zero o) (same ∙ at) p.6),
  )

  store_floor-Triple :
      (v : Env) (floor : ℕ)
      → v.floor ≡ some floor
      → Triple
          (On (Floored v))
          (set_env h (set_floor (some (max floor seq)) ∷ set_phase (some promoting) ∷ []))
          (λ w. On λ e j g. SeenAs w e j g × (is_phase e.phase promoting ≡ true))
          (On S)
  store_floor-Triple v floor at =
      Triple-weaken
        (set_env-Triple f (Floored v) S (floored_S v) S
          (set_floor (some (max floor seq)) ∷ set_phase (some promoting) ∷ []) (λ e j g p. p)
          (floored_S v) (λ e j g p. stored v floor at e j g p))
        (λ b p. p) (λ w b p. ((p.0, p.1), stored_promoting _ p.2.1.0)) (λ b p. p)

  marked :
      (v e e' : Env) (j : Journal) (g : Option Guard)
      → SameRecord e e'
      → SeenAs v e j g
      → Floored v e' j g
  marked v e e' j g r p = (rw (r.0, r.1, r.3, r.5, r.6, r.7) p.0, r.7 ∙ ap (λ v. v.floor) (sym p.1))

  raise_floor-Triple :
      (v : Env)
      → Triple
          (On λ e j g. SeenAs v e j g × (is_phase e.phase activated ≡ false))
          (raise_floor h slot seq v)
          (λ w. On λ e j g. SeenAs w e j g × (is_phase e.phase promoting ≡ true))
          (On S)
  unfolding raise_floor
  raise_floor-Triple v =
      Triple-bind
        (mark_good-Triple f (λ e j g. SeenAs v e j g × (is_phase e.phase activated ≡ false)) S
          (λ e j g p. p.0.0) (Floored v) slot (floored_S v)
          (λ e e' j g r p. marked v e e' j g r p.0))
        λ code.
          Triple-bind
            (Triple-weaken (Triple-raise_if (not (code == 0)) _ (λ b p. p.0)) (λ b p. p)
              (λ _ b p. p.0) (λ b p. p))
            λ _.
              Triple-bind {Q = λ floor b. On (Floored v) b × (v.floor ≡ some floor)}
                (Triple-required v.floor (λ b p. p.0) (λ a e b p. (p, e)))
                λ floor. Triple-given (store_floor-Triple v floor)

  -- The floor is the larger of the two, whatever it was.
  pub to_promoting-Triple :
      (v : Env)
      → Triple
          (On λ e j g. SeenAs v e j g × (is_phase e.phase activated ≡ false))
          (to_promoting h slot seq v)
          (λ w. On λ e j g. SeenAs w e j g × (is_phase e.phase promoting ≡ true))
          (On S)
  unfolding to_promoting
  to_promoting-Triple v =
      Triple-if (is_phase v.phase confirming) (raise_floor h slot seq v) (pure v)
        (λ yes. raise_floor-Triple v)
        λ no. Triple-pure v λ b p. (
          p.0,
          is_last b.env.phase p.0.0.4 p.1
              (subst (λ v. is_phase v.phase confirming ≡ false) p.0.1 no),
        )
