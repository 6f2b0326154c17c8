-- ===== src/OsBox/EnvRules.antt =====
-- Rules for the calls that read or change the environment: fw_printenv, fw_setenv, the marks of
-- RAUC, and `set_env` and `target_bad`, which read back what they did.
use epilykos_os.Base.{
  subst, ◌≡◌, refl, ◌⊎◌, inl, inr, Bool, true, false, not, Option, some, List, [], ◌∷◌, ◌==◌,
}
use epilykos_os.OsBox.State.{Slot, Env, left, left_of, Journal, Guard}
use epilykos_os.OsBox.Outside.{Update, assign_all, SameRecord, Host, IsFaithful}
use epilykos_os.OsBox.Calls.{
  is_stored, same_number, read_env, fw_setenv, read_back, set_env, mark_bad, mark_active, mark_good,
  target_bad,
}
use epilykos_os.OsBox.Triples.{
  Triple, Triple-pure, Triple-bind, Triple-weaken, Triple-raise_if, Triple-required,
}
use epilykos_os.OsBox.Rules.{
  Predicate, On, Implies, AllStored, spend-Triple, answered-Ends, printed-Ends,
}

-- What a call that changes only the environment does to it.
module _ {h : Host} (f : IsFaithful h) (I X : Predicate) (x : Implies I X) where
  -- The environment that is read is the one that is there.
  pub read_env-Triple : Triple (On I) (read_env h) (λ v. On λ e j g. I e j g × (v ≡ e)) (On X)
  unfolding read_env
  read_env-Triple =
      spend-Triple I X (λ v. On λ e j g. I e j g × (v ≡ e)) _ x
        λ b p.
          printed-Ends (h.fw_printenv b.power b.env) (λ v. On λ e j g. I e j g × (v ≡ e)) (On X) b
            (x _ _ _ p) (λ v e. (p, f.printed b.power b.env e))

  -- A script that is applied whole or not at all.
  pub fw_setenv-Triple :
      (K : Predicate) (us : List Update)
      → Implies K X
      → Implies I K
      → ((e : Env) (j : Journal) (g : Option Guard) → I e j g → K (assign_all us e) j g)
      → Triple (On I) (fw_setenv h us) (λ _. On K) (On X)
  unfolding fw_setenv
  fw_setenv-Triple K us kx same new =
      spend-Triple I X (λ _. On K) _ x
        λ b p.
          let moved : K (h.fw_setenv b.power us b.env).1 b.journal b.guard =
            elim (f.atomic b.power us b.env) [
              | inl e ↦ rw e (same _ _ _ p)
              | inr e ↦ rw e (new _ _ _ p)
            ] in
          answered-Ends X (λ _. On K) (h.fw_setenv b.power us b.env).0
            (record b { env = (h.fw_setenv b.power us b.env).1 }) (kx _ _ _ moved) (λ _. moved)

  -- mark-bad takes attempts away and changes no variable of the update.
  pub mark_bad-Triple :
      (K : Predicate) (s : Slot)
      → Implies K X
      → ((e e' : Env) (j : Journal) (g : Option Guard)
          → SameRecord e e'
          → ((r : Slot) → (left r e' ≡ left r e) ⊎ (left r e' ≡ some 0))
          → I e j g
          → K e' j g)
      → Triple (On I) (mark_bad h s) (λ _. On K) (On X)
  unfolding mark_bad
  mark_bad-Triple K s kx c =
      spend-Triple I X (λ _. On K) _ x
        λ b p.
          let moved : K (h.mark_bad b.power s b.env).1 b.journal b.guard =
            c b.env _ b.journal b.guard (f.bad_record b.power s b.env)
              (λ r. f.bad_left b.power s r b.env) p in
          answered-Ends X (λ _. On K) (h.mark_bad b.power s b.env).0
            (record b { env = (h.mark_bad b.power s b.env).1 }) (kx _ _ _ moved) (λ _. moved)

  -- The other two marks change no variable of the update.
  pub mark_active-Triple :
      (K : Predicate) (s : Slot)
      → Implies K X
      → ((e e' : Env) (j : Journal) (g : Option Guard) → SameRecord e e' → I e j g → K e' j g)
      → Triple (On I) (mark_active h s) (λ _. On K) (On X)
  unfolding mark_active
  mark_active-Triple K s kx c =
      spend-Triple I X (λ _. On K) _ x
        λ b p.
          let moved : K (h.mark_active b.power s b.env).1 b.journal b.guard =
            c b.env _ b.journal b.guard (f.active_record b.power s b.env) p in
          answered-Ends X (λ _. On K) (h.mark_active b.power s b.env).0
            (record b { env = (h.mark_active b.power s b.env).1 }) (kx _ _ _ moved) (λ _. moved)

  pub mark_good-Triple :
      (K : Predicate) (s : Slot)
      → Implies K X
      → ((e e' : Env) (j : Journal) (g : Option Guard) → SameRecord e e' → I e j g → K e' j g)
      → Triple (On I) (mark_good h s) (λ _. On K) (On X)
  unfolding mark_good
  mark_good-Triple K s kx c =
      spend-Triple I X (λ _. On K) _ x
        λ b p.
          let moved : K (h.mark_good b.power s b.env).1 b.journal b.guard =
            c b.env _ b.journal b.guard (f.good_record b.power s b.env) p in
          answered-Ends X (λ _. On K) (h.mark_good b.power s b.env).0
            (record b { env = (h.mark_good b.power s b.env).1 }) (kx _ _ _ moved) (λ _. moved)

not-eq_false : (b : Bool) → not b ≡ false → b ≡ true
not-eq_false true e = refl
not-eq_false false e = cc

-- The read-back of `set_env` returns only if everything is stored.
read_back-Triple :
    (I X : Predicate) (v : Env) (us : List Update)
    → Implies I X
    → Triple (On I) (read_back us v) (λ _ b. On I b × AllStored us v) (On X)
read_back-Triple I X v [] x = record { at = λ b p. (p, tt) }
read_back-Triple I X v (u ∷ us) x =
    Triple-bind {Q = λ _. On λ e j g. I e j g × (not (is_stored u v) ≡ false)}
      (Triple-raise_if (not (is_stored u v)) _ (λ b. x _ _ _))
      λ _.
        Triple-weaken
          (read_back-Triple (λ e j g. I e j g × (not (is_stored u v) ≡ false)) X v us
            (λ e j g p. x e j g p.0))
          (λ b p. p) (λ _ b p. (p.0.0, (not-eq_false _ p.0.1, p.1))) (λ b p. p)

module _ {h : Host} (f : IsFaithful h) (I X : Predicate) (x : Implies I X) where
  -- A batch that was read back is stored, and what was read is the environment.
  pub set_env-Triple :
      (K : Predicate) (us : List Update)
      → Implies K X
      → Implies I K
      → ((e : Env) (j : Journal) (g : Option Guard) → I e j g → K (assign_all us e) j g)
      → Triple (On I) (set_env h us) (λ v. On λ e j g. K e j g × (v ≡ e) × AllStored us e) (On X)
  unfolding set_env
  set_env-Triple K us kx same new = Triple-bind (fw_setenv-Triple f I X x K us kx same new) λ code.
      Triple-bind {Q = λ _. On K}
        (Triple-weaken (Triple-raise_if (not (code == 0)) _ (λ b. kx _ _ _)) (λ b p. p)
          (λ _ b p. p.0) (λ b p. p))
        λ _. Triple-bind (read_env-Triple f K X kx) λ v.
          Triple-bind
            (read_back-Triple (λ e j g. K e j g × (v ≡ e)) X v us (λ e j g p. kx e j g p.0))
            λ _. Triple-pure v λ b p. (p.0.0, p.0.1, subst (AllStored us) p.0.1 p.1)

  -- The target is shown to have no attempts left, or it is not known.
  pub target_bad-Triple :
      (K : Predicate) (target : Option Slot)
      → Implies K X
      → ((e e' : Env) (j : Journal) (g : Option Guard)
          → SameRecord e e'
          → ((r : Slot) → (left r e' ≡ left r e) ⊎ (left r e' ≡ some 0))
          → I e j g
          → K e' j g)
      → Triple
          (On I)
          (target_bad h target)
          (λ bad. On λ e j g. K e j g × (bad ≡ same_number (left_of target e) (some 0)))
          (On X)
  unfolding target_bad
  target_bad-Triple K target kx c =
      Triple-bind
        (Triple-required {Q = λ s. On λ e j g. I e j g × (target ≡ some s)} target (λ b. x _ _ _)
          (λ s e b p. (p, e)))
        λ s.
          Triple-bind
            (mark_bad-Triple f (λ e j g. I e j g × (target ≡ some s)) X (λ e j g p. x e j g p.0)
              (λ e j g. K e j g × (target ≡ some s)) s (λ e j g p. kx e j g p.0)
              (λ e e' j g r l p. (c e e' j g r l p.0, p.1)))
            λ _.
              Triple-bind
                (read_env-Triple f (λ e j g. K e j g × (target ≡ some s)) X
                  (λ e j g p. kx e j g p.0))
                λ v. Triple-pure _ λ b p. (p.0.0, rw (p.0.1, p.1))
