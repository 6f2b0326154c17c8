-- ===== src/OsUpdate/Slots.antt =====
-- The slot checks of epilykos_os_update.py: what `verify_target`, `fail_install` and
-- `complete_install` do to the environment, the journal and the guard.
use epilykos_os.Base.{
  ℕ, ◌≡◌, refl, Bool, true, false, not, Option, none, some, List, Result, ok, err,
}
use epilykos_os.OsBox.{
  Job, Box, Error, Host, IsFaithful, Predicate, On, Implies, Triple, Triple-bind, Triple-weaken,
  Triple-raise_if, Triple-required, reads-Triple, looks-Triple, read_env-Triple,
}
use epilykos_os.OsUpdate.{
  platform, settled, device_bytes, read_device, is_unbootable, verify_target,
}

pub settled_box : {A : Type 0} (r : Result Error A) (b : Box) → (settled r b).1 ≡ b
settled_box (ok a) b = refl
settled_box (err e) b = refl

device_box : (r : Option (List ℕ)) (b : Box) → (device_bytes r b).1 ≡ b
device_box none b = refl
device_box (some l) b = refl

pub not-eq_false : (b : Bool) → not b ≡ false → b ≡ true
not-eq_false true e = refl
not-eq_false false e = cc

module _ {h : Host} (f : IsFaithful h) (I X : Predicate) (x : Implies I X) where
  pub settled-Triple :
      {A : Type 0} (r : Result Error A) → Triple (On I) (settled r) (λ _. On I) (On X)
  settled-Triple r = reads-Triple I X (settled r) x (settled_box r)

  pub settled_at-Triple :
      {A : Type 0} (r : Box → Result Error A)
      → Triple (On I) (λ b. settled (r b) b) (λ _. On I) (On X)
  settled_at-Triple r = reads-Triple I X _ x (λ b. settled_box (r b) b)

  pub platform-Triple : Triple (On I) (platform h) (λ _. On I) (On X)
  unfolding platform
  platform-Triple = reads-Triple I X _ x (λ b. settled_box (h.platform b.power) b)

  -- A check that returns has seen the target without attempts, and the source first in the order.
  pub verify_target-Triple :
      (job : Job)
      → Triple
          (On I)
          (verify_target h job)
          (λ _. On λ e j g. I e j g × (is_unbootable job e ≡ true))
          (On X)
  unfolding verify_target read_device
  verify_target-Triple job =
      let seen : Predicate = λ e j g. I e j g × (is_unbootable job e ≡ true) in
      let left_seen : Implies seen X = λ e j g p. x e j g p.0 in
      Triple-bind (read_env-Triple f I X x) λ v.
        Triple-bind {Q = λ _. On seen}
          (Triple-weaken (Triple-raise_if (not (is_unbootable job v)) _ (λ b p. x _ _ _ p.0))
            (λ b p. p) (λ _ b p. (p.0.0, rw (← p.0.1) (not-eq_false _ p.1))) (λ b p. p))
          λ _.
            Triple-bind {Q = λ _. On seen}
              (Triple-required job.image (λ b. left_seen _ _ _) (λ a e b p. p))
              λ image.
                Triple-bind {Q = λ _. On seen}
                  (Triple-required image.size (λ b. left_seen _ _ _) (λ a e b p. p))
                  λ size.
                    Triple-bind {Q = λ _. On seen}
                      (Triple-required job.target (λ b. left_seen _ _ _) (λ a e b p. p))
                      λ slot.
                        Triple-bind {Q = λ _. On seen}
                          (looks-Triple seen X _ left_seen
                            (λ b. device_box (h.device b.power slot) b))
                          λ bytes.
                            Triple-weaken (Triple-raise_if _ _ (λ b. left_seen _ _ _)) (λ b p. p)
                              (λ _ b p. p.0) (λ b p. p)
