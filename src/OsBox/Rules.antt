-- ===== src/OsBox/Rules.antt =====
-- A rule for each call: what it does to a predicate of the environment, the journal and the guard.
-- Every rule leaves such a predicate alone where the call touches none of the three.
use epilykos_os.Base.{
  ℕ, zero, suc, ◌≡◌, refl, inl, inr, Bool, true, false, not, Option, none, some, List, [], ◌∷◌,
  Bool-cases, ◌==◌,
}
use epilykos_os.OsBox.State.{
  Slot, Env, JobState, is_terminal, Message, Job, Journal, absent, unreadable, holds, GuardState,
  idle, Guard, Box,
}
use epilykos_os.OsBox.Machine.{Error, Outcome, done, raised, cut, Action, spend, spend_of, raise_if}
use epilykos_os.OsBox.Outside.{
  Reply, no_answer, exit, Update, Disk, written, refused, unsynced, Host,
}
use epilykos_os.OsBox.Calls.{
  wrote, removed, is_active, is_stored, answered, journal, journal_job, known_slot, enter, started,
  printed, booted_slot, layout, write_atomic, remove, save, set_guard, finish, release_job,
  worker_active, start_worker, reboot,
}
use epilykos_os.OsBox.Triples.{Ends, Triple, Triple-bind}

abbrev pub Predicate : Type 1
Predicate = Env → Journal → Option Guard → Type 0

abbrev pub On : Predicate → Box → Type 0
On I b = I b.env b.journal b.guard

-- `I` implies `K` everywhere.
abbrev pub Implies : Predicate → Predicate → Type 0
Implies I K = (e : Env) (j : Journal) (g : Option Guard) → I e j g → K e j g

abbrev pub on_guard : GuardState → Option ℕ → Option Guard
on_guard state job = some (record { state = state; job = job })

-- Everything in the list is stored.
abbrev pub AllStored : List Update → Env → Type 0
AllStored [] e = Unit {0}
AllStored (u ∷ us) e = (is_stored u e ≡ true) × AllStored us e

spend-Ends :
    {A : Type 0} (I X : Predicate) (Q : A → Box → Type 0) (m : Action A)
    → Implies I X
    → ((b : Box) → On I b → Ends Q (On X) (m b).0 (m b).1)
    → (n : ℕ) (b : Box) → On I b
    → let (o, b') = spend_of n m b in Ends Q (On X) o b'
spend-Ends I X Q m x t zero b p = x _ _ _ p
spend-Ends I X Q m x t (suc k) b p = t (record b { power = k }) p

pub spend-Triple :
    {A : Type 0} (I X : Predicate) (Q : A → Box → Type 0) (m : Action A)
    → Implies I X
    → ((b : Box) → On I b → Ends Q (On X) (m b).0 (m b).1)
    → Triple (On I) (spend m) Q (On X)
spend-Triple I X Q m x t = record { at = λ b p. spend-Ends I X Q m x t b.power b p }

-- A call that leaves the box as it is keeps every predicate.
steady-Ends :
    {A : Type 0} (Q X : Box → Type 0) (r : Outcome A × Box) (b : Box)
    → r.1 ≡ b
    → Q b
    → X b
    → Ends (λ _. Q) X r.0 r.1
steady-Ends Q X (done a, b') b e q x = rw e q
steady-Ends Q X (raised a, b') b e q x = rw e x
steady-Ends Q X (cut, b') b e q x = rw e x

pub reads-Triple :
    {A : Type 0} (I X : Predicate) (m : Action A)
    → Implies I X
    → ((b : Box) → (m b).1 ≡ b)
    → Triple (On I) m (λ _. On I) (On X)
reads-Triple I X m x same = record {
  at = λ b p. steady-Ends (On I) (On X) (m b) b (same b) p (x _ _ _ p);
}

pub looks-Triple :
    {A : Type 0} (I X : Predicate) (m : Action A)
    → Implies I X
    → ((b : Box) → (m b).1 ≡ b)
    → Triple (On I) (spend m) (λ _. On I) (On X)
looks-Triple I X m x same =
    spend-Triple I X (λ _. On I) m x λ b p. steady-Ends (On I) (On X) (m b) b (same b) p (x _ _ _ p)

pub answered-Ends :
    (X : Predicate) (Q : ℕ → Box → Type 0) (r : Reply) (b : Box)
    → On X b
    → ((n : ℕ) → Q n b)
    → Ends Q (On X) (answered r) b
answered-Ends X Q no_answer b p q = p
answered-Ends X Q (exit n) b p q = q n

raise_if-Ends :
    (c : Bool) (e : Error) (Q : Unit {0} → Box → Type 0) (X : Box → Type 0) (b : Box)
    → Q tt b
    → X b
    → let (o, b') = raise_if c e b in Ends Q X o b'
raise_if-Ends true e Q X b q x = x
raise_if-Ends false e Q X b q x = q

wrote-Ends :
    (d : Disk) (change : Box → Box) (Q X : Box → Type 0) (b : Box)
    → X b
    → X (change b)
    → Q (change b)
    → let (o, b') = wrote d change b in Ends (λ _. Q) X o b'
wrote-Ends written change Q X b x y q = q
wrote-Ends refused change Q X b x y q = x
wrote-Ends unsynced change Q X b x y q = y

removed-Ends :
    (d : Disk) (change : Box → Box) (Q X : Box → Type 0) (b : Box)
    → X b
    → Q (change b)
    → let (o, b') = removed d change b in Ends (λ _. Q) X o b'
removed-Ends written change Q X b x q = q
removed-Ends refused change Q X b x q = x
removed-Ends unsynced change Q X b x q = q

is_active-Ends :
    (r : Reply) (Q X : Box → Type 0) (b : Box)
    → X b
    → Q b
    → let (o, b') = is_active r b in Ends (λ _. Q) X o b'
is_active-Ends no_answer Q X b x q = x
is_active-Ends (exit n) Q X b x q = q

pub printed-Ends :
    (r : Option Env) (Q : Env → Box → Type 0) (X : Box → Type 0) (b : Box)
    → X b
    → ((v : Env) → r ≡ some v → Q v b)
    → let (o, b') = printed r b in Ends Q X o b'
printed-Ends none Q X b x q = x
printed-Ends (some v) Q X b x q = q v refl

started-Ends :
    (r : Reply) (Q X : Box → Type 0) (b : Box)
    → X b
    → Q (record b { worker_asked = true })
    → X b
    → let (o, b') = started r b in Ends (λ _. Q) X o b'
started-Ends no_answer Q X b x q y = x
started-Ends (exit n) Q X b x q y = elim (Bool-cases (n == 0)) [ inl e ↦ rw e q | inr e ↦ rw e y ]

-- The job of a readable journal.
abbrev pub held : Journal → Option Job
held (holds j) = some j
held _ = none

journal-Ends :
    (j : Journal) (Q : Option Job → Box → Type 0) (X : Box → Type 0) (b : Box)
    → X b
    → Q (held j) b
    → let (o, b') = journal_job j b in Ends Q X o b'
journal-Ends absent Q X b x q = q
journal-Ends unreadable Q X b x q = x
journal-Ends (holds j) Q X b x q = q

booted_slot-Ends :
    (s : Option Slot) (Q : Slot → Box → Type 0) (X : Box → Type 0) (b : Box)
    → X b
    → ((t : Slot) → s ≡ some t → Q t b)
    → let (o, b') = known_slot s b in Ends Q X o b'
booted_slot-Ends none Q X b x q = x
booted_slot-Ends (some s) Q X b x q = q s refl

module _ (h : Host) (I X : Predicate) (x : Implies I X) where
  pub layout-Triple : Triple (On I) (layout h) (λ _. On I) (On X)
  unfolding layout
  layout-Triple =
      spend-Triple I X (λ _. On I) _ x
        λ b p. raise_if-Ends (not (h.layout_usable b.power)) _ (λ _. On I) (On X) b p (x _ _ _ p)

  -- A write of the durable state may be refused, or be reported as failed although it was made.
  pub write_atomic-Triple :
      (K : Predicate) (change : Box → Box)
      → ((b : Box) → On I b → On K (change b))
      → Implies K X
      → Triple (On I) (write_atomic h change) (λ _. On K) (On X)
  unfolding write_atomic
  write_atomic-Triple K change c k =
      spend-Triple I X (λ _. On K) _ x
        λ b p.
          wrote-Ends (h.disk b.power) change (On K) (On X) b (x _ _ _ p) (k _ _ _ (c b p)) (c b p)

  pub remove_to-Triple :
      (K : Predicate) (change : Box → Box)
      → ((b : Box) → On I b → On K (change b))
      → Triple (On I) (remove h change) (λ _. On K) (On X)
  unfolding remove
  remove_to-Triple K change c =
      spend-Triple I X (λ _. On K) _ x
        λ b p. removed-Ends (h.disk b.power) change (On K) (On X) b (x _ _ _ p) (c b p)

  pub remove-Triple :
      (change : Box → Box)
      → ((b : Box) → On I b → On I (change b))
      → Triple (On I) (remove h change) (λ _. On I) (On X)
  remove-Triple = remove_to-Triple I

  pub save-Triple :
      (K : Predicate) (job : Job)
      → ((e : Env) (j : Journal) (g : Option Guard) → I e j g → K e (holds job) g)
      → Implies K X
      → Triple (On I) (save h job) (λ _. On K) (On X)
  unfolding save
  save-Triple K job c k =
      Triple-bind layout-Triple λ _. write_atomic-Triple K _ (λ b p. c _ _ _ p) k

  pub set_guard-Triple :
      (K : Predicate) (state : GuardState) (job : Option ℕ)
      → ((e : Env) (j : Journal) (g : Option Guard) → I e j g → K e j (on_guard state job))
      → Implies K X
      → Triple (On I) (set_guard h state job) (λ _. On K) (On X)
  unfolding set_guard
  set_guard-Triple K state job c k =
      Triple-bind layout-Triple λ _. write_atomic-Triple K _ (λ b p. c _ _ _ p) k

  pub worker_active-Triple : Triple (On I) (worker_active h) (λ _. On I) (On X)
  unfolding worker_active
  worker_active-Triple =
      spend-Triple I X (λ _. On I) _ x
        λ b p. is_active-Ends (h.is_active b.power) (On I) (On X) b (x _ _ _ p) p

  pub start_worker-Triple : Triple (On I) (start_worker h) (λ _. On I) (On X)
  unfolding start_worker
  start_worker-Triple =
      spend-Triple I X (λ _. On I) _ x
        λ b p. started-Ends (h.start_worker b.power) (On I) (On X) b (x _ _ _ p) p (x _ _ _ p)

  pub reboot-Triple : Triple (On I) (reboot h) (λ _. On I) (On X)
  unfolding reboot
  reboot-Triple =
      spend-Triple I X (λ _. On I) _ x
        λ b p.
          answered-Ends X (λ _. On I) (h.reboot b.power) (record b { reboot_asked = true })
            (x _ _ _ p) (λ _. p)

  -- What `journal` returns is what the journal holds.
  pub journal-Triple :
      Triple (On I) journal (λ found. On λ e j g. I e j g × (held j ≡ found)) (On X)
  unfolding journal
  journal-Triple = record { at = λ b p. journal-Ends b.journal _ (On X) b (x _ _ _ p) (p, refl) }

  pub booted_slot-Triple : Triple (On I) booted_slot (λ s b. On I b × (b.slot ≡ some s)) (On X)
  unfolding booted_slot
  booted_slot-Triple = record {
    at = λ b p. booted_slot-Ends b.slot _ (On X) b (x _ _ _ p) (λ t e. (p, e));
  }

release-Triple :
    (h : Host) (K G X : Predicate) (id : ℕ) (terminal : Bool)
    → terminal ≡ true
    → Implies K X
    → Implies G X
    → ((e : Env) (j : Journal) (g : Option Guard) → K e j g → G e j (on_guard idle none))
    → Triple (On K) (release_job h id terminal) (λ _. On G) (On X)
unfolding release_job
release-Triple h K G X id true t kx gx d =
    Triple-bind (remove-Triple h K X kx _ (λ b p. p))
      λ _. set_guard-Triple h K X kx G idle none d gx
release-Triple h K G X id false t kx gx d = cc

module _ (h : Host) (I K G X : Predicate) where
  -- `finish` with a state that ends the job: `K` once the job is saved, `G` with the guard idle.
  pub finish-Triple :
      (job : Job) (state : JobState) (error : Option Message)
      → is_terminal state ≡ true
      → Implies I X
      → Implies K X
      → Implies G X
      → ((e : Env) (j : Journal) (g : Option Guard)
          → I e j g
          → K e (holds (enter state error job)) g)
      → ((e : Env) (j : Journal) (g : Option Guard) → K e j g → G e j (on_guard idle none))
      → Triple (On I) (finish h job state error) (λ _. On G) (On X)
  unfolding finish release_job
  finish-Triple job state error t ix kx gx c d =
      Triple-bind (save-Triple h I X ix K (enter state error job) c kx)
        λ _. release-Triple h K G X job.id (is_terminal state) t kx gx d
