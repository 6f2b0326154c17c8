-- ===== src/AppUpdate/State.antt =====
-- The files of the updater on DATA, the process's own flags, and what it asks of the outside. A call
-- is told how many are left before the power fails.
use epilykos_os.Base.{
  ℕ, zero, suc, max, Bool, true, false, ◌==◌, leb, if◌then◌else◌, Option, none, some, [], ◌∷◌, ◌&&◌,
  ◌||◌, is_digit, Text,
}
use epilykos_os.AppUpdate.Manifest.{UpdateError, other_error, Candidate, Verifier}

-- current.json and previous.json, and what baseline() gives.
pub record AppRelease : Type 0 where
  pub release : Text
  pub sequence : ℕ
  pub digest : Text
  pub image_id : Text

-- What `current` returns; the baseline has no active.env.
pub data Chosen : Type 0 where
  promoted baseline : AppRelease → Chosen

abbrev pub release_of : Chosen → AppRelease
release_of (promoted r) = r
release_of (baseline r) = r

-- active.env
pub record Active : Type 0 where
  pub image_id : Text
  pub sequence : ℕ
  pub release : Text

-- `re.sub(r'[^A-Za-z0-9.+_-]', '', release)`
abbrev pub is_plain : ℕ → Bool
is_plain c =
    is_digit c
    || (leb b'A' c && leb c b'Z')
    || (leb b'a' c && leb c b'z')
    || c == b'.'
    || c == b'+'
    || c == b'_'
    || c == b'-'

abbrev pub plain : Text → Text
plain [] = []
plain (c ∷ s) = let rest = plain s in if is_plain c then c ∷ rest else rest

abbrev pub active_of : Chosen → Option Active
active_of (promoted r) =
    some (record { image_id = r.image_id; sequence = r.sequence; release = plain r.release })
active_of (baseline r) = none

pub data JobState : Type 0 where
  downloading starting : JobState

pub record AppJob : Type 0 where
  pub state : JobState
  pub release : Text
  pub sequence : ℕ
  pub digest : Text

-- result.json: `failed` has the error, whether the old version is back, and the release.
pub data UpdateResult : Type 0 where
  installed : Text → ℕ → UpdateResult
  failed : UpdateError → Bool → Text → UpdateResult

-- verified.json: the bytes that were verified, and their signature.
pub record Verified : Type 0 where
  pub manifest : Text
  pub signature : Text

-- A file that is missing or unreadable is none. `running` is the event _running, `held` the
-- maintenance lease.
pub record Store : Type 0 where
  pub power : ℕ
  pub current : Option AppRelease
  pub previous : Option AppRelease
  pub stored_floor : Option ℕ
  pub active : Option Active
  pub job : Option AppJob
  pub result : Option UpdateResult
  pub verified : Option Verified
  pub attempt : Option ℕ
  pub running : Bool
  pub held : Bool

-- Whether a write ends well, ends before the file is replaced, or raises after it.
pub data Write : Type 0 where
  written refused unsynced : Write

-- podman, systemctl, the disk, the release server and the lease, by the calls that are left. A
-- command that does not answer is none, else its exit status and output.
pub record Outside : Type 0 where
  pub base : AppRelease
  pub verifier : Verifier
  pub writes : ℕ → Write
  pub pull : ℕ → Candidate → Option ℕ
  pub inspect_image : ℕ → Candidate → Option (ℕ × Text)
  pub inspect_app : ℕ → Option (ℕ × Text)
  pub restart : ℕ → Option ℕ
  pub remove_image : ℕ → Text → Option ℕ
  pub fetch : ℕ → Option Verified
  pub acquire : ℕ → Bool
  pub start_thread : ℕ → Bool

pub data Ending (A : Type 0) : Type 0 where
  done : A → Ending A
  raised : UpdateError → Ending A
  cut : Ending A

abbrev pub Action : Type 0 → Type 0
Action A = Store → Ending A × Store

infixl 5 ◌>>=◌ ◌>>◌
abbrev pub ◌>>=◌ : {A B : Type 0} → Action A → (A → Action B) → Action B
◌>>=◌ m f s =
    let (o, t) = m s in elim o [ done a ↦ f a t | raised e ↦ (raised e, t) | cut ↦ (cut, t) ]

abbrev pub ◌>>◌ : {A B : Type 0} → Action A → Action B → Action B
m >> k = m >>= λ _. k

abbrev pub pure : {A : Type 0} → A → Action A
pure a s = (done a, s)

abbrev pub raise : {A : Type 0} → UpdateError → Action A
raise e s = (raised e, s)

abbrev pub try_except : {A : Type 0} → Action A → (UpdateError → Action A) → Action A
try_except m handler s =
    let (o, t) = m s in elim o [ done a ↦ (done a, t) | raised e ↦ handler e t | cut ↦ (cut, t) ]

-- The rest of the block runs with other locals for the handler.
abbrev pub try_then :
    {A B : Type 0} → Action A → (A → Action B) → (UpdateError → Action B) → Action B
try_then m k handler s =
    let (o, t) = m s in elim o [ done a ↦ k a t | raised e ↦ handler e t | cut ↦ (cut, t) ]

-- How a block ends whose `finally` ended like this.
abbrev pub ending_with : {A : Type 0} → Ending A → Ending (Unit {0}) × Store → Ending A × Store
ending_with o (done _, s) = (o, s)
ending_with o (raised e, s) = (raised e, s)
ending_with o (cut, s) = (cut, s)

-- `try: m  finally: k`; a power failure ends everything.
abbrev pub try_finally : {A : Type 0} → Action A → Action (Unit {0}) → Action A
try_finally m k s =
    let (o, t) = m s in
    elim o [
      | done a ↦ ending_with (done a) (k t)
      | raised e ↦ ending_with (raised e) (k t)
      | cut ↦ (cut, t)
    ]

abbrev pub change : (Store → Store) → Action (Unit {0})
change f s = (done tt, f s)

abbrev pub raise_if : Bool → UpdateError → Action (Unit {0})
raise_if true e s = (raised e, s)
raise_if false e s = (done tt, s)

abbrev pub spend_of : {A : Type 0} → ℕ → Action A → Action A
spend_of zero m s = (cut, s)
spend_of (suc n) m s = m (record s { power = n })

abbrev pub spend : {A : Type 0} → Action A → Action A
spend m s = spend_of s.power m s

abbrev pub wrote : Write → (Store → Store) → Action (Unit {0})
wrote written f s = (done tt, f s)
wrote refused f s = (raised other_error, s)
wrote unsynced f s = (raised other_error, f s)

abbrev pub answered : {A : Type 0} → Option A → Action A
answered none = raise other_error
answered (some a) = pure a

module _ (h : Outside) where
  -- `_write` and `_write_json`
  unfoldable pub write : (Store → Store) → Action (Unit {0})
  write f = spend λ s. wrote (h.writes s.power) f s

  -- `_remove`: nothing is synced, so it raises only where nothing changed.
  abbrev pub removed : Write → (Store → Store) → Action (Unit {0})
  removed refused f s = (raised other_error, s)
  removed _ f s = (done tt, f s)

  unfoldable pub remove : (Store → Store) → Action (Unit {0})
  remove f = spend λ s. removed (h.writes s.power) f s

  unfoldable pub chosen : Option AppRelease → Chosen
  chosen none = baseline h.base
  chosen (some r) = if leb h.base.sequence r.sequence then promoted r else baseline h.base

  -- `current`
  abbrev pub current_of : Store → Chosen
  current_of s = chosen s.current

  abbrev pub or_zero : Option ℕ → ℕ
  or_zero none = 0
  or_zero (some n) = n

  -- `floor`
  unfoldable pub floor : Store → ℕ
  floor s = max (or_zero s.stored_floor) h.base.sequence

  -- `_set_active`
  unfoldable pub set_active : Chosen → Action (Unit {0})
  unfolding write remove
  set_active (baseline r) = remove λ s. record s { active = none }
  set_active (promoted r) = write λ s. record s { active = active_of (promoted r) }
