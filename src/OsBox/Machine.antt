-- ===== src/OsBox/Machine.antt =====
-- Python functions over the box: they return, raise, or are cut by a power failure, which no
-- handler catches. What was written before stays written.
use epilykos_os.Base.{ℕ, zero, suc, Bool, true, false}
use epilykos_os.OsBox.State.{Box, Message}

-- The exceptions by class. `other_error` is one that no handler names (KeyError, ValueError).
pub data Error : Type 0 where
  os_update_error : Message → Error
  trust_error : Message → Error
  storage_error : Message → Error
  os_error : Error
  other_error : Error

pub data Outcome (A : Type 0) : Type 0 where
  done : A → Outcome A
  raised : Error → Outcome A
  cut : Outcome A

abbrev pub Action : Type 0 → Type 0
Action A = Box → Outcome A × Box

infixl 5 ◌>>=◌ ◌>>◌
abbrev pub ◌>>=◌ : {A B : Type 0} → Action A → (A → Action B) → Action B
◌>>=◌ m f b =
    let (o, b') = m b in elim o [ done a ↦ f a b' | raised e ↦ (raised e, b') | cut ↦ (cut, b') ]

abbrev pub ◌>>◌ : {A B : Type 0} → Action A → Action B → Action B
m >> k = m >>= λ _. k

abbrev pub pure : {A : Type 0} → A → Action A
pure a b = (done a, b)

abbrev pub raise : {A : Type 0} → Error → Action A
raise e b = (raised e, b)

-- `try: m  except ...: handler`; the handler raises again what its `except` line does not name.
abbrev pub try_except : {A : Type 0} → Action A → (Error → Action A) → Action A
try_except m handler b =
    let (o, b') = m b in
    elim o [ done a ↦ (done a, b') | raised e ↦ handler e b' | cut ↦ (cut, b') ]

-- The same with the rest of the function, `k`, outside of the `try`; the handler ends the function.
abbrev pub try_else : {A B : Type 0} → Action A → (A → Action B) → (Error → Action B) → Action B
try_else m k handler b =
    let (o, b') = m b in elim o [ done a ↦ k a b' | raised e ↦ handler e b' | cut ↦ (cut, b') ]

-- `if test: raise e`
abbrev pub raise_if : Bool → Error → Action (Unit {0})
raise_if true e b = (raised e, b)
raise_if false e b = (done tt, b)

abbrev pub gets : {A : Type 0} → (Box → A) → Action A
gets f b = (done (f b), b)

-- A write or an outside call, the power permitting. The calls left number the call.
abbrev pub spend_of : {A : Type 0} → ℕ → Action A → Action A
spend_of zero m b = (cut, b)
spend_of (suc n) m b = m (record b { power = n })

abbrev pub spend : {A : Type 0} → Action A → Action A
spend m b = spend_of b.power m b
