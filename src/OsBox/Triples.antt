-- ===== src/OsBox/Triples.antt =====
-- Rules to reason about actions one call at a time. `Triple P m Q X`: run from a box with `P`, the
-- action `m` returns a value and a box with `Q`, or raises or is cut in a box with `X`.
use epilykos_os.Base.{◌≡◌, refl, Bool, true, false, if◌then◌else◌, Option, none, some}
use epilykos_os.OsBox.State.{Box}
use epilykos_os.OsBox.Machine.{
  Error, Outcome, done, raised, cut, Action, ◌>>=◌, pure, raise, raise_if, try_except, try_else,
}
use epilykos_os.OsBox.Calls.{required}

abbrev pub Ends : {A : Type 0} → (A → Box → Type 0) → (Box → Type 0) → Outcome A → Box → Type 0
Ends Q X (done a) b = Q a b
Ends Q X (raised _) b = X b
Ends Q X cut b = X b

pub record Triple {A : Type 0} (P : Box → Type 0) (m : Action A) (Q : A → Box → Type 0)
    (X : Box → Type 0) : Type 0 where
  pub at : (b : Box) → P b → Ends Q X (m b).0 (m b).1

-- An action that keeps `P`, however it ends.
abbrev pub Keeps : {A : Type 0} → (Box → Type 0) → Action A → Type 0
Keeps P m = Triple P m (λ _. P) P

module _ {A : Type 0} {P : Box → Type 0} {Q : A → Box → Type 0} {X : Box → Type 0} where
  pub Triple-pure : (a : A) → ((b : Box) → P b → Q a b) → Triple P (pure a) Q X
  Triple-pure a h = record { at = h }

  pub Triple-raise : (e : Error) → ((b : Box) → P b → X b) → Triple P (raise e) Q X
  Triple-raise e h = record { at = h }

  pub Triple-required :
      (o : Option A)
      → ((b : Box) → P b → X b)
      → ((a : A) → o ≡ some a → (b : Box) → P b → Q a b)
      → Triple P (required o) Q X
  Triple-required none h k = record { at = h }
  Triple-required (some a) h k = record { at = k a refl }

  pub Triple-if :
      (c : Bool) (m n : Action A)
      → (c ≡ true → Triple P m Q X)
      → (c ≡ false → Triple P n Q X)
      → Triple P (if c then m else n) Q X
  Triple-if true m n h k = h refl
  Triple-if false m n h k = k refl

  -- A fact that holds beside the predicate, about no box.
  pub Triple-given :
      {F : Type 0} {m : Action A} → ((f : F) → Triple P m Q X) → Triple (λ b. P b × F) m Q X
  Triple-given k = record { at = λ b p. (k p.1).at b p.0 }

-- Weaker endings.
Ends-weaken :
    {A : Type 0} {X X' : Box → Type 0} (Q Q' : A → Box → Type 0)
    → ((a : A) (b : Box) → Q' a b → Q a b)
    → ((b : Box) → X' b → X b)
    → (o : Outcome A) (b : Box) → Ends Q' X' o b
    → Ends Q X o b
Ends-weaken Q Q' q x (done a) b h = q a b h
Ends-weaken Q Q' q x (raised e) b h = x b h
Ends-weaken Q Q' q x cut b h = x b h

pub Triple-weaken :
    {A : Type 0} {P P' X X' : Box → Type 0} {Q Q' : A → Box → Type 0} {m : Action A}
    → Triple P' m Q' X'
    → ((b : Box) → P b → P' b)
    → ((a : A) (b : Box) → Q' a b → Q a b)
    → ((b : Box) → X' b → X b)
    → Triple P m Q X
Triple-weaken {X} {X'} {Q} {Q'} {m} t p q x = record {
  at = λ b h. Ends-weaken {X = X} {X' = X'} Q Q' q x (m b).0 (m b).1 (t.at b (p b h));
}

bind-Ends :
    {A B : Type 0} (X : Box → Type 0) (Q : A → Box → Type 0) (R : B → Box → Type 0)
    (f : A → Action B)
    → ((a : A) → Triple (Q a) (f a) R X)
    → (o : Outcome A) (b : Box) → Ends Q X o b
    → let (o', b') = ((λ _. (o, b)) >>= f) b in Ends R X o' b'
bind-Ends X Q R f k (done a) b h = (k a).at b h
bind-Ends X Q R f k (raised e) b h = h
bind-Ends X Q R f k cut b h = h

try-Ends :
    {A : Type 0} (Q : A → Box → Type 0) (X Y : Box → Type 0) (handler : Error → Action A)
    → ((e : Error) → Triple Y (handler e) Q X)
    → ((b : Box) → Y b → X b)
    → (o : Outcome A) (b : Box) → Ends Q Y o b
    → let (o', b') = try_except (λ _. (o, b)) handler b in Ends Q X o' b'
try-Ends Q X Y handler k x (done a) b h = h
try-Ends Q X Y handler k x (raised e) b h = (k e).at b h
try-Ends Q X Y handler k x cut b h = x b h

else-Ends :
    {A B : Type 0} (Q : A → Box → Type 0) (R : B → Box → Type 0) (X Y : Box → Type 0)
    (k : A → Action B) (handler : Error → Action B)
    → ((a : A) → Triple (Q a) (k a) R X)
    → ((e : Error) → Triple Y (handler e) R X)
    → ((b : Box) → Y b → X b)
    → (o : Outcome A) (b : Box) → Ends Q Y o b
    → let (o', b') = try_else (λ _. (o, b)) k handler b in Ends R X o' b'
else-Ends Q R X Y k handler tk th x (done a) b h = (tk a).at b h
else-Ends Q R X Y k handler tk th x (raised e) b h = (th e).at b h
else-Ends Q R X Y k handler tk th x cut b h = x b h

always-Ends :
    {A : Type 0} (X : Box → Type 0) (o : Outcome A) (b : Box) → Ends {A = A} (λ _. X) X o b → X b
always-Ends X (done a) b h = h
always-Ends X (raised e) b h = h
always-Ends X cut b h = h

module _ {A B : Type 0} {P : Box → Type 0} {X : Box → Type 0} where
  pub Triple-bind :
      {Q : A → Box → Type 0} {R : B → Box → Type 0} {m : Action A} {f : A → Action B}
      → Triple P m Q X
      → ((a : A) → Triple (Q a) (f a) R X)
      → Triple P (m >>= f) R X
  Triple-bind {Q} {R} {m} {f} t k = record {
    at = λ b h. bind-Ends X Q R f k (m b).0 (m b).1 (t.at b h);
  }

module _ {P : Box → Type 0} {X : Box → Type 0} where
  pub Triple-raise_if :
      (c : Bool) (e : Error)
      → ((b : Box) → P b → X b)
      → Triple P (raise_if c e) (λ _ b. P b × (c ≡ false)) X
  Triple-raise_if true e h = record { at = h }
  Triple-raise_if false e h = record { at = λ b p. (p, refl) }

module _ {A : Type 0} {P : Box → Type 0} {Q : A → Box → Type 0} {X : Box → Type 0} where
  pub Triple-try_except :
      {Y : Box → Type 0} {m : Action A} {handler : Error → Action A}
      → Triple P m Q Y
      → ((e : Error) → Triple Y (handler e) Q X)
      → ((b : Box) → Y b → X b)
      → Triple P (try_except m handler) Q X
  Triple-try_except {Y} {m} {handler} t k x = record {
    at = λ b h. try-Ends Q X Y handler k x (m b).0 (m b).1 (t.at b h);
  }

-- The rest of the function may end in another way than the `try` block.
module _ {A B : Type 0} {P : Box → Type 0} {R : B → Box → Type 0} {X : Box → Type 0} where
  pub Triple-try_else :
      {Q : A → Box → Type 0} {Y : Box → Type 0} {m : Action A} {k : A → Action B}
      {handler : Error → Action B}
      → Triple P m Q Y
      → ((a : A) → Triple (Q a) (k a) R X)
      → ((e : Error) → Triple Y (handler e) R X)
      → ((b : Box) → Y b → X b)
      → Triple P (try_else m k handler) R X
  Triple-try_else {Q} {Y} {m} {k} {handler} t tk th x = record {
    at = λ b h. else-Ends Q R X Y k handler tk th x (m b).0 (m b).1 (t.at b h);
  }

-- What holds however an action ends.
pub Triple-always :
    {A : Type 0} {P X : Box → Type 0} {m : Action A}
    → Triple P m (λ _. X) X
    → (b : Box) → P b
    → X (m b).1
Triple-always {X} {m} t b h = always-Ends X (m b).0 (m b).1 (t.at b h)
