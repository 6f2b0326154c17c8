-- ===== src/AppUpdate/Returns.antt =====
-- Rules for what holds where an action returns; of one that raises or is cut they say nothing.
use epilykos_os.Base.{ℕ, zero, suc, Bool, true, false, Option, none, some}
use epilykos_os.AppUpdate.{
  UpdateError, Store, Outside, Write, written, refused, unsynced, Ending, done, raised, cut, Action,
  ◌>>=◌, pure, raise_if, try_except, try_then, try_finally, ending_with, answered, spend_of, spend,
  wrote, removed, write, remove,
}

abbrev pub AtReturn : {A : Type 0} → (A → Store → Type 0) → Ending A × Store → Type 0
AtReturn Q (done a, s) = Q a s
AtReturn Q (raised e, s) = Unit {0}
AtReturn Q (cut, s) = Unit {0}

pub record Returns {A : Type 0} (P : Store → Type 0) (m : Action A) (Q : A → Store → Type 0)
    : Type 0 where
  pub at : (s : Store) → P s → AtReturn Q (m s)

module _ {A : Type 0} (P : Store → Type 0) (Q : A → Store → Type 0) where
  spend_at :
      (m : Action A)
      → ((s : Store) → P s → AtReturn Q (m s))
      → ((s : Store) (n : ℕ) → P s → P (record s { power = n }))
      → (n : ℕ) (s : Store) → P s
      → AtReturn Q (spend_of n m s)
  spend_at m k same zero s p = tt
  spend_at m k same (suc n) s p = k (record s { power = n }) (same s n p)

module _ {A : Type 0} {P : Store → Type 0} {Q : A → Store → Type 0} where
  pub Returns-pure : (a : A) → ((s : Store) → P s → Q a s) → Returns P (pure a) Q
  Returns-pure a k = record { at = k }

  -- The calls left are no part of what holds before.
  pub Returns-spend :
      {m : ℕ → Action A}
      → ((s : Store) (n : ℕ) → P s → P (record s { power = n }))
      → ((n : ℕ) → Returns P (m n) Q)
      → Returns P (spend λ s. m s.power s) Q
  Returns-spend {m = m} same k = record {
    at = λ s p. spend_at P Q (λ t. m t.power t) (λ t q. (k t.power).at t q) same s.power s p;
  }

module _ {A B : Type 0} where
  bind_at :
      (Q : A → Store → Type 0) (R : B → Store → Type 0) (f : A → Action B)
      → ((a : A) → Returns (Q a) (f a) R)
      → (o : Ending A) (t : Store) → AtReturn Q (o, t)
      → AtReturn R (((λ _. (o, t)) >>= f) t)
  bind_at Q R f k (done a) t q = (k a).at t q
  bind_at Q R f k (raised e) t q = tt
  bind_at Q R f k cut t q = tt

  then_at :
      (Q : A → Store → Type 0) (R : B → Store → Type 0) (f : A → Action B)
      (handler : UpdateError → Action B)
      → ((a : A) → Returns (Q a) (f a) R)
      → ((e : UpdateError) → Returns (λ _. Unit {0}) (handler e) R)
      → (o : Ending A) (t : Store) → AtReturn Q (o, t)
      → AtReturn R (try_then (λ _. (o, t)) f handler t)
  then_at Q R f handler k l (done a) t q = (k a).at t q
  then_at Q R f handler k l (raised e) t q = (l e).at t tt
  then_at Q R f handler k l cut t q = tt

module _ {A B : Type 0} {P : Store → Type 0} where
  pub Returns-bind :
      {Q : A → Store → Type 0} {R : B → Store → Type 0} {m : Action A} {f : A → Action B}
      → Returns P m Q
      → ((a : A) → Returns (Q a) (f a) R)
      → Returns P (m >>= f) R
  Returns-bind {Q = Q} {R = R} {m = m} {f = f} p k = record {
    at = λ s q. bind_at Q R f k (m s).0 (m s).1 (p.at s q);
  }

  pub Returns-try_then :
      {Q : A → Store → Type 0} {R : B → Store → Type 0} {m : Action A} {f : A → Action B}
      {handler : UpdateError → Action B}
      → Returns P m Q
      → ((a : A) → Returns (Q a) (f a) R)
      → ((e : UpdateError) → Returns (λ _. Unit {0}) (handler e) R)
      → Returns P (try_then m f handler) R
  Returns-try_then {Q = Q} {R = R} {m = m} {f = f} {handler = handler} p k l = record {
    at = λ s q. then_at Q R f handler k l (m s).0 (m s).1 (p.at s q);
  }

except_at :
    {A : Type 0} (Q : A → Store → Type 0) (handler : UpdateError → Action A)
    → ((e : UpdateError) → Returns (λ _. Unit {0}) (handler e) Q)
    → (o : Ending A) (t : Store) → AtReturn Q (o, t)
    → AtReturn Q (try_except (λ _. (o, t)) handler t)
except_at Q handler l (done a) t q = q
except_at Q handler l (raised e) t q = (l e).at t tt
except_at Q handler l cut t q = tt

module _ {A : Type 0} {P : Store → Type 0} {Q : A → Store → Type 0} where
  pub Returns-try_except :
      {m : Action A} {handler : UpdateError → Action A}
      → Returns P m Q
      → ((e : UpdateError) → Returns (λ _. Unit {0}) (handler e) Q)
      → Returns P (try_except m handler) Q
  Returns-try_except {m = m} {handler = handler} p l = record {
    at = λ s q. except_at Q handler l (m s).0 (m s).1 (p.at s q);
  }

last_at :
    {A : Type 0} (Q : A → Store → Type 0) (a : A) (r : Ending (Unit {0}) × Store)
    → AtReturn (λ _. Q a) r
    → AtReturn Q (ending_with (done a) r)
last_at Q a (done _, t) q = q
last_at Q a (raised e, t) q = tt
last_at Q a (cut, t) q = tt

still_raised :
    {A : Type 0} (Q : A → Store → Type 0) (e : UpdateError) (r : Ending (Unit {0}) × Store)
    → AtReturn Q (ending_with (raised e) r)
still_raised Q e (done _, t) = tt
still_raised Q e (raised f, t) = tt
still_raised Q e (cut, t) = tt

finally_at :
    {A : Type 0} (Q : A → Store → Type 0) (k : Action (Unit {0}))
    → ((a : A) → Returns (Q a) k (λ _. Q a))
    → (o : Ending A) (t : Store) → AtReturn Q (o, t)
    → AtReturn Q (try_finally (λ _. (o, t)) k t)
finally_at Q k l (done a) t q = last_at Q a (k t) ((l a).at t q)
finally_at Q k l (raised e) t q = still_raised Q e (k t)
finally_at Q k l cut t q = tt

module _ {A : Type 0} {P : Store → Type 0} {Q : A → Store → Type 0} where
  pub Returns-try_finally :
      {m : Action A} {k : Action (Unit {0})}
      → Returns P m Q
      → ((a : A) → Returns (Q a) k (λ _. Q a))
      → Returns P (try_finally m k) Q
  Returns-try_finally {m = m} {k = k} p l = record {
    at = λ s q. finally_at Q k l (m s).0 (m s).1 (p.at s q);
  }

  pub Returns-answered :
      (o : Option A) → ((a : A) (s : Store) → P s → Q a s) → Returns P (answered o) Q
  Returns-answered none k = record { at = λ s p. tt }
  Returns-answered (some a) k = record { at = k a }

nothing_at : {A : Type 0} (r : Ending A × Store) → AtReturn (λ _ _. Unit {0}) r
nothing_at (done a, s) = tt
nothing_at (raised e, s) = tt
nothing_at (cut, s) = tt

-- Nothing has to hold.
pub Returns-nothing :
    {A : Type 0} {P : Store → Type 0} {m : Action A} → Returns P m (λ _ _. Unit {0})
Returns-nothing {m = m} = record { at = λ s p. nothing_at (m s) }

module _ {P : Store → Type 0} {Q : Unit {0} → Store → Type 0} where
  pub Returns-raise_if :
      (b : Bool) (e : UpdateError) → ((s : Store) → P s → Q tt s) → Returns P (raise_if b e) Q
  Returns-raise_if true e k = record { at = λ s p. tt }
  Returns-raise_if false e k = record { at = k }

module _ (P : Store → Type 0) (Q : Unit {0} → Store → Type 0) (h : Outside) (f : Store → Store)
    (k : (s : Store) (n : ℕ) → P s → Q tt (f (record s { power = n }))) where
  wrote_at : (n : ℕ) (d : Write) (s : Store) → P s → AtReturn Q (wrote d f (record s { power = n }))
  wrote_at n written s p = k s n p
  wrote_at n refused s p = tt
  wrote_at n unsynced s p = tt

  removed_at :
      (n : ℕ) (d : Write) (s : Store) → P s → AtReturn Q (removed h d f (record s { power = n }))
  removed_at n written s p = k s n p
  removed_at n refused s p = tt
  removed_at n unsynced s p = k s n p

  write_at :
      (n : ℕ) (s : Store) → P s → AtReturn Q (spend_of n (λ t. wrote (h.writes t.power) f t) s)
  write_at zero s p = tt
  write_at (suc n) s p = wrote_at n (h.writes n) s p

  remove_at :
      (n : ℕ) (s : Store) → P s → AtReturn Q (spend_of n (λ t. removed h (h.writes t.power) f t) s)
  remove_at zero s p = tt
  remove_at (suc n) s p = removed_at n (h.writes n) s p

module _ {P : Store → Type 0} {Q : Unit {0} → Store → Type 0} (h : Outside) (f : Store → Store)
    (k : (s : Store) (n : ℕ) → P s → Q tt (f (record s { power = n }))) where
  pub Returns-write : Returns P (write h f) Q
  unfolding write
  Returns-write = record { at = λ s p. write_at P Q h f k s.power s p }

  pub Returns-remove : Returns P (remove h f) Q
  unfolding remove
  Returns-remove = record { at = λ s p. remove_at P Q h f k s.power s p }
