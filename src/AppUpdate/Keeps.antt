-- ===== src/AppUpdate/Keeps.antt =====
-- Rules for actions that keep a predicate of the stored floor, however they end.
use epilykos_os.Base.{ℕ, zero, suc, Bool, true, false, Option, none, some, Result, ok, err}
use epilykos_os.AppUpdate.{
  UpdateError, Store, Outside, Write, written, refused, unsynced, Ending, done, raised, cut, Action,
  ◌>>=◌, pure, raise, try_except, try_then, try_finally, ending_with, change, raise_if, spend_of,
  spend, wrote, answered, write, removed, remove, compatible,
}

-- An action that keeps a predicate of the stored floor, however it ends.
pub record Keeps {A : Type 0} (Q : Option ℕ → Type 0) (m : Action A) : Type 0 where
  pub at : (s : Store) → Q s.stored_floor → Q (m s).1.stored_floor

last_end :
    {A : Type 0} (Q : Option ℕ → Type 0) (o : Ending A) (r : Ending (Unit {0}) × Store)
    → Q r.1.stored_floor
    → Q (ending_with o r).1.stored_floor
last_end Q o (done _, t) q = q
last_end Q o (raised e, t) q = q
last_end Q o (cut, t) q = q

module _ {Q : Option ℕ → Type 0} where
  pub Keeps-pure : {A : Type 0} (a : A) → Keeps Q (pure a)
  Keeps-pure a = record { at = λ s q. q }

  pub Keeps-raise : {A : Type 0} (e : UpdateError) → Keeps {A = A} Q (raise e)
  Keeps-raise e = record { at = λ s q. q }

  pub Keeps-raise_if : (b : Bool) (e : UpdateError) → Keeps Q (raise_if b e)
  Keeps-raise_if true e = record { at = λ s q. q }
  Keeps-raise_if false e = record { at = λ s q. q }

  pub Keeps-answered : {A : Type 0} (o : Option A) → Keeps Q (answered o)
  Keeps-answered none = record { at = λ s q. q }
  Keeps-answered (some a) = record { at = λ s q. q }

  pub Keeps-compatible : {A : Type 0} (r : Result _ A) → Keeps Q (compatible r)
  Keeps-compatible (ok a) = record { at = λ s q. q }
  Keeps-compatible (err e) = record { at = λ s q. q }

  bind_end :
      {A B : Type 0} (f : A → Action B)
      → ((a : A) → Keeps Q (f a))
      → (o : Ending A) (t : Store) → Q t.stored_floor
      → Q (((λ _. (o, t)) >>= f) t).1.stored_floor
  bind_end f k (done a) t q = (k a).at t q
  bind_end f k (raised e) t q = q
  bind_end f k cut t q = q

  pub Keeps-bind :
      {A B : Type 0} {m : Action A} {f : A → Action B}
      → Keeps Q m
      → ((a : A) → Keeps Q (f a))
      → Keeps Q (m >>= f)
  Keeps-bind {m = m} {f = f} p k = record { at = λ s q. bind_end f k (m s).0 (m s).1 (p.at s q) }

  then_end :
      {A B : Type 0} (f : A → Action B) (handler : UpdateError → Action B)
      → ((a : A) → Keeps Q (f a))
      → ((e : UpdateError) → Keeps Q (handler e))
      → (o : Ending A) (t : Store) → Q t.stored_floor
      → Q (try_then (λ _. (o, t)) f handler t).1.stored_floor
  then_end f handler k p (done a) t q = (k a).at t q
  then_end f handler k p (raised e) t q = (p e).at t q
  then_end f handler k p cut t q = q

  pub Keeps-try_then :
      {A B : Type 0} {m : Action A} {f : A → Action B} {handler : UpdateError → Action B}
      → Keeps Q m
      → ((a : A) → Keeps Q (f a))
      → ((e : UpdateError) → Keeps Q (handler e))
      → Keeps Q (try_then m f handler)
  Keeps-try_then {m = m} {f = f} {handler = handler} p k l = record {
    at = λ s q. then_end f handler k l (m s).0 (m s).1 (p.at s q);
  }

  except_end :
      {A : Type 0} (handler : UpdateError → Action A)
      → ((e : UpdateError) → Keeps Q (handler e))
      → (o : Ending A) (t : Store) → Q t.stored_floor
      → Q (try_except (λ _. (o, t)) handler t).1.stored_floor
  except_end handler p (done a) t q = q
  except_end handler p (raised e) t q = (p e).at t q
  except_end handler p cut t q = q

  pub Keeps-try_except :
      {A : Type 0} {m : Action A} {handler : UpdateError → Action A}
      → Keeps Q m
      → ((e : UpdateError) → Keeps Q (handler e))
      → Keeps Q (try_except m handler)
  Keeps-try_except {m = m} {handler = handler} p l = record {
    at = λ s q. except_end handler l (m s).0 (m s).1 (p.at s q);
  }

  finally_end :
      {A : Type 0} (k : Action (Unit {0}))
      → Keeps Q k
      → (o : Ending A) (t : Store) → Q t.stored_floor
      → Q (try_finally (λ _. (o, t)) k t).1.stored_floor
  finally_end k p (done a) t q = last_end Q (done a) (k t) (p.at t q)
  finally_end k p (raised e) t q = last_end Q (raised e) (k t) (p.at t q)
  finally_end k p cut t q = q

  pub Keeps-try_finally :
      {A : Type 0} {m : Action A} {k : Action (Unit {0})}
      → Keeps Q m
      → Keeps Q k
      → Keeps Q (try_finally m k)
  Keeps-try_finally {m = m} {k = k} p l = record {
    at = λ s q. finally_end k l (m s).0 (m s).1 (p.at s q);
  }

  spend_end :
      {A : Type 0} (m : Action A)
      → Keeps Q m
      → (n : ℕ) (s : Store) → Q s.stored_floor
      → Q (spend_of n m s).1.stored_floor
  spend_end m p zero s q = q
  spend_end m p (suc n) s q = p.at (record s { power = n }) q

  -- A call that is told the power.
  pub Keeps-spend :
      {A : Type 0} {m : ℕ → Action A} → ((n : ℕ) → Keeps Q (m n)) → Keeps Q (spend λ s. m s.power s)
  Keeps-spend {m = m} p = record {
    at = λ s q. spend_end _ (record { at = λ t r. (p t.power).at t r }) s.power s q;
  }

  pub Keeps-change :
      (f : Store → Store)
      → ((s : Store) → Q s.stored_floor → Q (f s).stored_floor)
      → Keeps Q (change f)
  Keeps-change f k = record { at = k }

  module _ (h : Outside) (f : Store → Store)
      (k : (s : Store) → Q s.stored_floor → Q (f s).stored_floor) where
    Keeps-wrote : (d : Write) → Keeps Q (wrote d f)
    Keeps-wrote written = record { at = k }
    Keeps-wrote refused = record { at = λ s q. q }
    Keeps-wrote unsynced = record { at = k }

    Keeps-removed : (d : Write) → Keeps Q (removed h d f)
    Keeps-removed written = record { at = k }
    Keeps-removed refused = record { at = λ s q. q }
    Keeps-removed unsynced = record { at = k }

    pub Keeps-write : Keeps Q (write h f)
    unfolding write
    Keeps-write = Keeps-spend {m = λ n. wrote (h.writes n) f} λ n. Keeps-wrote (h.writes n)

    pub Keeps-remove : Keeps Q (remove h f)
    unfolding remove
    Keeps-remove = Keeps-spend {m = λ n. removed h (h.writes n) f} λ n. Keeps-removed (h.writes n)
