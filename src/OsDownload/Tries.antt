-- ===== src/OsDownload/Tries.antt =====
-- The ways in which `download` ends, by those of its attempts.
use epilykos_os.Base.{
  suc, zero, ◌≡◌, ◌≢◌, refl, Bool, true, false, if◌then◌else◌, Option, none, some, List, [], ◌==◌,
  subst, length, Result, ok, err, ℕ, arith,
}
use epilykos_os.OsDownload.{
  Server, Staged, Failure, network, os_failure, answered_code, transfer, kept_failing, too_large,
  stopped, no_headroom,
}
use epilykos_os.OsDownload.Attempts.{
  Filing, fetch, unless_there, download, move_final, attempts, or_again,
}

-- The `except` line: the last attempt, another one, and what it does not name.
or_again-rule :
    (again : Staged → Result Failure (Unit {0}) × Staged)
    (R : Result Failure (Unit {0}) → Staged → Type 0) (n : ℕ) (result : Result Failure (Unit {0}))
    (s : Staged)
    → (result ≡ err network → n ≡ 0 → R (err kept_failing) s)
    → ((m : ℕ) → result ≡ err network → n ≡ suc m → R (again s).0 (again s).1)
    → (result ≢ err network → R result s)
    → R (or_again again result n s).0 (or_again again result n s).1
or_again-rule again R zero (err network) s last next other = last refl refl
or_again-rule again R (suc n) (err network) s last next other = next n refl refl
or_again-rule again R n (ok _) s last next other = other (λ e. ground (arith, e))
or_again-rule again R n (err too_large) s last next other = other (λ e. ground (arith, e))
or_again-rule again R n (err kept_failing) s last next other = other (λ e. ground (arith, e))
or_again-rule again R n (err stopped) s last next other = other (λ e. ground (arith, e))
or_again-rule again R n (err os_failure) s last next other = other (λ e. ground (arith, e))
or_again-rule again R n (err (answered_code c)) s last next other = other (λ e. ground (arith, e))
or_again-rule again R n (err (no_headroom x)) s last next other = other (λ e. ground (arith, e))

-- The loop over the attempts: `Tried` is what a transfer makes of `Inv`, with the attempts that are
-- left.
module _ (ask : Server) (size : ℕ) (Inv : ℕ → Staged → Type 0)
    (Tried : ℕ → Result Failure (Unit {0}) → Staged → Type 0)
    (R : Result Failure (Unit {0}) → Staged → Type 0)
    (step : (n : ℕ) (s : Staged)
      → Inv n s
      → Tried n (transfer ask size s).0 (transfer ask size s).1)
    (last : (s : Staged) → Tried 0 (err network) s → R (err kept_failing) s)
    (next : (n : ℕ) (s : Staged) → Tried (suc n) (err network) s → Inv n s)
    (other : (n : ℕ) (r : Result Failure (Unit {0})) (s : Staged)
      → r ≢ err network
      → Tried n r s
      → R r s) where
  -- With at least one attempt.
  pub attempts-rule :
      (n : ℕ) (s : Staged)
      → Inv n s
      → R (attempts ask size (suc n) s).0 (attempts ask size (suc n) s).1
  unfolding attempts
  attempts-rule zero s i =
      or_again-rule (attempts ask size 0) R 0 (transfer ask size s).0 (transfer ask size s).1
        (λ e z. last _ (subst (λ r. Tried 0 r (transfer ask size s).1) e (step 0 s i)))
        (λ m e z. absurd (ground (arith, z))) (λ e. other 0 _ _ e (step 0 s i))
  attempts-rule (suc n) s i =
      or_again-rule (attempts ask size (suc n)) R (suc n) (transfer ask size s).0
        (transfer ask size s).1 (λ e z. absurd (ground (arith, z)))
        (λ m e z.
          attempts-rule n _
            (next n _ (subst (λ r. Tried (suc n) r (transfer ask size s).1) e (step (suc n) s i))))
        (λ e. other (suc n) _ _ e (step (suc n) s i))

-- The part under the final name.
abbrev pub filed : Staged → Staged
filed s = record s { part = []; final = some s.part }

-- The ways in which `download` ends.
module _ (ask : Server) (f : Filing) (tries size : ℕ) (s : Staged)
    (R : Result Failure (List ℕ) → Staged → Type 0) (blocked : R (err os_failure) s)
    (there : (bytes : List ℕ)
      → s.final ≡ some bytes
      → (length bytes == size) ≡ true
      → R (ok bytes) s)
    (gave_up : (e : Failure)
      → (attempts ask size tries s).0 ≡ err e
      → R (err e) (attempts ask size tries s).1)
    (tried : (attempts ask size tries s).0 ≡ ok tt
      → let s' = (attempts ask size tries s).1 in
        R (err os_failure) s' × R (err os_failure) (filed s') × R (ok s'.part) (filed s')) where
  abbrev Good : Result Failure (List ℕ) × Staged → Type 0
  Good o = R o.0 o.1

  by_disk :
      (s' : Staged) (a b : Bool)
      → R (err os_failure) s' × R (err os_failure) (filed s') × R (ok s'.part) (filed s')
      → Good (
          if a
          then (err os_failure, s')
          else (if b then (err os_failure, filed s') else (ok s'.part, filed s')))
  by_disk s' true b r = r.0
  by_disk s' false true r = r.1
  by_disk s' false false r = r.2

  moved :
      (r : Result Failure (Unit {0})) (s' : Staged)
      → ((e : Failure) → r ≡ err e → R (err e) s')
      → (r ≡ ok tt
          → R (err os_failure) s' × R (err os_failure) (filed s') × R (ok s'.part) (filed s'))
      → Good (move_final f r s')
  moved (err e) s' raised done = raised e refl
  moved (ok _) s' raised done = by_disk s' f.move_fails f.sync_fails (done refl)

  fetched : Good (fetch ask f tries size s)
  unfolding fetch
  fetched = by_save f.save_fails
    where
      by_save :
          (b : Bool)
          → Good (
              if b
              then (err os_failure, s)
              else (let (result, s') = attempts ask size tries s in move_final f result s'))
      by_save true = blocked
      by_save false = moved _ _ gave_up tried

  pub download-rule : Good (download ask f tries size s)
  unfolding download unless_there
  download-rule = by_layout f.layout_fails
    where
      by_size :
          (bytes : List ℕ) (b : Bool)
          → (length bytes == size) ≡ b
          → s.final ≡ some bytes
          → Good (if b then (ok bytes, s) else fetch ask f tries size s)
      by_size bytes true e at = there bytes at e
      by_size bytes false e at = fetched

      by_final : (o : Option (List ℕ)) → s.final ≡ o → Good (unless_there ask f tries size o s)
      by_final none at = fetched
      by_final (some bytes) at = by_size bytes (length bytes == size) refl at

      by_layout :
          (b : Bool)
          → Good (if b then (err os_failure, s) else unless_there ask f tries size s.final s)
      by_layout true = blocked
      by_layout false = by_final s.final refl
