-- ===== src/OsDownload/Retries.antt =====
-- How often `download` asks the server.
use epilykos_os.Base.{
  ℕ, suc, ◌+◌, ◌≤◌, ◌≡◌, ◌≢◌, ◌⊎◌, inl, inr, refl, ◌∙◌, [], Bool, if◌then◌else◌, List, ◌==◌, length,
  Result, ok, err, arith,
}
use epilykos_os.OsDownload.{
  Server, Staged, Response, Failure, network, kept_failing, os_failure, end_transfer, transfer,
}
use epilykos_os.OsDownload.Attempts.{Filing, attempts, download}
use epilykos_os.OsDownload.Received.{receive-failed}
use epilykos_os.OsDownload.Transfers.{transfer-rule}
use epilykos_os.OsDownload.Tries.{attempts-rule, download-rule}

-- One request, and not the exception that only `download` raises.
abbrev Once : ℕ → Result Failure (Unit {0}) → Staged → Type 0
Once before r s = (s.requests ≡ suc before) × (r ≢ err kept_failing)

end_transfer-failed :
    (size : ℕ) (r : Response) (res : Result Failure ℕ)
    → res ≢ err kept_failing
    → end_transfer size r res ≢ err kept_failing
end_transfer-failed size r (err e) h = λ e'. h (ground (arith, e'))
end_transfer-failed size r (ok n) h = ended r.sync_fails (n == size) r.last_save_fails
  where
    ended :
        (a b c : Bool)
        → ◌≢◌ {A = Result Failure (Unit {0})}
            (if a
              then err os_failure
              else (if b then (if c then err os_failure else ok tt) else err network))
            (err kept_failing)
    ended a b c e = ground (arith, e)

transfer-Once :
    (ask : Server) (size : ℕ) (s : Staged)
    → Once s.requests (transfer ask size s).0 (transfer ask size s).1
transfer-Once ask size s =
    transfer-rule ask size s (Once s.requests)
      (λ e s' n k same count whole. (count, λ h. k (failure e h))) (refl, λ h. ground (arith, h))
      (refl, λ h. ground (arith, h))
      (λ r at is. (refl, end_transfer-failed size r _ (receive-failed size r.body 0 [])))
      (λ r offset v q at is m.
        (refl, end_transfer-failed size r _ (receive-failed size r.body (length s.part) s.part)))
  where
    failure :
        (e : Failure)
        → ◌≡◌ {A = Result Failure (Unit {0})} (err e) (err kept_failing)
        → e ≡ kept_failing
    failure e h = ground (arith, h)

-- At most `total` requests, all of them where it gives up; no network error is left.
abbrev pub Asked : {A : Type 0} → ℕ → Result Failure A → Staged → Type 0
Asked total r s =
    (s.requests ≤ total) × (r ≢ err network) × ((r ≢ err kept_failing) ⊎ (s.requests ≡ total))

attempts-Asked :
    (ask : Server) (size n : ℕ) (s : Staged)
    → Asked (s.requests + suc n) (attempts ask size (suc n) s).0 (attempts ask size (suc n) s).1
attempts-Asked ask size n s =
    attempts-rule ask size (λ k s'. s'.requests + suc k ≡ s.requests + suc n)
      (λ k r s'. (s'.requests + k ≡ s.requests + suc n) × (r ≢ err kept_failing))
      (Asked (s.requests + suc n))
      (λ k s' i. let t = transfer-Once ask size s' in (omega (arith, t.0, i), t.1))
      (λ s' t. (omega (arith, t.0), λ h. ground (arith, h), inr (omega (arith, t.0))))
      (λ k s' t. t.0) (λ k r s' e t. (omega (arith, t.0), e, inl t.1)) n s refl

-- With DOWNLOAD_ATTEMPTS at least one: whatever the server answers, a download ends after at most so
-- many requests. It never ends with the network error that it retries, and it gives up only after
-- all of them.
pub download-Asked :
    (ask : Server) (f : Filing) (n size : ℕ) (s : Staged)
    → Asked (s.requests + suc n) (download ask f (suc n) size s).0 (download ask f (suc n) size s).1
download-Asked ask f n size s =
    download-rule ask f (suc n) size s (Asked (s.requests + suc n))
      (omega arith, λ h. ground (arith, h), inl (λ h. ground (arith, h)))
      (λ bytes at fits. (omega arith, λ h. ground (arith, h), inl (λ h. ground (arith, h))))
      (λ e is.
        let a = attempts-Asked ask size n s in
        (a.0, λ h. a.1 (is ∙ given e network h), asked e is a.2))
      (λ is.
        let a = attempts-Asked ask size n s in
        (
          (a.0, λ h. ground (arith, h), inl (λ h. ground (arith, h))),
          (a.0, λ h. ground (arith, h), inl (λ h. ground (arith, h))),
          (a.0, λ h. ground (arith, h), inl (λ h. ground (arith, h))),
        ))
  where
    given :
        (e x : Failure)
        → ◌≡◌ {A = Result Failure (List ℕ)} (err e) (err x)
        → ◌≡◌ {A = Result Failure (Unit {0})} (err e) (err x)
    given e x h = ground (arith, h)

    asked :
        (e : Failure)
        → (attempts ask size (suc n) s).0 ≡ err e
        → ((attempts ask size (suc n) s).0 ≢ err kept_failing)
          ⊎ ((attempts ask size (suc n) s).1.requests ≡ s.requests + suc n)
        → (◌≢◌ {A = Result Failure (List ℕ)} (err e) (err kept_failing))
          ⊎ ((attempts ask size (suc n) s).1.requests ≡ s.requests + suc n)
    asked e is (inl other) = inl λ h. other (is ∙ given e kept_failing h)
    asked e is (inr all) = inr all
