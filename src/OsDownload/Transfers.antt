-- ===== src/OsDownload/Transfers.antt =====
-- The ways in which `_transfer` ends, as one rule.
use epilykos_os.Base.{
  length, suc, ◌≡◌, ◌≢◌, refl, Bool, true, false, if◌then◌else◌, Option, none, some, List, [], ◌==◌,
  same_codes?, Result, err, ℕ, Text,
}
use epilykos_os.OsDownload.{
  Server, Staged, Response, RangeRequest, Failure, network, os_failure, answered_code, with_part,
  receive, end_transfer, store, start_again, resume, range_text, by_code, by_answer, request_for,
  validator_of, transfer, kept_failing,
}

-- The state when the response is there.
abbrev pub counted : Staged → Staged
counted s = record s { requests = suc s.requests }

module _ (ask : Server) (size : ℕ) (s : Staged)
    (R : Result Failure (Unit {0}) → Staged → Type 0) where
  -- The exceptions that no attempt follows leave the part alone.
  abbrev pub Failed : Type 0
  Failed =
      (e : Failure) (s' : Staged)
      → e ≢ network
      → e ≢ kept_failing
      → s'.part ≡ s.part
      → s'.requests ≡ suc s.requests
      → s'.final ≡ s.final
      → R (err e) s'

  -- The loop over a response, from the bytes that are kept and with the record as it was saved.
  abbrev Looped : Response → List ℕ → Staged → Type 0
  Looped r kept s' =
      R (end_transfer size r (receive size r.body (length kept) kept).0)
        (with_part (receive size r.body (length kept) kept).1 s')

  abbrev pub Anew : Type 0
  Anew =
      (r : Response)
      → ask s.requests (request_for size s) ≡ some r
      → (r.code == 200) ≡ true
      → Looped r []
          (record (counted s) { validator = validator_of r; saved_validator = validator_of r })

  abbrev pub Continued : Type 0
  Continued =
      (r : Response) (offset : ℕ) (v : Text)
      → request_for size s ≡ some (offset, v)
      → ask s.requests (request_for size s) ≡ some r
      → (r.code == 206) ≡ true
      → same_codes? r.content_range (range_text offset size) ≡ true
      → Looped r s.part (counted s)

  module _ (failed : Failed) (unanswered : R (err network) (counted s))
      (emptied : R (err network) (with_part [] (counted s))) (anew : Anew)
      (continued : Continued) where
    abbrev Fine : Result Failure (Unit {0}) × Staged → Type 0
    Fine o = R o.0 o.1

    stored :
        (r : Response) (kept : List ℕ) (s' : Staged)
        → s'.part ≡ s.part
        → s'.requests ≡ suc s.requests
        → s'.final ≡ s.final
        → Looped r kept s'
        → Fine (store size r kept s')
    unfolding store
    stored r kept s' same count whole fine = opened r.open_fails
      where
        opened :
            (b : Bool)
            → Fine (
                if b then (err os_failure, s') else (
                  end_transfer size r (receive size r.body (length kept) kept).0,
                  with_part (receive size r.body (length kept) kept).1 s',
                ))
        opened true = failed os_failure s' (λ e. cc) (λ e. cc) same count whole
        opened false = fine

    started_again :
        (r : Response)
        → ask s.requests (request_for size s) ≡ some r
        → (r.code == 200) ≡ true
        → Fine (start_again size r (counted s))
    unfolding start_again
    started_again r at is = saved r.save_fails
      where
        saved :
            (b : Bool)
            → Fine (
                if b
                then (err os_failure, record (counted s) { validator = validator_of r })
                else store size r [] (record (counted s) {
                  validator = validator_of r;
                  saved_validator = validator_of r;
                }))
        saved true = failed os_failure _ (λ e. cc) (λ e. cc) refl refl refl
        saved false = stored r [] _ refl refl refl (anew r at is)

    resumed :
        (r : Response) (offset : ℕ) (v : Text)
        → request_for size s ≡ some (offset, v)
        → ask s.requests (request_for size s) ≡ some r
        → (r.code == 206) ≡ true
        → Fine (resume size r offset (counted s))
    unfolding resume
    resumed r offset v q at is = matched (same_codes? r.content_range (range_text offset size)) refl
      where
        matched :
            (b : Bool)
            → same_codes? r.content_range (range_text offset size) ≡ b
            → Fine (
                if b
                then store size r s.part (counted s)
                else (if r.truncate_fails
                    then (err os_failure, counted s)
                    else (err network, with_part [] (counted s))))
        matched true e = stored r s.part (counted s) refl refl refl (continued r offset v q at is e)
        matched false e = by_truncate r.truncate_fails
          where
            by_truncate :
                (b : Bool)
                → Fine (
                    if b
                    then (err os_failure, counted s)
                    else (err network, with_part [] (counted s)))
            by_truncate true = failed os_failure (counted s) (λ e. cc) (λ e. cc) refl refl refl
            by_truncate false = emptied

    -- Any other status than the two.
    refused_code :
        (r : Response) (b : Bool)
        → (r.code == 200) ≡ b
        → ask s.requests (request_for size s) ≡ some r
        → Fine
            (if b then start_again size r (counted s) else (err (answered_code r.code), counted s))
    refused_code r true e at = started_again r at e
    refused_code r false e at =
        failed (answered_code r.code) (counted s) (λ e. cc) (λ e. cc) refl refl refl

    continued_code :
        (r : Response) (offset : ℕ) (v : Text) (b : Bool)
        → (r.code == 206) ≡ b
        → request_for size s ≡ some (offset, v)
        → ask s.requests (request_for size s) ≡ some r
        → Fine (
            if b
            then resume size r offset (counted s)
            else (if r.code == 200
                then start_again size r (counted s)
                else (err (answered_code r.code), counted s)))
    continued_code r offset v true e q at = resumed r offset v q at e
    continued_code r offset v false e q at = refused_code r (r.code == 200) refl at

    answered :
        (r : Response) (q : RangeRequest)
        → request_for size s ≡ q
        → ask s.requests (request_for size s) ≡ some r
        → Fine (by_code size r q (counted s))
    unfolding by_code
    answered r none q at = refused_code r (r.code == 200) refl at
    answered r (some (offset, v)) q at = continued_code r offset v (r.code == 206) refl q at

    pub transfer-rule : Fine (transfer ask size s)
    unfolding transfer by_answer
    transfer-rule = by_server (ask s.requests (request_for size s)) refl
      where
        by_server :
            (o : Option Response)
            → ask s.requests (request_for size s) ≡ o
            → Fine (by_answer size (request_for size s) o (counted s))
        by_server none e = unanswered
        by_server (some r) e = answered r (request_for size s) refl e
