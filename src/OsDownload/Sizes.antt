-- ===== src/OsDownload/Sizes.antt =====
-- The size of what is staged.
use epilykos_os.Base.{
  ℕ, suc, sym, ◌≤◌, ◌≡◌, ◌⊎◌, inl, inr, refl, subst, ◌∙◌, Bool, true, false, if◌then◌else◌, Option,
  some, List, [], ◌==◌, length, Result, ok, err, arith, max,
}
use epilykos_os.OsDownload.{
  Server, Staged, RangeRequest, Response, Failure, network, os_failure, end_transfer, transfer,
}
use epilykos_os.OsDownload.Attempts.{Filing, attempts, download}
use epilykos_os.OsDownload.Received.{TakesAll, Counts, receive-Counts}
use epilykos_os.OsDownload.Transfers.{transfer-rule}
use epilykos_os.OsDownload.Tries.{attempts-rule, download-rule}

-- `os.write` takes each chunk that the server sends whole.
abbrev pub IsWhole : Server → Type 0
IsWhole ask = (n : ℕ) (q : RangeRequest) (r : Response) → ask n q ≡ some r → TakesAll r.body

module _ (size before : ℕ) where
  -- The part is complete where a call returns, and not longer than the package unless it was.
  abbrev Sized : Result Failure (Unit {0}) → Staged → Type 0
  Sized (ok _) s = (length s.part ≡ size) × (length s.part ≤ max size before)
  Sized (err e) s = length s.part ≤ max size before

  end_transfer-Sized :
      (r : Response) (res : Result Failure ℕ) (kept : List ℕ) (s : Staged)
      → length kept ≤ max size before
      → Counts size kept (res, s.part)
      → Sized (end_transfer size r res) s
  end_transfer-Sized r (err e) kept s small h = omega (arith, small, h)
  end_transfer-Sized r (ok n) kept s small (counted, h) =
      ended r.sync_fails (n == size) r.last_save_fails refl
    where
      fits : length s.part ≤ max size before
      fits = omega (arith, small, h)

      ended :
          (a b c : Bool)
          → (n == size) ≡ b
          → Sized
              (if a
                then err os_failure
                else (if b then (if c then err os_failure else ok tt) else err network))
              s
      ended true b c e = fits
      ended false false c e = fits
      ended false true true e = fits
      ended false true false e = (sym counted ∙ ground (arith, e), fits)

  -- With the file under the final name, which a transfer does not touch.
  abbrev Kept : Option (List ℕ) → Result Failure (Unit {0}) → Staged → Type 0
  Kept final r s = Sized r s × (s.final ≡ final)

  transfer-Kept :
      (ask : Server) (s : Staged)
      → IsWhole ask
      → length s.part ≤ max size before
      → Kept s.final (transfer ask size s).0 (transfer ask size s).1
  transfer-Kept ask s whole_writes h =
      transfer-rule ask size s (Kept s.final) (λ e s' n k same count whole. (rw same h, whole))
        (h, refl) (omega arith, refl)
        (λ r at is. (
          end_transfer-Sized r _ [] _ (omega arith)
              (receive-Counts size r.body 0 [] (whole_writes _ _ r at) refl),
          refl,
        ))
        (λ r offset v q at is m. (
          end_transfer-Sized r _ s.part _ h
              (receive-Counts size r.body (length s.part) s.part (whole_writes _ _ r at) refl),
          refl,
        ))

  attempts-Kept :
      (ask : Server) (n : ℕ) (s : Staged)
      → IsWhole ask
      → length s.part ≤ max size before
      → Kept s.final (attempts ask size (suc n) s).0 (attempts ask size (suc n) s).1
  attempts-Kept ask n s whole_writes h =
      attempts-rule ask size (λ n s'. (length s'.part ≤ max size before) × (s'.final ≡ s.final))
        (λ n. Kept s.final) (Kept s.final)
        (λ n s' i. let k = transfer-Kept ask s' whole_writes i.0 in (k.0, k.1 ∙ i.1)) (λ s h. h)
        (λ n s h. h) (λ n r s e h. h) n s (h, refl)

-- The file that is left under the final name: the one that was there, or a complete one.
abbrev Whole : ℕ → Option (List ℕ) → Option (List ℕ) → Type 0
Whole size before after =
    (after ≡ before) ⊎ ((bytes : List ℕ) × (after ≡ some bytes) × (length bytes ≡ size))

abbrev pub Downloads : ℕ → Staged → Result Failure (List ℕ) → Staged → Type 0
Downloads size s (ok bytes) s' =
    (s'.final ≡ some bytes) × (length bytes ≡ size) × (length s'.part ≤ max size (length s.part))
Downloads size s (err e) s' =
    Whole size s.final s'.final × (length s'.part ≤ max size (length s.part))

-- With at least one attempt, and where `os.write` takes each chunk whole: a download that returns names a file of exactly the signed size. One
-- that fails leaves under the final name what was there, or a file of that size. The part is never
-- longer than the package, unless it was longer before.
pub download-Downloads :
    (ask : Server) (f : Filing) (n size : ℕ) (s : Staged)
    → IsWhole ask
    → Downloads size s (download ask f (suc n) size s).0 (download ask f (suc n) size s).1
download-Downloads ask f n size s whole_writes =
    download-rule ask f (suc n) size s (Downloads size s) (inl refl, omega arith)
      (λ bytes at fits. (at, ground (arith, fits), omega arith))
      (λ e is. let k = kept (err e) is in (inl k.1, k.0))
      (λ is.
        let k = kept (ok tt) is in
        ((inl k.1, k.0.1), (inr (_, refl, k.0.0), omega arith), (refl, k.0.0, omega arith)))
  where
    kept :
        (q : Result Failure (Unit {0}))
        → (attempts ask size (suc n) s).0 ≡ q
        → Kept size (length s.part) s.final q (attempts ask size (suc n) s).1
    kept q is =
        subst (λ x. Kept size (length s.part) s.final x (attempts ask size (suc n) s).1) is
          (attempts-Kept size (length s.part) ask n s whole_writes (omega arith))
