-- ===== src/OsDownload/Received.antt =====
-- What the loop of `_transfer` counts and what it makes of the part that it extends.
use epilykos_os.Base.{
  ℕ, zero, suc, ◌+◌, ◌≤◌, ◌≡◌, ◌≢◌, refl, sym, ap, ◌∙◌, Bool, true, false, ltb, arith, max, Option,
  none, some, List, [], ◌∷◌, ◌++◌, length, take, length-append, subst, Result, ok, err,
  if◌then◌else◌,
}
use epilykos_os.Storage.{Usage, check_headroom, StorageError}
use epilykos_os.OsDownload.{
  Failure, Turn, Round, more, over, fails, stopped, too_large, kept_failing, os_failure,
  no_headroom, look_after, read_chunk, round, receive,
}

-- `os.write` takes every chunk whole.
abbrev pub TakesChunk : ℕ → Option (List ℕ) → Type 0
TakesChunk n none = Unit {0}
TakesChunk n (some chunk) = length chunk ≤ n

abbrev pub TakesAll : List Turn → Type 0
TakesAll [] = Unit {0}
TakesAll (t ∷ ts) = TakesChunk t.taken t.chunk × TakesAll ts

length-take_whole : (n : ℕ) (s : List ℕ) → length s ≤ n → length (take n s) ≡ length s
length-take_whole zero [] h = refl
length-take_whole (suc n) [] h = refl
length-take_whole zero (c ∷ s) h = absurd (ground (arith, h))
length-take_whole (suc n) (c ∷ s) h = ap suc (length-take_whole n s (ground (arith, h)))

-- A round that goes on has counted the part's bytes, which fit the package.
abbrev Leaves : ℕ → List ℕ → Round → Type 0
Leaves size part (more n p) = (n ≡ length p) × (length p ≤ size)
Leaves size part over = Unit {0}
Leaves size part (fails e p) = length p ≤ max size (length part)

module _ (size : ℕ) (t : Turn) (part : List ℕ) where
  checked-Leaves :
      (n : ℕ) (p : List ℕ) (r : Result StorageError ℕ) (b : Bool)
      → n ≡ length p
      → length p ≤ size
      → Leaves size part (elim r [
        | err e ↦ fails (no_headroom e) p
        | ok _ ↦ if b then fails os_failure p else more n p
      ])
  checked-Leaves n p (err e) b counted h = omega (arith, h)
  checked-Leaves n p (ok m) true counted h = omega (arith, h)
  checked-Leaves n p (ok m) false counted h = (counted, h)

  look_after-Leaves :
      (n : ℕ) (p : List ℕ) (u : Option Usage) (b : Bool)
      → n ≡ length p
      → length p ≤ size
      → Leaves size part (look_after u b n p)
  look_after-Leaves n p none b counted h = (counted, h)
  look_after-Leaves n p (some u) b counted h = checked-Leaves n p (check_headroom u) b counted h

  -- The two tests before a chunk is written.
  tested-Leaves :
      (n : ℕ) (p : List ℕ) (large bad : Bool)
      → n ≡ length p
      → (large ≡ false → length p ≤ size)
      → Leaves size part (
          if large
          then fails too_large part
          else (if bad then fails os_failure part else look_after t.usage t.save_fails n p))
  tested-Leaves n p true bad counted h = omega arith
  tested-Leaves n p false true counted h = omega arith
  tested-Leaves n p false false counted h =
      look_after-Leaves n p t.usage t.save_fails counted (h refl)

  read_chunk-Leaves :
      (chunk : Option (List ℕ))
      → TakesChunk t.taken chunk
      → Leaves size part (read_chunk size t (length part) part chunk)
  read_chunk-Leaves none whole = omega arith
  read_chunk-Leaves (some []) whole = tt
  read_chunk-Leaves (some (c ∷ cs)) whole =
      tested-Leaves (length part + length (c ∷ cs)) (part ++ take t.taken (c ∷ cs))
        (ltb size (length part + length (c ∷ cs))) t.write_fails (sym grown)
        λ fits. ground (arith, fits, grown)
    where
      grown : length (part ++ take t.taken (c ∷ cs)) ≡ length part + length (c ∷ cs)
      grown =
          length-append part (take t.taken (c ∷ cs))
          ∙ ap (λ k. length part + k) (length-take_whole t.taken (c ∷ cs) whole)

  round-Leaves : TakesChunk t.taken t.chunk → Leaves size part (round size t (length part) part)
  unfolding round
  round-Leaves whole = unless_cancelled t.is_cancelled
    where
      unless_cancelled :
          (b : Bool)
          → Leaves size part
              (if b then fails stopped part else read_chunk size t (length part) part t.chunk)
      unless_cancelled true = omega arith
      unless_cancelled false = read_chunk-Leaves t.chunk whole

-- However the loop ends: the part is never longer than the package, unless it was before, and a loop
-- that returns has counted its bytes.
abbrev pub Counts : ℕ → List ℕ → Result Failure ℕ × List ℕ → Type 0
Counts size part (ok n, p) = (n ≡ length p) × (length p ≤ max size (length part))
Counts size part (err e, p) = length p ≤ max size (length part)

wider :
    (size : ℕ) (part p : List ℕ) (r : Result Failure ℕ × List ℕ)
    → length p ≤ size
    → Counts size p r
    → Counts size part r
wider size part p (ok n, q) h c = (c.0, omega (arith, c.1))
wider size part p (err e, q) h c = omega (arith, c)

pub receive-Counts :
    (size : ℕ) (ts : List Turn) (n : ℕ) (part : List ℕ)
    → TakesAll ts
    → n ≡ length part
    → Counts size part (receive size ts n part)
unfolding receive
receive-Counts size [] n part whole counted = (counted, omega arith)
receive-Counts size (t ∷ ts) n part whole counted =
    by_round (round size t n part)
      (subst (λ k. Leaves size part (round size t k part)) (sym counted)
        (round-Leaves size t part whole.0))
      (λ m p. receive-Counts size ts m p whole.1)
  where
    by_round :
        (r : Round)
        → Leaves size part r
        → ((m : ℕ) (p : List ℕ) → m ≡ length p → Counts size p (receive size ts m p))
        → Counts size part (elim r as (λ _. Result Failure ℕ × List ℕ) [
          | more m longer ↦ receive size ts m longer
          | over ↦ (ok n, part)
          | fails e left ↦ (err e, left)
        ])
    by_round (more m p) l next = wider size part p _ l.1 (next m p l.0)
    by_round over l next = (counted, omega arith)
    by_round (fails e p) l next = l

-- The loop raises no exception of `download` itself.
round-failed :
    (size : ℕ) (t : Turn) (n : ℕ) (part p : List ℕ) → round size t n part ≢ fails kept_failing p
unfolding round
round-failed size t n part p h = ground (arith, h, t.chunk, t.usage)

pub receive-failed :
    (size : ℕ) (ts : List Turn) (n : ℕ) (part : List ℕ)
    → (receive size ts n part).0 ≢ err kept_failing
unfolding receive
receive-failed size [] n part h = ground (arith, h)
receive-failed size (t ∷ ts) n part h =
    by_round (round size t n part) refl (λ m p. receive-failed size ts m p) h
  where
    by_round :
        (r : Round)
        → round size t n part ≡ r
        → ((m : ℕ) (p : List ℕ) → (receive size ts m p).0 ≢ err kept_failing)
        → (elim r as (λ _. Result Failure ℕ × List ℕ) [
          | more m longer ↦ receive size ts m longer
          | over ↦ (ok n, part)
          | fails e left ↦ (err e, left)
        ]).0
          ≢ err kept_failing
    by_round (more m p) e next h = next m p h
    by_round over e next h = ground (arith, h)
    by_round (fails x p) e next h = round-failed size t n part p (e ∙ ap (λ y. fails y p) (same h))
      where
        same : ◌≡◌ {A = Result Failure ℕ} (err x) (err kept_failing) → x ≡ kept_failing
        same h = ground (arith, h)
