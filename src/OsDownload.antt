-- ===== src/OsDownload.antt =====
-- epilykos_os_update.py: `_transfer`, and `download` in OsDownload/Attempts, which fetch the signed
-- bundle into the staging directory and resume an interrupted transfer. The state is what is
-- staged, with the validator of the job and the number of requests made; the part's bytes are a
-- list, empty where there is no file. What the server, the clock and the disk do in a transfer is a
-- Response, by the number of the request and what was requested. The loop counts the bytes
-- that it handed to `os.write`, which may take fewer; progress is left out.
pub mod Attempts
pub mod Received
mod Transfers
mod Tries
pub mod Sizes
pub mod Retries
mod Examples
use epilykos_os.Base.{
  ℕ, zero, suc, ◌+◌, ◌-◌, Bool, true, false, not, ◌&&◌, ◌==◌, ltb, if◌then◌else◌, Option, none,
  some, List, [], ◌∷◌, ◌++◌, length, take, Text, codes, same_codes?, decimal, is_empty, Result, ok,
  err,
}
use epilykos_os.Storage.{StorageError, Usage, check_headroom}

-- The exceptions. `network` is every one that the `except` line of `download` names; `os_failure` is
-- a disk that refuses, or a record that can not be saved.
pub data Failure : Type 0 where
  network too_large kept_failing stopped os_failure : Failure
  answered_code : ℕ → Failure
  no_headroom : StorageError → Failure

pub record Staged : Type 0 where
  pub part : List ℕ
  pub final : Option (List ℕ)
  pub validator : Option Text
  pub saved_validator : Option Text
  pub requests : ℕ

-- One round of the loop over the response: the cancel request is looked at, a chunk is read (none
-- where the connection breaks) and written, of which `os.write` takes so many bytes, and every two
-- seconds the space is checked and the job saved.
pub record Turn : Type 0 where
  pub is_cancelled : Bool
  pub chunk : Option (List ℕ)
  pub write_fails : Bool
  pub taken : ℕ
  pub usage : Option Usage
  pub save_fails : Bool

pub record Response : Type 0 where
  pub code : ℕ
  pub content_range : Option Text
  pub etag : Option Text
  pub last_modified : Option Text
  pub save_fails : Bool
  pub truncate_fails : Bool
  pub open_fails : Bool
  pub body : List Turn
  pub sync_fails : Bool
  pub last_save_fails : Bool

-- `Range: bytes=<offset>-` with `If-Range: <validator>`, or neither.
abbrev pub RangeRequest : Type 0
RangeRequest = Option (ℕ × Text)

abbrev pub Server : Type 0
Server = ℕ → RangeRequest → Option Response

-- How a round ends: with `written` and the part, at the end of the response, or with an exception.
pub data Round : Type 0 where
  more : ℕ → List ℕ → Round
  over : Round
  fails : Failure → List ℕ → Round

-- `storage.check_headroom()` and the saved progress, with `written` and the part.
abbrev pub look_after : Option Usage → Bool → ℕ → List ℕ → Round
look_after none save_fails written part = more written part
look_after (some u) save_fails written part = elim (check_headroom u) [
  | err e ↦ fails (no_headroom e) part
  | ok _ ↦ if save_fails then fails os_failure part else more written part
]

-- `written` counts the whole chunk, however much of it `os.write` takes.
abbrev pub write_chunk : ℕ → Turn → ℕ → List ℕ → List ℕ → Round
write_chunk size t written part chunk =
    if ltb size (written + length chunk)
    then fails too_large part
    else (if t.write_fails
        then fails os_failure part
        else look_after t.usage t.save_fails (written + length chunk) (part ++ take t.taken chunk))

abbrev pub read_chunk : ℕ → Turn → ℕ → List ℕ → Option (List ℕ) → Round
read_chunk size t written part none = fails network part
read_chunk size t written part (some []) = over
read_chunk size t written part (some (c ∷ cs)) = write_chunk size t written part (c ∷ cs)

unfoldable pub round : ℕ → Turn → ℕ → List ℕ → Round
round size t written part =
    if t.is_cancelled then fails stopped part else read_chunk size t written part t.chunk

-- The `while` loop: what it has counted, and the part that it leaves; a response without further
-- rounds has ended.
unfoldable pub receive : ℕ → List Turn → ℕ → List ℕ → Result Failure ℕ × List ℕ
receive size [] written part = (ok written, part)
receive size (t ∷ ts) written part = elim (round size t written part) [
  | more counted longer ↦ receive size ts counted longer
  | over ↦ (ok written, part)
  | fails e left ↦ (err e, left)
]

abbrev pub with_part : List ℕ → Staged → Staged
with_part part s = record s { part = part }

-- What follows the loop.
abbrev pub end_transfer : ℕ → Response → Result Failure ℕ → Result Failure (Unit {0})
end_transfer size r (err e) = err e
end_transfer size r (ok written) =
    if r.sync_fails
    then err os_failure
    else (if written == size
        then (if r.last_save_fails then err os_failure else ok tt)
        else err network)

-- From `os.open` on, with the bytes of the part that stay.
unfoldable pub store : ℕ → Response → List ℕ → Staged → Result Failure (Unit {0}) × Staged
unfolding receive
store size r kept s =
    if r.open_fails
    then (err os_failure, s)
    else (let (result, part) = receive size r.body (length kept) kept in
        (end_transfer size r result, with_part part s))

abbrev pub is_weak : Text → Bool
is_weak (c ∷ d ∷ _) = c == b'W' && d == b'/'
is_weak _ = false

-- `... if validator and not validator.startswith('W/') else None`
abbrev pub strong : Option Text → Option Text
strong none = none
strong (some v) = if is_empty v then none else (if is_weak v then none else some v)

-- `response.headers.get('ETag') or response.headers.get('Last-Modified')`
abbrev pub validator_of : Response → Option Text
validator_of r = elim r.etag [
  | none ↦ strong r.last_modified
  | some v ↦ if is_empty v then strong r.last_modified else strong (some v)
]

-- A response with the whole package: its validator is saved before the first byte.
unfoldable pub start_again : ℕ → Response → Staged → Result Failure (Unit {0}) × Staged
unfolding store
start_again size r s =
    if r.save_fails
    then (err os_failure, record s { validator = validator_of r })
    else store size r [] (record s { validator = validator_of r; saved_validator = validator_of r })

-- `bytes {offset}-{size - 1}/{size}`
unfoldable pub range_text : ℕ → ℕ → Text
unfolding decimal
range_text offset size =
    codes "bytes " ++ decimal offset ++ codes "-" ++ decimal (size - 1) ++ codes "/" ++ decimal size

-- A part that the server does not continue is emptied, where it can be.
unfoldable pub resume : ℕ → Response → ℕ → Staged → Result Failure (Unit {0}) × Staged
unfolding store range_text
resume size r offset s =
    if same_codes? r.content_range (range_text offset size)
    then store size r s.part s
    else (if r.truncate_fails then (err os_failure, s) else (err network, with_part [] s))

unfoldable pub by_code : ℕ → Response → RangeRequest → Staged → Result Failure (Unit {0}) × Staged
unfolding start_again resume
by_code size r none s =
    if r.code == 200 then start_again size r s else (err (answered_code r.code), s)
by_code size r (some (offset, v)) s =
    if r.code == 206
    then resume size r offset s
    else (if r.code == 200 then start_again size r s else (err (answered_code r.code), s))

abbrev pub request_with : List ℕ → Option Text → RangeRequest
request_with part none = none
request_with [] (some v) = none
request_with (b ∷ part) (some v) = if is_empty v then none else some (length (b ∷ part), v)

-- A part that is longer than the package is not resumed.
unfoldable pub request_for : ℕ → Staged → RangeRequest
request_for size s = if ltb size (length s.part) then none else request_with s.part s.validator

unfoldable pub by_answer :
    ℕ → RangeRequest → Option Response → Staged → Result Failure (Unit {0}) × Staged
unfolding by_code
by_answer size request none s = (err network, s)
by_answer size request (some r) s = by_code size r request s

-- `_transfer`
unfoldable pub transfer : Server → ℕ → Staged → Result Failure (Unit {0}) × Staged
unfolding request_for by_answer
transfer ask size s =
    by_answer size (request_for size s) (ask s.requests (request_for size s))
      (record s { requests = suc s.requests })
