-- ===== src/OsDownload/Examples.antt =====
-- A download that breaks off after two of three bytes and is resumed.
use epilykos_os.Base.{
  ℕ, zero, suc, ◌≤◌, length, ◌≡◌, false, Option, none, some, List, [], ◌∷◌, codes, arith, subst,
}
use epilykos_os.OsDownload.{Staged, Turn, Response, Server, range_text}
use epilykos_os.OsDownload.Attempts.{Filing, download}
use epilykos_os.OsDownload.Received.{TakesAll}
use epilykos_os.OsDownload.Sizes.{IsWhole, Downloads, download-Downloads}
use epilykos_os.OsDownload.Retries.{Asked, download-Asked}

abbrev bundle : List ℕ
bundle = 7 ∷ 8 ∷ 9 ∷ []

abbrev rest_from : ℕ → List ℕ
rest_from zero = 7 ∷ 8 ∷ 9 ∷ []
rest_from (suc zero) = 8 ∷ 9 ∷ []
rest_from (suc (suc zero)) = 9 ∷ []
rest_from (suc (suc (suc n))) = []

abbrev chunk_of : Option (List ℕ) → Turn
chunk_of chunk = record {
  is_cancelled = false;
  chunk = chunk;
  write_fails = false;
  taken = 3;
  usage = none;
  save_fails = false;
}

abbrev answer : Response
answer = record {
  code = 200;
  content_range = none;
  etag = some (codes "v1");
  last_modified = none;
  save_fails = false;
  truncate_fails = false;
  open_fails = false;
  body = chunk_of (some (7 ∷ 8 ∷ [])) ∷ chunk_of none ∷ [];
  sync_fails = false;
  last_save_fails = false;
}

-- It answers a plain request with two bytes, and a range in full.
unfoldable mirror : Server
mirror n none = some answer
mirror n (some (offset, v)) = some (record answer {
  code = 206;
  content_range = some (range_text offset 3);
  body = chunk_of (some (rest_from offset)) ∷ [];
})

abbrev partial_of : ℕ → Response
partial_of offset = record answer {
  code = 206;
  content_range = some (range_text offset 3);
  body = chunk_of (some (rest_from offset)) ∷ [];
}

some_eq : (a b : Response) → ◌≡◌ {A = Option Response} (some a) (some b) → a ≡ b
some_eq a b h = ground (arith, h)

mirror-IsWhole : IsWhole mirror
unfolding mirror
mirror-IsWhole n none r at =
    subst (λ r. TakesAll r.body) (some_eq answer r at) (ground arith, (tt, tt))
mirror-IsWhole n (some (offset, v)) r at =
    subst (λ r. TakesAll r.body) (some_eq (partial_of offset) r at) (rest_fits offset, tt)
  where
    rest_fits : (o : ℕ) → length (rest_from o) ≤ 3
    rest_fits zero = ground arith
    rest_fits (suc zero) = ground arith
    rest_fits (suc (suc zero)) = ground arith
    rest_fits (suc (suc (suc o))) = ground arith

abbrev nothing_staged : Staged
nothing_staged = record {
  part = [];
  final = none;
  validator = none;
  saved_validator = none;
  requests = 0;
}

abbrev quiet : Filing
quiet = record { layout_fails = false; save_fails = false; move_fails = false; sync_fails = false }

download-Downloads_example :
    Downloads 3 nothing_staged
      (download mirror quiet 5 3 nothing_staged).0
      (download mirror quiet 5 3 nothing_staged).1
download-Downloads_example = download-Downloads mirror quiet 4 3 nothing_staged mirror-IsWhole

download-Asked_example :
    Asked 5
      (download mirror quiet 5 3 nothing_staged).0
      (download mirror quiet 5 3 nothing_staged).1
download-Asked_example = download-Asked mirror quiet 4 3 nothing_staged
