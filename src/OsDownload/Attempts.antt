-- ===== src/OsDownload/Attempts.antt =====
-- `download`: the attempts, and the file that they leave under the final name.
use epilykos_os.Base.{
  ℕ, zero, suc, Bool, ◌==◌, if◌then◌else◌, Option, none, some, List, [], length, Result, ok, err,
}
use epilykos_os.OsDownload.{Failure, network, os_failure, kept_failing, Staged, Server, transfer}

-- The `except` line of the loop, with the attempts that are left and the next of them.
abbrev pub or_again :
    (Staged → Result Failure (Unit {0}) × Staged)
    → Result Failure (Unit {0})
    → ℕ
    → Staged
    → Result Failure (Unit {0}) × Staged
or_again again (err network) zero s = (err kept_failing, s)
or_again again (err network) (suc _) s = again s
or_again again result left s = (result, s)

-- The `for` loop of `download`, with the attempts that are left.
unfoldable pub attempts : Server → ℕ → ℕ → Staged → Result Failure (Unit {0}) × Staged
unfolding transfer
attempts ask size zero s = (ok tt, s)
attempts ask size (suc n) s =
    let (result, s') = transfer ask size s in or_again (attempts ask size n) result n s'

-- What the disk answers outside of the transfers.
pub record Filing : Type 0 where
  pub layout_fails : Bool
  pub save_fails : Bool
  pub move_fails : Bool
  pub sync_fails : Bool

-- `os.replace` and the sync of the directory.
abbrev pub move_final :
    Filing → Result Failure (Unit {0}) → Staged → Result Failure (List ℕ) × Staged
move_final f (err e) s = (err e, s)
move_final f (ok _) s =
    if f.move_fails
    then (err os_failure, s)
    else (if f.sync_fails
        then (err os_failure, record s { part = []; final = some s.part })
        else (ok s.part, record s { part = []; final = some s.part }))

unfoldable pub fetch : Server → Filing → ℕ → ℕ → Staged → Result Failure (List ℕ) × Staged
unfolding attempts
fetch ask f tries size s =
    if f.save_fails
    then (err os_failure, s)
    else (let (result, s') = attempts ask size tries s in move_final f result s')

unfoldable pub unless_there :
    Server → Filing → ℕ → ℕ → Option (List ℕ) → Staged → Result Failure (List ℕ) × Staged
unfolding fetch
unless_there ask f tries size none s = fetch ask f tries size s
unless_there ask f tries size (some bytes) s =
    if length bytes == size then (ok bytes, s) else fetch ask f tries size s

-- `download`, with DOWNLOAD_ATTEMPTS as `tries`; it returns the bytes of the file that it names.
unfoldable pub download : Server → Filing → ℕ → ℕ → Staged → Result Failure (List ℕ) × Staged
unfolding unless_there
download ask f tries size s =
    if f.layout_fails then (err os_failure, s) else unless_there ask f tries size s.final s
