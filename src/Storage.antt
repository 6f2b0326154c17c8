-- ===== src/Storage.antt =====
-- epilykos_storage.py: the space policy of the DATA file system. Sizes are bytes; a result of
-- `statvfs` is the pair of the total and the free bytes. The error sentence keeps its three numbers.
pub mod Laws
mod Examples
use epilykos_os.Base.{ℕ, ◌+◌, ◌-◌, ◌*◌, ◌/◌, max, Bool, Result, ok, err, ltb, if◌then◌else◌}

abbrev pub gib : ℕ
gib = 1073741824

-- `-(-total // 10)` rounds up.
unfoldable pub floor : ℕ → ℕ
floor total = max gib ((total + 9) / 10)

unfoldable pub warning : ℕ → ℕ
warning total = max (2 * gib) ((total + 4) / 5)

pub record Usage : Type 0 where
  pub total : ℕ
  pub free : ℕ

pub record Space : Type 0 where
  pub total_bytes : ℕ
  pub free_bytes : ℕ
  pub required_bytes : ℕ
  pub floor_bytes : ℕ
  pub low : Bool

-- The sentences that `StorageError` carries.
pub data StorageError : Type 0 where
  not_enough : ℕ → ℕ → ℕ → StorageError
  nearly_full : ℕ → StorageError

-- Python's `free - required < limit` on integers is `free < limit + required`.
unfoldable pub admit : ℕ → Usage → Result StorageError Space
unfolding floor warning
admit required u =
    let limit = floor u.total in
    if ltb u.free (limit + required)
    then err (not_enough required limit (limit + required - u.free))
    else ok (record {
      total_bytes = u.total;
      free_bytes = u.free;
      required_bytes = required;
      floor_bytes = limit;
      low = ltb u.free (warning u.total);
    })

unfoldable pub check_headroom : Usage → Result StorageError ℕ
unfolding floor
check_headroom u =
    if ltb u.free (floor u.total) then err (nearly_full (floor u.total)) else ok u.free
