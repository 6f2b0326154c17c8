-- ===== src/Storage/Laws.antt =====
-- What admission and the headroom check of epilykos_storage.py promise.
use epilykos_os.Base.{ℕ, ◌+◌, ◌-◌, ◌*◌, ◌≤◌, ◌≡◌, ◌↔◌, ok, err, arith, ltb}
use epilykos_os.Storage.{gib, floor, warning, Usage, Space, not_enough, admit, check_headroom}

-- The floor is at least a tenth of DATA and at least 1 GiB, and it is the least such size; the
-- warning level is never below it.
pub floor_lem :
    (total : ℕ)
    → (total ≤ 10 * floor total)
      × (gib ≤ floor total)
      × (floor total ≤ warning total)
      × ((b : ℕ) → total ≤ 10 * b → gib ≤ b → floor total ≤ b)
unfolding floor warning
floor_lem total = (omega arith, omega arith, omega arith, λ b h k. omega arith)

-- What is written after an admission, up to the admitted size, leaves a transfer's headroom check
-- satisfied at every point: the check stops no transfer that was admitted and wrote only its own
-- bytes.
pub admit-check_headroom :
    (required written : ℕ) (u : Usage) {s : Space}
    → admit required u ≡ ok s
    → written ≤ required
    → check_headroom (record u { free = u.free - written }) ≡ ok (u.free - written)
unfolding admit check_headroom
admit-check_headroom required written u h w = ground arith

-- The result of a request that fits.
abbrev granted : ℕ → Usage → Space
granted required u = record {
  total_bytes = u.total;
  free_bytes = u.free;
  required_bytes = required;
  floor_bytes = floor u.total;
  low = ltb u.free (warning u.total);
}

-- A refused admission names exactly the shortfall: the same request is admitted once at least that
-- many bytes have been freed, and is refused while fewer have.
pub admit_shortfall :
    (required : ℕ) (u : Usage) (r limit short : ℕ)
    → admit required u ≡ err (not_enough r limit short)
    → (freed : ℕ)
    → (short ≤ freed) ↔ ((s : Space) × (admit required (record u { free = u.free + freed }) ≡ ok s))
unfolding admit
admit_shortfall required u r limit short h freed = (
  λ enough. (granted required (record u { free = u.free + freed }), ground arith),
  λ (s, e). ground arith,
)
