-- ===== src/Publishing/Sequence.antt =====
-- tools/os_release.py: the sequence of the next OS release, by the published pointer.
use epilykos_os.Base.{
  ℕ, ◌+◌, Bool, false, not, ◌||◌, leb, if◌then◌else◌, Option, none, some, Text, codes, Result, ok,
  err, refuse, ◌>>◌, ◌>>=◌,
}
use epilykos_os.Json.{Json, int, boolean, negative, real, field, is_object, is_str}
use epilykos_os.OsTrust.{Fault, value_error, Tools, entry_max, integer, strict_json}

module _ (w : Tools) where
  unfoldable pub require_pointer : Text → Json → Result Fault Json
  require_pointer channel entry =
      refuse
        (not (is_object entry)
          || not (is_str channel (field "channel" entry))
          || not (is_str (codes "raspberrypi3") (field "board" entry)))
        (value_error "the published pointer is for another channel or board")
      >> ok entry

  unfoldable pub pointer_entry : Text → Text → Result Fault Json
  unfolding require_pointer
  pointer_entry raw channel = strict_json w raw entry_max >>= require_pointer channel

  unfoldable pub next_sequence : Option Text → Text → Result Fault ℕ
  unfolding pointer_entry
  next_sequence none channel = ok 1
  next_sequence (some raw) channel =
      pointer_entry raw channel >>= λ entry. integer (field "sequence" entry) 1 >>= λ n. ok (n + 1)

  -- `sequence <= value`, with what Python says of a number that is not whole; False and True compare
  -- as 0 and 1, and it raises for what is no number.
  abbrev pub is_used : (ℕ → Text → Bool) → ℕ → Json → Result Fault Bool
  is_used le_real sequence (int n) = ok (leb sequence n)
  is_used le_real sequence (negative n) = ok false
  is_used le_real sequence (boolean b) = ok (leb sequence (if b then 1 else 0))
  is_used le_real sequence (real t) = ok (le_real sequence t)
  is_used le_real sequence _ = err (value_error "TypeError")

  unfoldable pub check_sequence :
      (ℕ → Text → Bool) → Option Text → Text → ℕ → Result Fault (Unit {0})
  unfolding pointer_entry
  check_sequence le_real none channel sequence = ok tt
  check_sequence le_real (some raw) channel sequence = pointer_entry raw channel >>= λ entry.
      is_used le_real sequence (field "sequence" entry) >>= λ used.
      refuse used (value_error "the sequence is not above the published pointer")
