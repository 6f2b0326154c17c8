-- ===== src/Port.antt =====
-- epilykos_port.py: the port that the dashboard listens on, and the file that keeps it.
pub mod Kept
mod Examples
use epilykos_os.Base.{
  ℕ, Bool, true, false, not, ◌&&◌, ◌||◌, ◌==◌, leb, if◌then◌else◌, Option, none, some, List, [],
  ◌∷◌, ◌++◌, Text, strip, is_digits, to_int, decimal, Result, ok, err, refuse, ◌>>◌, ◌>>=◌,
}
use epilykos_os.Json.{Json, int, negative, str}

-- PortError by its sentence, and what else a write raises.
pub data PortError : Type 0 where
  no_number out_of_range reserved os_error : PortError

abbrev pub default_port : ℕ
default_port = 3000

-- RESERVED
abbrev pub is_reserved : ℕ → Bool
is_reserved n = n == 5353 || n == 5355

-- The number of a value, whether written as one or in ASCII digits.
unfoldable pub number_in : Json → Result PortError ℕ
number_in (int n) = ok n
number_in (negative n) = err out_of_range
number_in (str s) = if is_digits (strip s) then ok (to_int (strip s)) else err no_number
number_in _ = err no_number

unfoldable pub in_range : ℕ → Result PortError ℕ
in_range n =
    refuse (not (n == 80) && not (leb 1024 n && leb n 65535)) out_of_range
    >> refuse (is_reserved n) reserved
    >> ok n

unfoldable pub validate : Json → Result PortError ℕ
unfolding number_in in_range
validate value = number_in value >>= in_range

-- `f.readline()`, with Python's universal newlines.
abbrev pub read_line : Text → Text
read_line [] = []
read_line (c ∷ s) = let rest = read_line s in if c == 10 || c == 13 then 10 ∷ [] else c ∷ rest

abbrev pub or_default : Result PortError ℕ → ℕ
or_default (ok n) = n
or_default (err e) = default_port

-- With the file, if it could be read.
unfoldable pub read : Option Text → ℕ
unfolding validate
read none = default_port
read (some file) = or_default (validate (str (strip (read_line file))))

-- The file is replaced whole, if it is written.
abbrev pub save : Bool → Option Text → Result PortError ℕ → Result PortError ℕ × Option Text
save writes file (err e) = (err e, file)
save writes file (ok port) =
    if writes then (ok port, some (decimal port ++ 10 ∷ [])) else (err os_error, file)

unfoldable pub write : Bool → Json → Option Text → Result PortError ℕ × Option Text
unfolding validate
write writes port file = save writes file (validate port)
