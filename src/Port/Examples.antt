-- ===== src/Port/Examples.antt =====
-- Ports that are written and read.
use epilykos_os.Base.{ℕ, ◌≡◌, refl, ◌≤◌, ◌⊎◌, Bool, true, Option, none, some, codes, ok}
use epilykos_os.Json.{str}
use epilykos_os.Port.{read, write}
use epilykos_os.Port.Kept.{write-read}

write-read_example : read (write true (str (codes " 8080 ")) none).1 ≡ 8080
unfolding write epilykos_os.Base.strip
write-read_example = write-read (str (codes " 8080 ")) none 8080 refl
