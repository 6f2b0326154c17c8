-- ===== src/Storage/Examples.antt =====
-- Runs of the space policy, and its theorems at concrete sizes.
use epilykos_os.Base.{◌-◌, ◌≡◌, refl, ok, arith}
use epilykos_os.Storage.{Usage, admit, check_headroom}
use epilykos_os.Storage.Laws.{admit-check_headroom}

-- 20 GiB of DATA with 5 GiB free.
abbrev card : Usage
card = record { total = 21474836480; free = 5368709120 }

admit-check_headroom_example :
    check_headroom (record card { free = card.free - 1000000000 }) ≡ ok (card.free - 1000000000)
unfolding admit
admit-check_headroom_example = admit-check_headroom 3000000000 1000000000 card refl (omega arith)
