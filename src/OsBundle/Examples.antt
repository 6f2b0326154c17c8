-- ===== src/OsBundle/Examples.antt =====
-- The bundle of the sample release passes.
use epilykos_os.Base.{codes}
use epilykos_os.OsTrust.Sample.{sha}
use epilykos_os.OsBundle.{SlotImage}

abbrev root_image : SlotImage
root_image = record { size = 1048576; sha256 = codes sha }
