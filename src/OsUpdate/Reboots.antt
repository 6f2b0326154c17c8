-- ===== src/OsUpdate/Reboots.antt =====
-- `refuse_reboot`: when a generic restart or shutdown is let through.
use epilykos_os.Base.{◌≡◌, ◌≢◌, ◌↔◌, Option, none, some, arith, Result, ok, err}
use epilykos_os.OsBox.{
  queued, downloading, verifying, installing, ready, restarting, Journal, absent, unreadable, holds,
  GuardState, idle, active, pending, Guard, Box, Error, done, Host, Platform, journal,
}
use epilykos_os.OsUpdate.{
  blocking_job, blocking_card, refuse_ready, platform, blocking, refuse_if, refuse_reboot,
}

-- No job is queued, at work or installing.
abbrev pub NothingAtWork : Journal → Type 0
NothingAtWork absent = Unit {0}
NothingAtWork unreadable = ⊥
NothingAtWork (holds job) =
    (job.state ≢ queued)
    × (job.state ≢ downloading)
    × (job.state ≢ verifying)
    × (job.state ≢ installing)

-- The job is in its trial or has ended: it waits for no Restart or Discard.
abbrev pub IsBeyondRestart : Journal → Type 0
IsBeyondRestart absent = ⊥
IsBeyondRestart unreadable = ⊥
IsBeyondRestart (holds job) = (job.state ≢ ready) × (job.state ≢ restarting)

abbrev pub ByGuard : GuardState → Journal → Type 0
ByGuard idle j = NothingAtWork j
ByGuard pending j = IsBeyondRestart j
ByGuard active j = ⊥
ByGuard GuardState.reconciling j = ⊥

abbrev pub ByPlatform : Result Error (Option Platform) → Option Guard → Journal → Type 0
ByPlatform (err e) g j = ⊥
ByPlatform (ok none) g j = Unit {0}
ByPlatform (ok (some plat)) none j = ⊥
ByPlatform (ok (some plat)) (some g) j = ByGuard g.state j

-- A restart or shutdown is let through, with nothing changed, exactly where the card has no OS update
-- jobs; or the guard is idle and a readable journal has no job queued, at work or installing; or the
-- guard is pending and the journal's job waits neither for Restart nor for Discard.
pub refuse_reboot_lem :
    (h : Host) (b : Box)
    → (refuse_reboot h b ≡ (done tt, b)) ↔ ByPlatform (h.platform b.power) b.guard b.journal
unfolding refuse_reboot platform blocking refuse_if journal blocking_job blocking_card refuse_ready
refuse_reboot_lem h b = ground (arith, b.guard, b.journal)
