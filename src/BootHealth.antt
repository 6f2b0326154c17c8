-- ===== src/BootHealth.antt =====
-- epilykos_boot_health.py: the supervisor of one boot, a state machine that is stepped every two
-- seconds. Times are microseconds of the monotonic clock. What the supervisor asks of the outside is
-- a World, which is told the time of the tick; log lines are left out.
mod Record
mod Ticks
unfoldable pub use Record.*
unfoldable pub use Ticks.*
pub mod Branches
pub mod Diagram
pub mod Escalation
pub mod Trials
mod Examples
