-- ===== src/OsActivate/Safety.antt =====
-- The safety of activation (epilykos_os_activate.py): a target that can boot is recorded as pending.
mod Recorded
mod Settling
mod Activation
pub use Recorded.*
pub use Settling.*
pub use Activation.*
