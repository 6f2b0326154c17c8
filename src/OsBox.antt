-- ===== src/OsBox.antt =====
-- The state that epilykos_os_update.py and epilykos_os_activate.py share, and the calls through
-- which they change it. The names of the children are passed on.
mod State
mod Machine
mod Outside
mod Calls
mod Triples
mod Rules
mod EnvRules
unfoldable pub use State.*
unfoldable pub use Machine.*
pub use Outside.*
unfoldable pub use Calls.*
pub use Triples.*
pub use Rules.*
pub use EnvRules.*
