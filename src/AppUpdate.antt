-- ===== src/AppUpdate.antt =====
-- epilykos_update.py: the app's updates from signed manifests.
mod Manifest
mod State
mod Install
mod Apply
unfoldable pub use Manifest.*
unfoldable pub use State.*
unfoldable pub use Install.*
unfoldable pub use Apply.*
mod Keeps
mod Returns
pub mod Floor
pub mod Endings
pub mod Lease
mod Examples
