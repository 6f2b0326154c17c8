-- ===== src/OsTrust.antt =====
-- epilykos_os_trust.py: the root-signed trust policy, the signed OS releases that it authorizes, the
-- bundles, and the trust state in the environment. json, base64, openssl and configparser are a
-- Tools; texts and bytes are lists of code points.
mod Scalars
mod Policy
mod Release
pub mod Bundle
mod State
unfoldable pub use Scalars.*
unfoldable pub use Policy.*
unfoldable pub use Release.*
unfoldable pub use Bundle.*
unfoldable pub use State.*
pub mod Canonical
pub mod Epochs
pub mod Listed
pub mod Offered
pub mod Sample
mod Examples
