-- ===== src/ControlPlane.antt =====
-- src/northgate_rmm/control_plane.py.
mod State
mod Messages
mod Admin
pub mod Authorization
pub mod Ingest
pub mod Change
pub mod Consistency
pub mod History
pub mod Runs
pub mod Permanence
pub mod Listing
pub mod Freshness
pub mod Distinct
mod Sample
mod Tests
mod ViewTests
unfoldable pub use State.*
unfoldable pub use Messages.*
unfoldable pub use Admin.*
