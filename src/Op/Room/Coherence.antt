-- ===== src/Op/Room/Coherence.antt =====
-- The cache of members is a view of the table: no method leaves a member in it that differs from
-- what the row of the table would give now.
mod Loads
mod Statements
mod Creation
mod Changes
mod Settings
mod Calls
mod Kept
mod View
pub use Loads.*
pub use Creation.*
pub use View.*
pub use Calls.*
pub use Statements.{ChangesOnly, first_or_create-ChangesOnly}
pub use synctv.Op.Room.Coherence.Changes.{kick-frame}
pub use synctv.Op.Room.Coherence.Settings.{set_status-IsCoherent}
