-- ===== src/Op.antt =====
-- internal/op: rooms, their connections, their members, and what plays in them.
pub mod Client
pub mod Hub
pub mod Room
pub mod Player
pub mod Movies
pub mod User
pub mod Site
