-- ===== src/Model.antt =====
-- internal/model: the persistent types and the methods that only read or compute.
pub mod Member
pub mod Room
pub mod Movie
pub mod Current
pub mod User
