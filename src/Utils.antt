-- ===== src/Utils.antt =====
-- utils: the helpers that hold no I/O.
pub mod Once
pub mod Page
