-- ===== src/Server.antt =====
-- server: from a request to the user and the room that it is about.
pub mod Access
