-- ===== src/Wire.antt =====
-- What the client (client/demotool.c) writes as a header, and what the server (server/demotool.c)
-- and the plugins (plugins/utils.c) read of it.
pub mod Commands
pub mod Request
pub mod Handshake
pub mod Extensions
pub mod Session
