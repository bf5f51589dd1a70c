-- ===== src/Plugins.antt =====
-- The plugins of plugins/, which the server loads, and the functions that they share.
pub mod Utils
pub mod Peek
pub mod Addr
pub mod Adf
pub mod Loadseg
