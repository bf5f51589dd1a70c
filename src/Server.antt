-- ===== src/Server.antt =====
-- The server program, server/demotool.c and server/plugin.c. The child modules hold the check of a
-- header, the list of plugins, the handling of a connection and the loop over connections.
pub mod Callbacks
pub mod Header
pub mod Plugins
pub mod Loader
pub mod Listen
pub mod Main
