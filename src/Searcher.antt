-- ===== src/Searcher.antt =====
-- The graphics searcher in searcher/: a view of the memory that keys change, the search for a
-- palette, and the files that a picture is saved to.
pub mod Text
pub mod Key
pub mod Mode
pub mod View
pub mod Geometry
pub mod Planes
pub mod Colours
pub mod Copper
pub mod Sprites
pub mod File
pub mod Ilbm
pub mod Save
pub mod Finder
pub mod Keys
pub mod Head
pub mod Main
