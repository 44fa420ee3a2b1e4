-- ===== src/Util.antt =====
-- pebble-core/util: byte buffers, and the small helpers on byte slices and strings.
pub mod Buffer
pub mod Slices
pub mod BytesSet
