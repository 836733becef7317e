-- ===== src/Tagging.antt =====
-- event_tagging.c: tagged data in a byte queue. `Ints` has the encoding of integers by nibbles, `Tags`
-- that of tags by groups of seven bits, and the others the functions that work on buffers.
pub mod Ints
pub mod Tags
pub mod Messages
pub mod Reading
mod Tests
