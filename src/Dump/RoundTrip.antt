-- ===== src/Dump/RoundTrip.antt =====
-- What a dump keeps, and reading it back.
pub mod Dumpable
pub mod Values
pub mod Parts
pub mod Whole
pub mod Output
pub mod Main
