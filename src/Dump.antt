-- ===== src/Dump.antt =====
-- Bytecode dumps: luajit/lj_bcwrite.c and luajit/lj_bcread.c.
pub mod Result
pub mod Uleb
pub mod Words
pub mod Proto
pub mod Write
pub mod Read
pub mod RoundTrip
