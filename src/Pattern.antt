-- ===== src/Pattern.antt =====
-- Lua patterns: the matcher of luajit/lib_string.c.
pub mod Class
pub mod Match
pub mod Plain
pub mod Find
pub mod Replace
