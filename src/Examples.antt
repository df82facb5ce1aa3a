-- ===== src/Examples.antt =====
-- Runs of the models on concrete inputs.
mod Dumps
mod Strings
mod Upvals
mod Lengths
mod Traces
mod Interning
mod Substitution
mod Literals
mod Sizes
mod Tables
mod Numerals
