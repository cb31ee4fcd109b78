-- ===== src/Examples.antt =====
-- The theorems at concrete inputs, many of them those of the unit tests in src/symbol.rs and
-- src/debuginfo/iter.rs.
mod Symbols
mod Iterators
mod Types
mod Blobs
mod Removal
mod Updates
mod Layouts
mod Axes
mod Instances
mod Readdressed
