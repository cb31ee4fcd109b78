-- ===== src/Symbol.antt =====
-- src/symbol.rs: how the name of a symbol is resolved to an address and a type.
pub mod Info
pub mod Names
pub mod Members
pub mod Lookup
pub mod SubObject
pub mod Prefix
pub mod Digits
pub mod Elements
pub mod Resolution
pub mod Offset
pub mod Selection
pub mod Written
pub mod Safe
pub mod Settles
mod Tests
