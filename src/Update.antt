-- ===== src/Update.antt =====
-- src/update/mod.rs: the update of the objects of an A2L file from the debug data.
pub mod Limits
pub mod Fields
pub mod SymbolNames
pub mod IfData
pub mod Enums
pub mod Lookup
pub mod RecordLayouts
pub mod Objects
pub mod AxisPoints
pub mod Characteristics
pub mod Instances
pub mod Results
pub mod Info
pub mod Blob
pub mod Measurement
