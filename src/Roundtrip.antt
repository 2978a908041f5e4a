-- ===== src/Roundtrip.antt =====
-- What crates/scry2/src/writer.rs writes, crates/scry2/src/reader.rs reads.
pub mod Opened
pub mod Fields
pub mod Preserved
pub mod Sections
pub mod Members
pub mod Whole
pub mod Edges
pub mod Queries
pub mod Xrefs
pub mod Strings
pub mod Lookups
pub mod Keyed
pub mod Found
pub mod Symbols
pub mod NameRows
pub mod ByName
pub mod Named
pub mod NameIndex
pub mod Aliases
pub mod Iterated
