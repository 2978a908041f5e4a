-- ===== src/Kythe.antt =====
-- crates/scry2/src/kythe.rs: the ingest of a stream of Kythe entries into an index builder.
pub mod Wire
pub mod WireLaws
pub mod EntryLaws
pub mod Edges
pub mod Scope
pub mod ScopeLaws
pub mod MarkedSource
pub mod Names
pub mod NameLaws
pub mod Types
pub mod Signature
pub mod Files
pub mod FilesLaws
pub mod State
pub mod Anchors
pub mod AnchorLaws
pub mod Process
pub mod Finalize
pub mod Ingest
pub mod StreamLaws
pub mod TruncationLaws
