-- ===== src/Writer.antt =====
-- crates/scry2/src/writer.rs.
pub mod Layout
pub mod LayoutLaws
pub mod Names
pub mod NameLaws
pub mod Builder
pub mod Trigram
pub mod Finish
pub mod Merge
pub mod MergeLaws
pub mod MergeByKey
pub mod StreamLaws
pub mod KeptNames
pub mod Shards
