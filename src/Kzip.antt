-- ===== src/Kzip.antt =====
-- kzip.rs: compilation units and their protobuf codec, and the path of a unit's main source.
pub mod Codec
pub mod CodecLaws
pub mod Units
pub mod Peek
pub mod PeekJson
pub mod FindLaws
pub mod FieldLaws
pub mod PeekLaws
