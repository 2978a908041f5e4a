-- ===== src/Cache.antt =====
-- cache.rs: the digest of a compilation unit, and the shards that are kept under it.
pub mod Digest
pub mod BufferLaws
pub mod DigestLaws
pub mod Shards
pub mod ShardLaws
