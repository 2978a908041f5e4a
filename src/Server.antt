-- ===== src/Server.antt =====
-- server.rs and reply.rs: the verbs that the daemon and the command line share.
pub mod Reply
pub mod Queries
pub mod Walk
pub mod Graphs
pub mod Xrefs
pub mod XrefLaws
pub mod Verbs
pub mod Dispatch
pub mod WalkLaws
pub mod ForestLaws
