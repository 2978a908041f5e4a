-- ===== src/Examples.antt =====
-- A small index, and the theorems at concrete values of it.
pub mod Sample
mod Written
mod Parts
mod Ingest
mod Archive
mod Graph
