-- ===== src/Lib.antt =====
-- scry2: a code index built from Kythe data. This library models the index itself, that is the
-- file format and everything between filling a builder and asking the file that it wrote, and the
-- ingest that fills the builder from a stream of Kythe entries.
--
-- The parts of the program and the files that model them:
-- - crates/scry2/src/format.rs: Format.antt (constants, header, row layouts), Format/Varint.antt
--   (write_varint, varint_len, read_varint), Format/Pad.antt (pad_up), Format/Rows.antt (rows as
--   packed bytes), Format/HeaderBytes.antt (the header's bytes), Format/Role.antt, Format/Kind.antt
--   and Format/Lang.antt.
-- - crates/scry2/src/writer.rs: Writer/Builder.antt (IndexBuilder and its operations),
--   Writer/Shards.antt (shard-local file ids, and filling a builder from an open index),
--   Writer/Names.antt (prefers_name), Text/Clamp.antt (clamp_blob_str), Writer/Finish.antt and
--   Writer/Layout.antt (finish), Writer/Trigram.antt (build_trigram_index), Writer/Merge.antt (the
--   two-way merges and fold_sources).
-- - crates/scry2/src/reader.rs: Reader/Open.antt (Index::open), Reader.antt, Reader/Table.antt and
--   Reader/Search.antt (the range queries and the two binary searches), Reader/Lookup.antt (the
--   point lookups), Reader/Names.antt (the queries over the alphabetical name index),
--   Reader/Trigram.antt (the lookup of a trigram and the decoding of its postings), Reader/Iter.antt
--   (the iterators over whole sections).
-- - crates/scry2/src/kythe.rs: Kythe/Wire.antt (varints, fields, parse_vname, parse_entry),
--   Kythe/Edges.antt (edge and node kinds), Kythe/Scope.antt (innermost_containing),
--   Kythe/MarkedSource.antt (the renderer of names), Kythe/Names.antt (names and symbol strings),
--   Kythe/Types.antt and Kythe/Signature.antt (types and signatures), Kythe/Files.antt
--   (FileIdAllocator), Kythe/State.antt (the state of one compilation unit), Kythe/Anchors.antt and
--   Kythe/Process.antt (process_entry), Kythe/Finalize.antt and Kythe/Ingest.antt
--   (ingest_tolerant). Strings are in Text/Str.antt and Text/Trim.antt.
-- - crates/scry2/src/kzip.rs: Kzip/Codec.antt (the protobuf codec of compilation units),
--   Kzip/Units.antt (cu_primary_path and other small functions), Kzip/Peek.antt
--   (peek_proto_primary_path and what read_units_filtered makes of the bytes of one unit),
--   Kzip/PeekJson.antt (peek_json_primary_path).
-- - crates/scry2/src/cache.rs: Cache/Digest.antt (cu_content_digest and indexer_version_tag),
--   Cache/Shards.antt (ShardCache).
-- - crates/scry2/src/server.rs and reply.rs: Server/Queries.antt (PathFilter, logical_key,
--   display_name), Server/Walk.antt and Server/Graphs.antt (do_callgraph and do_inheritance),
--   Server/Xrefs.antt (do_xrefs), Server/Verbs.antt (do_type,
--   do_sig, do_members, do_inh), Server/Dispatch.antt (dispatch), Server/Reply.antt (the shapes of
--   replies).
-- Compilation units come from kzip archives; the digest of a unit names the shard that the ingest of
-- it produced, and a unit whose shard is in the cache is not ingested again.
-- The ingest reads length-framed entries, keeps what it learns of a compilation unit in maps, and
-- passes symbols, references, calls, types and names on to the builder. The builder is filled by
-- `add_` and `upsert_` operations, `finish` turns it into the bytes of a file, `Index::open` checks
-- such bytes, and the queries run binary searches over its sections.
-- The modules under Roundtrip put these together: what was added is what the queries answer.
--
-- How the code is modelled. A file, a section and a string are lists of bytes, a row is the list of
-- its fields, a HashMap is an association list. `Run` (Run.antt) has the outcomes of a piece of
-- code: a value, a panic, or `stuck` for a loop of the model that ran out of fuel. A subslice past
-- its end and a negative capacity panic. Fixed-width integers keep their wrap-around: key + 1 is
-- taken modulo 2^64, shifts of u32 modulo 32, lengths are written with 2 bytes.
--
-- Bounds and fuel. A binary search gets the number of rows as fuel, a merge the sum of the lengths,
-- the LEB128 writer its value, the loops over a message and over the stream of entries their number
-- of bytes; the theorems about them show results, so the fuel is enough. The theorems on written files ask
-- that every value that was added fits the type it was passed at, and that the file stays below 2^64
-- bytes.
--
-- Sorting: `sort_unstable` on rows is insertion sort, since equal rows are the same row.
--
-- Not modelled: the substring search and its probe of one posting list; files, memory mapping and
-- threads; zip archives and JSON units; the sockets of the server and the command
-- line, which use the index through the operations above.
-- In the ingest `none` is an error, whose text is left out; `partition_point` is the number of
-- leading rows that pass the test. The hash of a symbol string is a parameter, and so are the hash of
-- a digest, what the file system says of the indexers, and the queries that the verbs ask of
-- an index. The directory of the shard cache is a list of names and contents, whose operations do
-- not fail. The legacy renderer of names, which only tests use, is left out.
-- The Unicode tables that `char::is_alphanumeric` and `trim` consult are a parameter.
pub mod Bits
pub mod Bytes
pub mod Cache
pub mod Examples
pub mod Format
pub mod Kythe
pub mod Kzip
pub mod Prelude
pub mod Reader
pub mod Roundtrip
pub mod Run
pub mod Server
pub mod Sorted
pub mod Text
pub mod Writer
