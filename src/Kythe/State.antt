-- ===== src/Kythe/State.antt =====
-- The state of one ingest in kythe.rs: the anchors in flight, the rows that wait for the end of the
-- compilation unit, the counters, and the shared builder and file ids. Counters do not wrap.
use scry.Prelude.{ℕ, List, [], ◌∷◌, ◌++◌, Bool, false, Option, none}
use scry.Kythe.Wire.{VName}
use scry.Kythe.Scope.{Anchor}
use scry.Kythe.Signature.{TypeSide, no_types}
use scry.Kythe.Files.{AllocState}
use scry.Writer.Builder.{IndexBuilder}

pub record AnchorAccum : Type 0 where
  pub is_anchor : Bool
  pub path : List ℕ
  pub start : Option ℕ
  pub end : Option ℕ
  pub pending : List (VName × ℕ)
  pub body_def_sym : Option ℕ

abbrev pub no_anchor : AnchorAccum
no_anchor = record {
  is_anchor = false;
  path = [];
  start = none;
  end = none;
  pending = [];
  body_def_sym = none;
}

-- `(file_id, start, target_sym, role)`
pub record CallSite : Type 0 where
  pub file : ℕ
  pub off : ℕ
  pub target : ℕ
  pub role : ℕ

-- `(sym, role, file, offset)`
pub record Xref : Type 0 where
  pub sym : ℕ
  pub role : ℕ
  pub file : ℕ
  pub offset : ℕ

pub record IngestState : Type 0 where
  pub anchors : List (List ℕ × AnchorAccum)
  pub completes_bridges : List (List ℕ × List ℕ)
  pub body_anchors : List Anchor
  pub call_sites : List CallSite
  pub xrefs : List Xref
  pub aliases : List (ℕ × List ℕ)
  pub inherits : List (ℕ × ℕ)
  pub inherit_parent_keys : List (List ℕ)
  pub childof : List (ℕ × ℕ)
  pub types : TypeSide

abbrev pub no_state : IngestState
no_state = record {
  anchors = [];
  completes_bridges = [];
  body_anchors = [];
  call_sites = [];
  xrefs = [];
  aliases = [];
  inherits = [];
  inherit_parent_keys = [];
  childof = [];
  types = no_types;
}

pub record IngestStats : Type 0 where
  pub entries : ℕ
  pub anchors_flushed : ℕ
  pub xrefs_emitted : ℕ
  pub inherits_emitted : ℕ
  pub aliases_emitted : ℕ
  pub calls_emitted : ℕ
  pub types_emitted : ℕ
  pub childof_emitted : ℕ
  pub sigs_emitted : ℕ
  pub completes_bridges : ℕ
  pub diag_defines_seen : ℕ
  pub diag_pending : ℕ
  pub diag_unresolved : ℕ

abbrev pub no_stats : IngestStats
no_stats = record {
  entries = 0;
  anchors_flushed = 0;
  xrefs_emitted = 0;
  inherits_emitted = 0;
  aliases_emitted = 0;
  calls_emitted = 0;
  types_emitted = 0;
  childof_emitted = 0;
  sigs_emitted = 0;
  completes_bridges = 0;
  diag_defines_seen = 0;
  diag_pending = 0;
  diag_unresolved = 0;
}

-- What `process_entry` changes.
pub record World : Type 0 where
  pub state : IngestState
  pub builder : IndexBuilder
  pub files : AllocState
  pub stats : IngestStats

abbrev pub push {ℓ} : {A : Type ℓ} → A → List A → List A
push a xs = xs ++ (a ∷ [])
