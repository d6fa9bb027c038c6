-- ===== src/Pattern/Defs.antt =====
-- pattern.go: chunks and compiled patterns, and what the code calls of package regexp.
use velaros.Base.{ℕ, Option, List, Text}

pub data ChunkKind : Type 0 where
  unknown static dynamic wildcard : ChunkKind

pub data ChunkModifier : Type 0 where
  single optional one_or_more zero_or_more : ChunkModifier

pub record Chunk : Type 0 where
  pub kind : ChunkKind
  pub modifier : ChunkModifier
  pub key : Text
  pub pattern : Text

-- A compiled expression is determined by its source, so `reg_exp` is that source.
pub record Pattern : Type 0 where
  pub str : Text
  pub chunks : List Chunk
  pub reg_exp : Text

-- github.com/grafana/regexp, on the source of an expression. `find_submatch_index` is the flat
-- list of Go's indices, `none` for -1; the outer `none` is Go's nil.
pub record Engine : Type 0 where
  pub compiles : Text → Option Text
  pub find_submatch : Text → Text → Option (List Text)
  pub find_submatch_index : Text → Text → Option (List (Option ℕ))
  pub subexp_names : Text → List Text
