-- ===== src/Pattern/Parse.antt =====
-- pattern.go: `parsePatternChunks`. The loop variable `i` is the suffix of runes that it points at;
-- `i -= 1; continue` leaves the suffix as it is.
pub mod Total
pub mod Print
pub mod RoundTrip
use velaros.Base.{
  ℕ, zero, suc, ◌+◌, ◌*◌, Bool, true, false, not, ◌&&◌, ◌||◌, Option, none, some, List, [], ◌∷◌,
  ◌++◌, Text, ◌==◌, if◌then◌else◌, length,
}
use velaros.Pattern.Defs.{
  Chunk, ChunkKind, unknown, static, dynamic, wildcard, ChunkModifier, single, optional,
  one_or_more, zero_or_more,
}

pub data ParseError : Type 0 where
  no_leading_slash unnamed_dynamic multiple_subpatterns : ParseError

pub data Parsed : Type 0 where
  ok : List Chunk → Parsed
  err : ParseError → Parsed
  out_of_fuel : Parsed

-- The variables of the loop.
pub record Cursor : Type 0 where
  pub suffix : Text
  pub current : Option Chunk
  pub chunks : List Chunk

pub data Step : Type 0 where
  goto : Cursor → Step
  fail : ParseError → Step

abbrev pub empty_chunk : Chunk
empty_chunk = record { kind = unknown; modifier = single; key = []; pattern = [] }

abbrev pub is_empty : Text → Bool
is_empty [] = true
is_empty (_ ∷ _) = false

abbrev pub is_unknown : ChunkKind → Bool
is_unknown unknown = true
is_unknown _ = false

abbrev pub is_dynamic : ChunkKind → Bool
is_dynamic dynamic = true
is_dynamic _ = false

abbrev pub is_single : ChunkModifier → Bool
is_single single = true
is_single _ = false

-- `isLastRuneInChunk`, from the runes behind the current one
abbrev pub ends_chunk : Text → Bool
ends_chunk [] = true
ends_chunk (c ∷ _) = c == b'/'

abbrev pub flush : Option Chunk → List Chunk → List Chunk
flush none chunks = chunks
flush (some k) chunks = chunks ++ k ∷ []

-- The subpattern up to the first `)`, and what follows it.
pub split_close : Text → Option (Text × Text)
split_close [] = none
split_close (c ∷ cs) =
    if c == b')'
    then some ([], cs)
    else elim (split_close cs) [ none ↦ none | some (sub, rest) ↦ some (c ∷ sub, rest) ]

-- The chunk's kind is not known yet: the first rune decides.
abbrev pub start_chunk : ℕ → Text → Chunk → List Chunk → Step
start_chunk c rest k chunks =
    if c == b':'
    then goto
        (record { suffix = rest; current = some (record k { kind = dynamic }); chunks = chunks })
    else if c == b'*'
    then goto
        (record { suffix = rest; current = some (record k { kind = wildcard }); chunks = chunks })
    else if c == b'('
    then goto (record {
      suffix = c ∷ rest;
      current = some (record k { kind = wildcard });
      chunks = chunks;
    })
    else goto
        (record { suffix = c ∷ rest; current = some (record k { kind = static }); chunks = chunks })

-- The rune is `(`. Without a `)` behind it the rune is passed over.
abbrev pub sub_pattern : Text → Chunk → List Chunk → Step
sub_pattern rest k chunks =
    if is_dynamic k.kind && is_empty k.key
    then fail unnamed_dynamic
    else if not (is_empty k.pattern)
    then fail multiple_subpatterns
    else elim (split_close rest) [
      | none ↦ goto (record { suffix = rest; current = some k; chunks = chunks })
      | some (sub, after) ↦
          goto (record {
            suffix = after;
            current = some (record k { pattern = sub });
            chunks = chunks;
          })
    ]

abbrev pub modifier_of : ℕ → ChunkModifier → ChunkModifier
modifier_of c m =
    if c == b'?'
    then optional
    else if c == b'+'
    then one_or_more
    else if c == b'*'
    then zero_or_more
    else m

abbrev pub append_in : ChunkKind → ℕ → Chunk → Chunk
append_in dynamic c k = record k { key = k.key ++ c ∷ [] }
append_in static c k = record k { pattern = k.pattern ++ c ∷ [] }
append_in _ c k = k

abbrev pub append_rune : ℕ → Text → Chunk → List Chunk → Step
append_rune c rest k chunks =
    goto (record { suffix = rest; current = some (append_in k.kind c k); chunks = chunks })

abbrev pub modified : ℕ → Chunk → Chunk
modified c k = record k { modifier = modifier_of c k.modifier }

abbrev pub in_chunk : ℕ → Text → Chunk → List Chunk → Step
in_chunk c rest k chunks =
    if c == b'('
    then sub_pattern rest k chunks
    else if ends_chunk rest
    then if is_single (modifier_of c k.modifier)
      then append_rune c rest (modified c k) chunks
      else goto (record { suffix = rest; current = some (modified c k); chunks = chunks })
    else append_rune c rest k chunks

-- One round of the loop, at the rune `c`.
pub step : ℕ → Text → Option Chunk → List Chunk → Step
unfolding split_close
step c rest current chunks =
    if c == b'/'
    then goto (record { suffix = rest; current = some empty_chunk; chunks = flush current chunks })
    else elim current [
      | none ↦ fail no_leading_slash
      | some k ↦ if is_unknown k.kind then start_chunk c rest k chunks else in_chunk c rest k chunks
    ]

abbrev pub continue_with : (Cursor → Parsed) → Step → Parsed
continue_with loop (goto s) = loop s
continue_with loop (fail e) = err e

-- One round with the loop's test.
abbrev pub round : (Cursor → Parsed) → Text → Option Chunk → List Chunk → Parsed
round loop [] current chunks = ok (flush current chunks)
round loop (c ∷ rest) current chunks = continue_with loop (step c rest current chunks)

pub parse_loop : ℕ → Cursor → Parsed
parse_loop zero s = out_of_fuel
parse_loop (suc fuel) s = round (parse_loop fuel) s.suffix s.current s.chunks

-- Each rune takes one round, or two where it opens a chunk.
abbrev pub enough_fuel : Text → ℕ
enough_fuel str = 2 * length str + 2

unfoldable pub parse_pattern_chunks : Text → Parsed
unfolding parse_loop step
parse_pattern_chunks str =
    parse_loop (enough_fuel str) (record { suffix = str; current = none; chunks = [] })
