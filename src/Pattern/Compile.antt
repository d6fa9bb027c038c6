-- ===== src/Pattern/Compile.antt =====
-- pattern.go: `regExpFromChunks`, `NewPattern` and `String`.
use velaros.Base.{
  ◌≡◌, arith, inl, inr, Option-cases, none, some, List, [], ◌∷◌, ◌++◌, Text, codes, if◌then◌else◌,
}
use velaros.Pattern.Defs.{
  Chunk, ChunkKind, unknown, static, dynamic, wildcard, ChunkModifier, single, optional,
  one_or_more, zero_or_more, Pattern, Engine,
}
use velaros.Pattern.Parse.{ParseError, Parsed, is_empty, parse_pattern_chunks}

abbrev slash : Text
slash = codes "\\/"

-- an optional group that is not captured
abbrev group : Text → Text
group body = codes "(?:" ++ (body ++ codes ")")

abbrev named_group : Text → Text → Text
named_group key body = codes "(?P<" ++ (key ++ (codes ">" ++ (body ++ codes ")")))

-- `static` and `wildcard` chunks
abbrev plain_reg_exp : ChunkModifier → Text → Text
plain_reg_exp single pattern = slash ++ pattern
plain_reg_exp optional pattern = group (slash ++ pattern) ++ codes "?"
plain_reg_exp one_or_more pattern = slash ++ (pattern ++ (group (slash ++ pattern) ++ codes "*"))
plain_reg_exp zero_or_more pattern =
    group (slash ++ (pattern ++ (group (slash ++ pattern) ++ codes "*"))) ++ codes "?"

-- `dynamic` chunks
abbrev dynamic_reg_exp : ChunkModifier → Text → Text → Text
dynamic_reg_exp single key pattern = slash ++ named_group key pattern
dynamic_reg_exp optional key pattern = group (slash ++ named_group key pattern) ++ codes "?"
dynamic_reg_exp one_or_more key pattern =
    slash ++ named_group key (group pattern ++ (group (slash ++ pattern) ++ codes "*"))
dynamic_reg_exp zero_or_more key pattern =
    group (slash ++ named_group key (pattern ++ (group (slash ++ pattern) ++ codes "*")))
    ++ codes "?"

abbrev kind_reg_exp : ChunkKind → ChunkModifier → Text → Text → Text
kind_reg_exp unknown m key pattern = []
kind_reg_exp static m key pattern = plain_reg_exp m pattern
kind_reg_exp wildcard m key pattern = plain_reg_exp m pattern
kind_reg_exp dynamic m key pattern = dynamic_reg_exp m key pattern

-- One round of the loop of `regExpFromChunks`.
pub chunk_reg_exp : Chunk → Text
chunk_reg_exp k =
    kind_reg_exp k.kind k.modifier k.key (if is_empty k.pattern then codes "[^\\/]+" else k.pattern)

reg_exp_loop : Text → List Chunk → Text
reg_exp_loop str [] = str
reg_exp_loop str (k ∷ ks) = reg_exp_loop (str ++ chunk_reg_exp k) ks

-- The source that `regExpFromChunks` hands to `regexp.Compile`.
unfoldable pub reg_exp_from_chunks : List Chunk → Text
unfolding reg_exp_loop chunk_reg_exp
reg_exp_from_chunks ks = reg_exp_loop (codes "^") ks ++ codes "\\/?$"

pub data NewPattern : Type 0 where
  ok : Pattern → NewPattern
  bad_chunks : ParseError → NewPattern
  bad_reg_exp : Text → NewPattern
  out_of_fuel : NewPattern

abbrev compile_chunks : Engine → Text → List Chunk → NewPattern
compile_chunks re str chunks = elim (re.compiles (reg_exp_from_chunks chunks)) [
  | some why ↦ bad_reg_exp why
  | none ↦ ok (record { str = str; chunks = chunks; reg_exp = reg_exp_from_chunks chunks })
]

abbrev from_parsed : Engine → Text → Parsed → NewPattern
from_parsed re str (Parsed.ok chunks) = compile_chunks re str chunks
from_parsed re str (Parsed.err e) = bad_chunks e
from_parsed re str Parsed.out_of_fuel = out_of_fuel

unfoldable pub new_pattern : Engine → Text → NewPattern
new_pattern re str = from_parsed re str (parse_pattern_chunks str)

-- `String`
abbrev pub string : Pattern → Text
string p = p.str

from_parsed-string :
    (re : Engine) (str : Text) (parsed : Parsed) (p : Pattern)
    → from_parsed re str parsed ≡ ok p
    → string p ≡ str
from_parsed-string re str (Parsed.ok chunks) p e =
    elim (Option-cases (re.compiles (reg_exp_from_chunks chunks))) [
      | inl good ↦ ground arith
      | inr (why, bad) ↦ absurd (ground arith)
    ]
from_parsed-string re str (Parsed.err why) p e = absurd cc
from_parsed-string re str Parsed.out_of_fuel p e = absurd cc

-- A pattern keeps the text that it was made from.
pub new_pattern-string :
    (re : Engine) (str : Text) (p : Pattern) → new_pattern re str ≡ ok p → string p ≡ str
unfolding new_pattern
new_pattern-string re str p made = from_parsed-string re str (parse_pattern_chunks str) p made
