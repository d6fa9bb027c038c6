-- ===== src/Pattern/Build.antt =====
-- pattern.go: `Path`, the path of a pattern for given parameters.
pub mod Segments
use velaros.Base.{
  ℕ, zero, suc, ◌+◌, Option, none, some, List, [], ◌∷◌, ◌++◌, Text, get_elem?, if◌then◌else◌, Bool,
  true, false,
}
use velaros.Base.Maps.{lookup}
use velaros.Pattern.Defs.{
  Chunk, ChunkKind, unknown, static, dynamic, wildcard, ChunkModifier, single, optional,
  one_or_more, zero_or_more, Pattern,
}
use velaros.Pattern.Matching.{MessageParams}

pub data Built : Type 0 where
  ok : Text → Built
  missing_parameter : Text → Built
  not_enough_wildcards : Built

-- `continue`, where a parameter is missing, or the error
abbrev pub skips : ChunkModifier → Bool
skips optional = true
skips zero_or_more = true
skips _ = false

-- the end of the function
abbrev pub or_slash : Text → Text
or_slash [] = b'/' ∷ []
or_slash (c ∷ cs) = c ∷ cs

-- What one round of the loop leaves: `path` and `wildcardIndex`, or the function's result.
pub data Round : Type 0 where
  more : Text → ℕ → Round
  stop : Built → Round

abbrev pub path_next : (Text → ℕ → Built) → Round → Built
path_next loop (more path index) = loop path index
path_next loop (stop b) = b

module _ (params : MessageParams) (wildcards : List Text) where
  abbrev dynamic_round : Chunk → Text → ℕ → Option Text → Round
  dynamic_round k path index (some value) = more (path ++ b'/' ∷ value) index
  dynamic_round k path index none =
      if skips k.modifier then more path index else stop (missing_parameter k.key)

  abbrev wildcard_round : Text → ℕ → Option Text → Round
  wildcard_round path index (some value) = more (path ++ b'/' ∷ value) (index + 1)
  wildcard_round path index none = stop not_enough_wildcards

  abbrev pub path_round : ChunkKind → Chunk → Text → ℕ → Round
  path_round unknown k path index = more path index
  path_round static k path index = more (path ++ b'/' ∷ k.pattern) index
  path_round dynamic k path index = dynamic_round k path index (lookup k.key params)
  path_round wildcard k path index = wildcard_round path index (get_elem? wildcards index)

  pub path_loop : List Chunk → Text → ℕ → Built
  path_loop [] path index = ok (or_slash path)
  path_loop (k ∷ ks) path index = path_next (path_loop ks) (path_round k.kind k path index)

unfoldable pub path : Pattern → MessageParams → List Text → Built
unfolding path_loop
path p params wildcards = path_loop params wildcards p.chunks [] 0
