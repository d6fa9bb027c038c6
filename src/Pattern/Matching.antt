-- ===== src/Pattern/Matching.antt =====
-- pattern.go: `Match` and `MatchInto`. Parameters are a map from names to the text matched. The
-- engine's indices are places in the path as a `Text`.
pub mod Agreement
use velaros.Base.{
  ℕ, ◌+◌, ◌-◌, ◌*◌, ◌&&◌, not, Option, none, some, List, [], ◌∷◌, Text, leb, if◌then◌else◌, length,
  get_elem?, take, drop,
}
use velaros.Base.Maps.{TextMap, insert, delete}
use velaros.Pattern.Defs.{Pattern, Engine}
use velaros.Pattern.Parse.{is_empty}

abbrev pub MessageParams : Type 0
MessageParams = TextMap Text

-- `panics` is an index or a slice out of range.
pub data Matching : Type 0 where
  no_match panics : Matching
  matched : MessageParams → Matching

-- `path[start:end]`
abbrev pub slice : ℕ → ℕ → Text → Option Text
slice start end path =
    if leb start end && leb end (length path)
    then some (take (end - start) (drop start path))
    else none

-- The value of the group `i` in `Match`.
abbrev pub text_at : List Text → ℕ → Option Text
text_at matches i = get_elem? matches i

-- `startIdx >= 0 && endIdx >= 0`
abbrev pub between : Text → Option ℕ → Option ℕ → Option Text
between path (some start) (some end) = slice start end path
between path _ _ = some []

-- The text between the indices that stand at the places `a` and `b`.
abbrev pub slice_span : Text → List (Option ℕ) → ℕ → ℕ → Option Text
slice_span path indices a b = elim (get_elem? indices a) [
  | none ↦ none
  | some start ↦ elim (get_elem? indices b) [ none ↦ none | some end ↦ between path start end ]
]

-- The value of the group `i` in `MatchInto`.
abbrev pub slice_at : Text → List (Option ℕ) → ℕ → Option Text
slice_at path indices i = slice_span path indices (i * 2) (i * 2 + 1)

-- The loops over the names of the groups, from the group `i` on.
pub fill_params : (ℕ → Option Text) → ℕ → List Text → MessageParams → Matching
fill_params value i [] params = matched params
fill_params value i (key ∷ keys) params =
    if is_empty key then fill_params value (i + 1) keys params else elim (value i) [
      | none ↦ panics
      | some v ↦ fill_params value (i + 1) keys (insert key v params)
    ]

-- `Match` on what `FindStringSubmatch` gives.
abbrev pub from_texts : List Text → Option (List Text) → Matching
from_texts names none = no_match
from_texts names (some []) = no_match
from_texts names (some (m ∷ ms)) = fill_params (text_at (m ∷ ms)) 1 (drop 1 names) []

unfoldable pub match : Engine → Pattern → Text → Matching
unfolding fill_params
match re p path = from_texts (re.subexp_names p.reg_exp) (re.find_submatch p.reg_exp path)

-- `for key := range *params { delete(*params, key) }`
pub clear : MessageParams → MessageParams → MessageParams
clear [] params = params
clear ((key, _) ∷ keys) params = clear keys (delete key params)

-- `MatchInto` on what `FindStringSubmatchIndex` gives. On `no_match` the caller's map is left as
-- it is.
abbrev pub from_indices : Text → List Text → MessageParams → Option (List (Option ℕ)) → Matching
from_indices path names params none = no_match
from_indices path names params (some []) = no_match
from_indices path names params (some (x ∷ xs)) =
    fill_params (slice_at path (x ∷ xs)) 1 (drop 1 names) (clear params params)

unfoldable pub match_into : Engine → Pattern → Text → MessageParams → Matching
unfolding fill_params clear
match_into re p path params =
    from_indices path (re.subexp_names p.reg_exp) params (re.find_submatch_index p.reg_exp path)
