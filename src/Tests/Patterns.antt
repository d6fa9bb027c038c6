-- ===== src/Tests/Patterns.antt =====
-- Patterns: parsing, matching and building of paths.
use velaros.Base.{◌≡◌, refl, List, [], ◌∷◌, Text, codes, arith, ◌≢◌}
use velaros.Base.{text_eq, text_eq_iff, Bool, true, false, ◌==◌}
use velaros.Base.Maps.{has_key}
use velaros.Pattern.Matching.{MessageParams}
use velaros.Base.Maps.{lookup, insert}
use velaros.Pattern.Defs.{Chunk, static, dynamic, wildcard, single, optional, zero_or_more, Pattern}
use velaros.Pattern.Parse.{
  out_of_fuel, ok, err, no_leading_slash, unnamed_dynamic, parse_pattern_chunks,
}
use velaros.Pattern.Parse.RoundTrip.{parse_pattern_chunks-print_chunks}
use velaros.Pattern.Parse.Print.{print_chunks}
use velaros.Pattern.Compile.{reg_exp_from_chunks}
use velaros.Pattern.Matching.{matched, match, match_into}
use velaros.Pattern.Matching.Agreement.{SameMatching, match-match_into}
use velaros.Pattern.Build.{Built, missing_parameter, not_enough_wildcards, path}
use velaros.Pattern.Build
use velaros.Pattern.Build.Segments.{segments, built, path-segments}
use velaros.Pattern.Parse.Total.{parse_pattern_chunks_total}
use velaros.Tests.Fixtures.{engine, engine-Documented}

abbrev users : Chunk
users = record { kind = static; modifier = single; key = []; pattern = codes "users" }

abbrev user_id : Chunk
user_id = record { kind = dynamic; modifier = single; key = codes "id"; pattern = codes "\\d+" }

abbrev maybe_tab : Chunk
maybe_tab = record { kind = dynamic; modifier = optional; key = codes "tab"; pattern = [] }

abbrev rest : Chunk
rest = record { kind = wildcard; modifier = zero_or_more; key = []; pattern = [] }

abbrev route : List Chunk
route = users ∷ user_id ∷ maybe_tab ∷ rest ∷ []

abbrev route_text : Text
route_text = codes "/users/:id(\\d+)/:tab?/**"

print_route : print_chunks route ≡ route_text
print_route = refl

parse_tests :
    (parse_pattern_chunks route_text ≡ ok route)
    × (parse_pattern_chunks (codes "users") ≡ err no_leading_slash)
    × (parse_pattern_chunks (codes "/:(x)") ≡ err unnamed_dynamic)
unfolding parse_pattern_chunks
parse_tests = (refl, refl, refl)

parse_pattern_chunks-print_chunks_example : parse_pattern_chunks (print_chunks route) ≡ ok route
parse_pattern_chunks-print_chunks_example = parse_pattern_chunks-print_chunks route (ground arith)

compile_test :
    reg_exp_from_chunks (users ∷ maybe_tab ∷ []) ≡ codes "^\\/users(?:\\/(?P<tab>[^\\/]+))?\\/?$"
unfolding reg_exp_from_chunks
compile_test = refl

abbrev any_pattern : Pattern
any_pattern = record { str = codes "/:id"; chunks = []; reg_exp = codes "^\\/(?P<id>[^\\/]+)\\/?$" }

match_test : match engine any_pattern (codes "/x") ≡ matched ((codes "id", codes "/x") ∷ [])
unfolding match insert
match_test = refl

match-match_into_example :
    SameMatching
      (match engine any_pattern (codes "/x"))
      (match_into engine any_pattern (codes "/x") ((codes "old", codes "1") ∷ []))
match-match_into_example =
    match-match_into engine any_pattern (codes "/x") ((codes "old", codes "1") ∷ [])
      engine-Documented

abbrev full : Pattern
full = record { str = route_text; chunks = route; reg_exp = [] }

path_tests :
    (path full ((codes "id", codes "7") ∷ []) (codes "x" ∷ []) ≡ Build.ok (codes "/users/7/x"))
    × (path full [] (codes "x" ∷ []) ≡ missing_parameter (codes "id"))
    × (path full ((codes "id", codes "7") ∷ []) [] ≡ not_enough_wildcards)
unfolding path lookup text_eq
path_tests = (refl, refl, refl)

parse_pattern_chunks_total_example : parse_pattern_chunks (codes "/:(x") ≢ out_of_fuel
parse_pattern_chunks_total_example = parse_pattern_chunks_total (codes "/:(x")

path-segments_example :
    path full ((codes "id", codes "7") ∷ []) (codes "x" ∷ [])
    ≡ built (segments ((codes "id", codes "7") ∷ []) route (codes "x" ∷ []))
path-segments_example = path-segments full ((codes "id", codes "7") ∷ []) (codes "x" ∷ [])

abbrev fold_first : Text → Text → Bool
fold_first (c ∷ _) (d ∷ _) = c == d
fold_first _ _ = false

abbrev two_params : MessageParams
two_params = (codes "tab", codes "x") ∷ (codes "id", codes "7") ∷ []

only_id :
    (j : Text) → has_key j two_params ≡ true → fold_first j (codes "iD") ≡ true → j ≡ codes "id"
unfolding text_eq
only_id j known same = ground (arith, text_eq_iff j (codes "id"))
