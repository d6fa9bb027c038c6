-- ===== src/Pattern.antt =====
-- pattern.go: route patterns. `Defs` has the data and the engine of regular expressions, `Parse`
-- the parser of pattern strings, `Compile` the translation to a regular expression and `NewPattern`,
-- `Matching` the functions `Match` and `MatchInto`, `Build` the function `Path`, `Params` the
-- look-up of a parameter.
pub mod Defs
pub mod Parse
pub mod Compile
pub mod Matching
pub mod Build
pub mod Params
