-- ===== src/Pattern/Build/Segments.antt =====
-- `Path` puts together the segments that the chunks ask for.
use mathlib.Core.List.{append-nil, append_assoc}
use velaros.Base.{
  ℕ, zero, suc, ◌+◌, ◌≡◌, refl, ap, ◌∙◌, Option, none, some, List, [], ◌∷◌, ◌++◌, Text, get_elem?,
  Bool, true, false, codes, if◌then◌else◌, drop, arith, inl, inr, Option-cases,
}
use velaros.Base.Maps.{lookup}
use velaros.Pattern.Defs.{
  Chunk, ChunkKind, unknown, static, dynamic, wildcard, ChunkModifier, single, optional,
  one_or_more, zero_or_more, Pattern,
}
use velaros.Pattern.Matching.{MessageParams}
use velaros.Pattern.Build.{
  Built, ok, missing_parameter, not_enough_wildcards, or_slash, path_loop, path, path_next,
  path_round,
}

-- The segments of a path, each with its slash.
abbrev pub join : List Text → Text
join [] = []
join (s ∷ ss) = b'/' ∷ (s ++ join ss)

pub data Segments : Type 0 where
  all : List Text → Segments
  missing : Text → Segments
  short : Segments

abbrev pub prepend : Text → Segments → Segments
prepend s (all ss) = all (s ∷ ss)
prepend s bad = bad

-- A parameter is optional with the modifiers ? and *.
abbrev pub is_optional : ChunkModifier → Bool
is_optional single = false
is_optional optional = true
is_optional one_or_more = false
is_optional zero_or_more = true

abbrev pub parameter : Chunk → Option Text → Segments → Segments
parameter k (some value) rest = prepend value rest
parameter k none rest = if is_optional k.modifier then rest else missing k.key

abbrev pub first_wildcard : (List Text → Segments) → List Text → Segments
first_wildcard rest [] = short
first_wildcard rest (w ∷ ws) = prepend w (rest ws)

module _ (params : MessageParams) where
  abbrev pub segment_of : ChunkKind → Chunk → (List Text → Segments) → List Text → Segments
  segment_of unknown k rest ws = rest ws
  segment_of static k rest ws = prepend k.pattern (rest ws)
  segment_of dynamic k rest ws = parameter k (lookup k.key params) (rest ws)
  segment_of wildcard k rest ws = first_wildcard rest ws

  -- The segments that the chunks stand for, with the wildcards' values taken in order: the first
  -- parameter that is needed and absent, or the first wildcard without a value, is the error.
  pub segments : List Chunk → List Text → Segments
  segments [] ws = all []
  segments (k ∷ ks) ws = segment_of k.kind k (segments ks) ws

-- The path of the segments, "/" where there is none.
abbrev pub built : Segments → Built
built (all []) = ok (codes "/")
built (all (s ∷ ss)) = ok (join (s ∷ ss))
built (missing key) = missing_parameter key
built short = not_enough_wildcards

-- The same behind what the loop has put together.
abbrev built_behind : Text → Segments → Built
built_behind path (all ss) = ok (or_slash (path ++ join ss))
built_behind path (missing key) = missing_parameter key
built_behind path short = not_enough_wildcards

built_behind-start : (r : Segments) → built_behind [] r ≡ built r
built_behind-start (all []) = refl
built_behind-start (all (s ∷ ss)) = refl
built_behind-start (missing key) = refl
built_behind-start short = refl

built_behind-prepend :
    (path s : Text) (r : Segments)
    → built_behind (path ++ b'/' ∷ s) r ≡ built_behind path (prepend s r)
built_behind-prepend path s (all ss) =
    ap (λ t. ok (or_slash t)) (append_assoc path (b'/' ∷ s) (join ss))
built_behind-prepend path s (missing key) = refl
built_behind-prepend path s short = refl

data Which (m : ChunkModifier) : Type 0 where
  one : m ≡ single → Which m
  maybe : m ≡ optional → Which m
  some_more : m ≡ one_or_more → Which m
  any : m ≡ zero_or_more → Which m

Modifier-cases : (m : ChunkModifier) → Which m
Modifier-cases single = one refl
Modifier-cases optional = maybe refl
Modifier-cases one_or_more = some_more refl
Modifier-cases zero_or_more = any refl

data Nth (ws : List Text) (i : ℕ) : Type 0 where
  past : get_elem? ws i ≡ none → drop i ws ≡ [] → Nth ws i
  here : (w : Text) → get_elem? ws i ≡ some w → drop i ws ≡ w ∷ drop (i + 1) ws → Nth ws i

nth : (ws : List Text) (i : ℕ) → Nth ws i
nth [] zero = past refl refl
nth [] (suc i) = past refl refl
nth (w ∷ ws) zero = here w refl refl
nth (w ∷ ws) (suc i) = next (nth ws i)
  where
    next : Nth ws i → Nth (w ∷ ws) (suc i)
    next (past e d) = past e d
    next (here v e d) = let later : suc i + 1 ≡ suc (i + 1) = omega arith in here v e (rw later d)

module _ (params : MessageParams) (ws : List Text) where
  abbrev Loops : List Chunk → Type 0
  Loops ks =
      (front : Text) (i : ℕ)
      → path_loop params ws ks front i ≡ built_behind front (segments params ks (drop i ws))

  absent_lem :
      (k : Chunk) (ks : List Chunk) (front : Text) (i : ℕ)
      → Loops ks
      → lookup k.key params ≡ none
      → path_next (path_loop params ws ks) (path_round params ws dynamic k front i)
        ≡ built_behind front (segment_of params dynamic k (segments params ks) (drop i ws))
  absent_lem k ks front i ih absent = elim (Modifier-cases k.modifier) [
    | one e ↦ rw (absent, e)
    | maybe e ↦ rw (absent, e) (ih front i)
    | some_more e ↦ rw (absent, e)
    | any e ↦ rw (absent, e) (ih front i)
  ]

  path_dynamic :
      (k : Chunk) (ks : List Chunk) (front : Text) (i : ℕ)
      → Loops ks
      → path_next (path_loop params ws ks) (path_round params ws dynamic k front i)
        ≡ built_behind front (segment_of params dynamic k (segments params ks) (drop i ws))
  path_dynamic k ks front i ih = elim (Option-cases (lookup k.key params)) [
    | inl absent ↦ absent_lem k ks front i ih absent
    | inr (v, found) ↦ rw found (ih (front ++ b'/' ∷ v) i ∙ built_behind-prepend front v _)
  ]

  path_wildcard :
      (k : Chunk) (ks : List Chunk) (front : Text) (i : ℕ)
      → Loops ks
      → path_next (path_loop params ws ks) (path_round params ws wildcard k front i)
        ≡ built_behind front (segment_of params wildcard k (segments params ks) (drop i ws))
  path_wildcard k ks front i ih = elim (nth ws i) [
    | past e d ↦ rw (e, d)
    | here w e d ↦ rw (e, d) (ih (front ++ b'/' ∷ w) (i + 1) ∙ built_behind-prepend front w _)
  ]

  path_of_kind :
      (kind : ChunkKind) (k : Chunk) (ks : List Chunk) (front : Text) (i : ℕ)
      → Loops ks
      → path_next (path_loop params ws ks) (path_round params ws kind k front i)
        ≡ built_behind front (segment_of params kind k (segments params ks) (drop i ws))
  path_of_kind unknown k ks front i ih = ih front i
  path_of_kind static k ks front i ih =
      ih (front ++ b'/' ∷ k.pattern) i ∙ built_behind-prepend front k.pattern _
  path_of_kind dynamic k ks front i ih = path_dynamic k ks front i ih
  path_of_kind wildcard k ks front i ih = path_wildcard k ks front i ih

  path_loop-segments : (ks : List Chunk) → Loops ks
  unfolding path_loop segments
  path_loop-segments [] front i = rw append-nil
  path_loop-segments (k ∷ ks) front i = path_of_kind k.kind k ks front i (path_loop-segments ks)

-- `Path` is the join of the segments that the chunks ask for, "/" where there is none, and fails
-- exactly where they do, with the error of the first chunk that has no value: a parameter that is
-- not given and whose modifier is neither `?` nor `*`, or a wildcard beyond the given values.
pub path-segments :
    (p : Pattern) (params : MessageParams) (ws : List Text)
    → path p params ws ≡ built (segments params p.chunks ws)
unfolding path
path-segments p params ws =
    path_loop-segments params ws p.chunks [] 0 ∙ built_behind-start (segments params p.chunks ws)
