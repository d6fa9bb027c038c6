-- ===== src/Pattern/Matching/Agreement.antt =====
-- `MatchInto` answers what `Match` answers.
use velaros.Base.{
  ℕ, zero, suc, ◌+◌, ◌*◌, ◌<◌, ◌≡◌, inl, inr, ◌≢◌, refl, sym, ◌∙◌, Option, none, some, List, [],
  ◌∷◌, Text, length, arith, Bool-cases, drop,
}
use mathlib.Core.Path.{ap₂}
use velaros.Base.Maps.{lookup, insert, delete, lookup-insert, lookup-delete}
use velaros.Pattern.Defs.{Pattern, Engine}
use velaros.Pattern.Parse.{is_empty}
use velaros.Pattern.Matching.{
  MessageParams, Matching, no_match, panics, matched, slice, text_at, slice_span, slice_at,
  fill_params, match, clear, match_into, from_texts, from_indices,
}

-- A group that took no part has the index -1 twice and the empty text.
abbrev pub SubMatch : Text → Option ℕ → Option ℕ → Text → Type 0
SubMatch path none none m = m ≡ []
SubMatch path (some start) (some end) m = slice start end path ≡ some m
SubMatch path _ _ m = ⊥

-- The texts and the indices of one match, group by group.
abbrev pub Agree : Text → List Text → List (Option ℕ) → Type 0
Agree path [] [] = Unit
Agree path (m ∷ ms) (start ∷ end ∷ rest) = SubMatch path start end m × Agree path ms rest
Agree path _ _ = ⊥

abbrev pub BothFind : Text → List Text → Option (List Text) → Option (List (Option ℕ)) → Type 0
BothFind path names none none = Unit
BothFind path names (some ms) (some xs) =
    Agree path ms xs × (length ms ≡ length names) × (0 < length ms)
BothFind path names _ _ = ⊥

-- What package regexp documents of its two searches: both find nothing, or both find one match
-- of as many groups as there are names.
abbrev pub Documented : Engine → Type 0
Documented re =
    (r path : Text)
    → BothFind path (re.subexp_names r) (re.find_submatch r path) (re.find_submatch_index r path)

-- The same answer, with maps that agree at every key.
abbrev pub SameMatching : Matching → Matching → Type 0
SameMatching no_match no_match = Unit
SameMatching (matched a) (matched b) = (key : Text) → lookup key a ≡ lookup key b
SameMatching _ _ = ⊥

twice : (i : ℕ) → suc i * 2 ≡ suc (suc (i * 2))
twice i = omega arith

twice_next : (i : ℕ) → suc i * 2 + 1 ≡ suc (suc (i * 2 + 1))
twice_next i = omega arith

Agree-slice_at :
    (path : Text) (ms : List Text) (xs : List (Option ℕ)) (i : ℕ)
    → Agree path ms xs
    → i < length ms
    → slice_at path xs i ≡ text_at ms i
Agree-slice_at path [] xs i h lt = absurd (omega arith)
Agree-slice_at path (m ∷ ms) [] i h lt = absurd h
Agree-slice_at path (m ∷ ms) (x ∷ []) i h lt = absurd h
Agree-slice_at path (m ∷ ms) (none ∷ none ∷ xs) zero (h, hs) lt = rw h
Agree-slice_at path (m ∷ ms) (some a ∷ some b ∷ xs) zero (h, hs) lt = h
Agree-slice_at path (m ∷ ms) (none ∷ some b ∷ xs) zero (h, hs) lt = absurd h
Agree-slice_at path (m ∷ ms) (some a ∷ none ∷ xs) zero (h, hs) lt = absurd h
Agree-slice_at path (m ∷ ms) (x ∷ y ∷ xs) (suc i) (h, hs) lt =
    ap₂ (slice_span path (x ∷ y ∷ xs)) (twice i) (twice_next i)
    ∙ Agree-slice_at path ms xs i hs (omega arith)

lookup-insert_congr :
    (a b : MessageParams) (k : Text) (v : Text)
    → ((key : Text) → lookup key a ≡ lookup key b)
    → (key : Text) → lookup key (insert k v a) ≡ lookup key (insert k v b)
lookup-insert_congr a b k v h key = rw (lookup-insert k key v a, lookup-insert k key v b, h key)

fill_params-Same :
    (f g : ℕ → Option Text) (n i : ℕ) (keys : List Text) (a b : MessageParams)
    → ((j : ℕ) → j < n → f j ≡ g j)
    → ((j : ℕ) → j < n → (t : Text) × (g j ≡ some t))
    → i + length keys ≡ n
    → ((key : Text) → lookup key a ≡ lookup key b)
    → SameMatching (fill_params f i keys a) (fill_params g i keys b)
unfolding fill_params
fill_params-Same f g n i [] a b same found size h = h
fill_params-Same f g n i (k ∷ keys) a b same found size h = elim (Bool-cases (is_empty k)) [
  | inl empty ↦ rw empty (fill_params-Same f g n (i + 1) keys a b same found (omega arith) h)
  | inr named ↦
      let (v, here) = found i (omega arith) in
      rw (named, same i (omega arith), here)
        (fill_params-Same f g n (i + 1) keys (insert k v a) (insert k v b) same found (omega arith)
          (lookup-insert_congr a b k v h))
]

text_at-some : (ms : List Text) (j : ℕ) → j < length ms → (t : Text) × (text_at ms j ≡ some t)
text_at-some [] j lt = absurd (omega arith)
text_at-some (m ∷ ms) zero lt = (m, refl)
text_at-some (m ∷ ms) (suc j) lt = text_at-some ms j (omega arith)

-- Clearing leaves nothing, whatever the map held.
lookup-clear :
    (keys params : MessageParams) (j : Text)
    → (lookup j keys ≡ none → lookup j params ≡ none)
    → lookup j (clear keys params) ≡ none
unfolding clear lookup
lookup-clear [] params j h = h refl
lookup-clear ((k, v) ∷ keys) params j h =
    lookup-clear keys (delete k params) j (λ e. lookup-delete k j params ∙ ground (arith, h))

drop_one : (names : List Text) → 0 < length names → 1 + length (drop 1 names) ≡ length names
drop_one [] lt = absurd (omega arith)
drop_one (n ∷ ns) lt = omega arith

module _ (path : Text) (names : List Text) (params : MessageParams) where
  found-Same :
      (ms : List Text) (xs : List (Option ℕ))
      → Agree path ms xs
      → length ms ≡ length names
      → 0 < length ms
      → SameMatching
          (fill_params (text_at ms) 1 (drop 1 names) [])
          (fill_params (slice_at path xs) 1 (drop 1 names) (clear params params))
  unfolding lookup
  found-Same ms xs agree size pos =
      fill_params-Same (text_at ms) (slice_at path xs) (length ms) 1 (drop 1 names) []
        (clear params params) (λ j lt. sym (Agree-slice_at path ms xs j agree lt))
        (λ j lt.
          let (t, here) = text_at-some ms j lt in (t, Agree-slice_at path ms xs j agree lt ∙ here))
        (drop_one names (omega arith) ∙ sym size)
        (λ key. sym (lookup-clear params params key (λ e. e)))

  searches-Same :
      (texts : Option (List Text)) (indices : Option (List (Option ℕ)))
      → BothFind path names texts indices
      → SameMatching (from_texts names texts) (from_indices path names params indices)
  searches-Same none none h = tt
  searches-Same none (some xs) h = absurd h
  searches-Same (some ms) none h = absurd h
  searches-Same (some []) (some xs) (agree, size, pos) = absurd (omega arith)
  searches-Same (some (m ∷ ms)) (some []) (agree, size, pos) = absurd agree
  searches-Same (some (m ∷ ms)) (some (x ∷ xs)) (agree, size, pos) =
      found-Same (m ∷ ms) (x ∷ xs) agree size pos

-- With an engine that behaves as package regexp documents, `MatchInto` on any map, left over from
-- earlier matches or empty, answers exactly as `Match` does: the same verdict, the same value at
-- every key, no key left over, and no index out of range.
pub match-match_into :
    (re : Engine) (p : Pattern) (path : Text) (params : MessageParams)
    → Documented re
    → SameMatching (match re p path) (match_into re p path params)
unfolding match match_into
match-match_into re p path params doc =
    searches-Same path (re.subexp_names p.reg_exp) params (re.find_submatch p.reg_exp path)
      (re.find_submatch_index p.reg_exp path) (doc p.reg_exp path)

-- `MatchInto` never slices out of range.
pub match_into-ne-panics :
    (re : Engine) (p : Pattern) (path : Text) (params : MessageParams)
    → Documented re
    → match_into re p path params ≢ panics
match_into-ne-panics re p path params doc e =
    not_same (match re p path) (rw e at (match-match_into re p path params doc))
  where
    not_same : (a : Matching) → SameMatching a panics → ⊥
    not_same no_match h = h
    not_same panics h = h
    not_same (matched _) h = h
