-- ===== src/Pattern/Parse/RoundTrip.antt =====
-- Printing chunks and parsing the text gives the chunks back.
use velaros.Base.{
  ℕ, ◌≡◌, ◌≢◌, refl, ◌∙◌, ap, Option, none, some, List, [], ◌∷◌, Text, arith, true, false, ◌++◌,
  All,
}
use mathlib.Core.List.{append-nil, append_assoc}
use velaros.Pattern.Defs.{
  Chunk, ChunkKind, unknown, static, dynamic, wildcard, ChunkModifier, single, optional,
  one_or_more, zero_or_more,
}
use velaros.Pattern.Parse.{
  ok, Cursor, goto, is_unknown, split_close, step, empty_chunk, ends_chunk, flush, continue_with,
  parse_pattern_chunks,
}
use velaros.Pattern.Parse.Total.{
  cursor, parse_from, parse_from-nil, parse_from-cons, parse_pattern_chunks-from,
}
use velaros.Pattern.Parse.Print.{
  modifier_text, sub_text, kind_text, print_chunks, is_modifier, last_is_modifier, IsPlain,
  StartsStatic, EndsWell, DynamicEnd, NoClose, KindFits, Fits, chunk,
}

-- One round of the parser, once `step` is known.
advance :
    (c : ℕ) (rest : Text) (current : Option Chunk) (chunks : List Chunk) (s : Cursor)
    → step c rest current chunks ≡ goto s
    → parse_from (cursor (c ∷ rest) current chunks) ≡ parse_from s
advance c rest current chunks s e =
    parse_from-cons c rest current chunks ∙ ap (continue_with parse_from) e

step-modifier :
    (m : ChunkModifier) (kind : ChunkKind) (key pattern rest : Text) (chunks : List Chunk)
    → is_unknown kind ≡ false
    → ends_chunk rest ≡ true
    → parse_from (cursor (modifier_text m ++ rest) (some (chunk kind single key pattern)) chunks)
      ≡ parse_from (cursor rest (some (chunk kind m key pattern)) chunks)
unfolding step
step-modifier single kind key pattern rest chunks known ends = refl
step-modifier optional kind key pattern rest chunks known ends =
    advance b'?' rest _ chunks _ (ground arith)
step-modifier one_or_more kind key pattern rest chunks known ends =
    advance b'+' rest _ chunks _ (ground arith)
step-modifier zero_or_more kind key pattern rest chunks known ends =
    advance b'*' rest _ chunks _ (ground arith)

-- Runes that the chunk takes one by one, before `tail`.
abbrev Takes : Text → Text → Type 0
Takes [] tail = Unit
Takes (c ∷ cs) tail =
    (c ≢ b'/')
    × (c ≢ b'(')
    × (ends_chunk (cs ++ tail) ≡ true → is_modifier c ≡ false)
    × Takes cs tail

take_static :
    (cs tail key pattern : Text) (chunks : List Chunk)
    → Takes cs tail
    → parse_from (cursor (cs ++ tail) (some (chunk static single key pattern)) chunks)
      ≡ parse_from (cursor tail (some (chunk static single key (pattern ++ cs))) chunks)
unfolding step
take_static [] tail key pattern chunks h = rw append-nil
take_static (c ∷ cs) tail key pattern chunks (slash, open_, last, h) =
    advance c (cs ++ tail) _ chunks
      (cursor (cs ++ tail) (some (chunk static single key (pattern ++ c ∷ []))) chunks)
      (ground arith)
    ∙ take_static cs tail key (pattern ++ c ∷ []) chunks h
    ∙ rw append_assoc

take_dynamic :
    (cs tail key : Text) (chunks : List Chunk)
    → Takes cs tail
    → parse_from (cursor (cs ++ tail) (some (chunk dynamic single key [])) chunks)
      ≡ parse_from (cursor tail (some (chunk dynamic single (key ++ cs) [])) chunks)
unfolding step
take_dynamic [] tail key chunks h = rw append-nil
take_dynamic (c ∷ cs) tail key chunks (slash, open_, last, h) =
    advance c (cs ++ tail) _ chunks
      (cursor (cs ++ tail) (some (chunk dynamic single (key ++ c ∷ []) [])) chunks) (ground arith)
    ∙ take_dynamic cs tail (key ++ c ∷ []) chunks h
    ∙ rw append_assoc

split_close-append :
    (sub rest : Text) → NoClose sub → split_close (sub ++ b')' ∷ rest) ≡ some (sub, rest)
unfolding split_close
split_close-append [] rest h = refl
split_close-append (c ∷ sub) rest h = ground (arith, split_close-append sub rest h.1)

step_sub :
    (kind : ChunkKind) (key sub after : Text) (chunks : List Chunk)
    → is_unknown kind ≡ false
    → (kind ≡ dynamic → key ≢ [])
    → NoClose sub
    → step b'(' (sub ++ b')' ∷ after) (some (chunk kind single key [])) chunks
      ≡ goto (cursor after (some (chunk kind single key sub)) chunks)
unfolding step
step_sub unknown key sub after chunks known named closed = cc
step_sub dynamic [] sub after chunks known named closed = absurd (named refl refl)
step_sub dynamic (x ∷ key) sub after chunks known named closed =
    rw (split_close-append sub after closed)
step_sub static key sub after chunks known named closed = rw (split_close-append sub after closed)
step_sub wildcard key sub after chunks known named closed = rw (split_close-append sub after closed)

Takes-plain :
    (cs tail : Text)
    → All IsPlain cs
    → (ends_chunk tail ≡ true → last_is_modifier cs ≡ false)
    → Takes cs tail
Takes-plain [] tail plain last = tt
Takes-plain (c ∷ []) tail ((slash, open_), plain) last = (slash, open_, last, tt)
Takes-plain (c ∷ d ∷ cs) tail ((slash, open_), plain) last =
    (slash, open_, (λ ends. ground arith), Takes-plain (d ∷ cs) tail plain last)

EndsWell-last :
    (m : ChunkModifier) (cs rest : Text)
    → EndsWell m cs
    → ends_chunk (modifier_text m ++ rest) ≡ true
    → last_is_modifier cs ≡ false
EndsWell-last single cs rest well ends = well
EndsWell-last optional cs rest well ends = cc
EndsWell-last one_or_more cs rest well ends = cc
EndsWell-last zero_or_more cs rest well ends = cc

DynamicEnd-last :
    (m : ChunkModifier) (key pattern rest : Text)
    → DynamicEnd m key pattern
    → ends_chunk (sub_text pattern ++ (modifier_text m ++ rest)) ≡ true
    → last_is_modifier key ≡ false
DynamicEnd-last m key [] rest well ends = EndsWell-last m key rest well ends
DynamicEnd-last m key (c ∷ cs) rest well ends = cc

module _ (m : ChunkModifier) (rest : Text) (chunks : List Chunk)
    (ends : ends_chunk rest ≡ true) where
  tail : Text
  tail = modifier_text m ++ rest

  parse_static :
      (pattern : Text)
      → All IsPlain pattern
      → StartsStatic pattern
      → EndsWell m pattern
      → parse_from (cursor (pattern ++ tail) (some empty_chunk) chunks)
        ≡ parse_from (cursor rest (some (chunk static m [] pattern)) chunks)
  unfolding step tail
  parse_static [] plain starts well = absurd starts
  parse_static (c ∷ cs) plain starts well =
      advance c (cs ++ tail) _ chunks
        (cursor (c ∷ (cs ++ tail)) (some (chunk static single [] [])) chunks) (ground arith)
      ∙ take_static (c ∷ cs) tail [] [] chunks
          (Takes-plain (c ∷ cs) tail plain (EndsWell-last m (c ∷ cs) rest well))
      ∙ step-modifier m static [] (c ∷ cs) rest chunks refl ends

  -- `(`, a subpattern and `)`, in a chunk that has no subpattern yet
  parse_sub :
      (kind : ChunkKind) (key pattern : Text)
      → is_unknown kind ≡ false
      → (kind ≡ dynamic → key ≢ [])
      → NoClose pattern
      → parse_from (cursor (sub_text pattern ++ tail) (some (chunk kind single key [])) chunks)
        ≡ parse_from (cursor rest (some (chunk kind m key pattern)) chunks)
  unfolding step tail
  parse_sub kind key [] known named closed = step-modifier m kind key [] rest chunks known ends
  parse_sub kind key (c ∷ cs) known named closed = rw (append_assoc cs) (
      advance b'(' (c ∷ (cs ++ (b')' ∷ [] ++ tail))) _ chunks
        (cursor tail (some (chunk kind single key (c ∷ cs))) chunks)
        (step_sub kind key (c ∷ cs) tail chunks known named closed)
      ∙ step-modifier m kind key (c ∷ cs) rest chunks known ends)

  parse_chunk :
      (kind : ChunkKind) (key pattern : Text)
      → KindFits kind m key pattern
      → parse_from (cursor (kind_text kind key pattern ++ tail) (some empty_chunk) chunks)
        ≡ parse_from (cursor rest (some (chunk kind m key pattern)) chunks)
  unfolding step tail
  parse_chunk unknown key pattern (is_single, no_key, no_pattern) =
      rw (is_single, no_key, no_pattern)
  parse_chunk static key pattern (no_key, plain, starts, well) =
      rw no_key (parse_static pattern plain starts well)
  parse_chunk dynamic key pattern (named, plain, closed, well) = rw (append_assoc key) (
      advance b':' _ _ chunks
        (cursor (key ++ (sub_text pattern ++ tail)) (some (chunk dynamic single [] [])) chunks) refl
      ∙ take_dynamic key (sub_text pattern ++ tail) [] chunks
          (Takes-plain key _ plain (DynamicEnd-last m key pattern rest well))
      ∙ parse_sub dynamic key pattern refl (λ _. named) closed)
  parse_chunk wildcard key [] (no_key, closed) =
      advance b'*' tail _ chunks (cursor tail (some (chunk wildcard single [] [])) chunks) refl
      ∙ step-modifier m wildcard [] [] rest chunks refl ends
      ∙ rw no_key
  parse_chunk wildcard key (c ∷ cs) (no_key, closed) =
      advance b'(' _ _ chunks
        (cursor (sub_text (c ∷ cs) ++ tail) (some (chunk wildcard single [] [])) chunks) refl
      ∙ parse_sub wildcard [] (c ∷ cs) refl (λ e. cc) closed
      ∙ rw no_key

print_chunks-ends : (ks : List Chunk) → ends_chunk (print_chunks ks) ≡ true
print_chunks-ends [] = refl
print_chunks-ends (k ∷ ks) = refl

parse_from-print_chunks :
    (ks : List Chunk) (current : Option Chunk) (chunks : List Chunk)
    → All Fits ks
    → parse_from (cursor (print_chunks ks) current chunks) ≡ ok (flush current chunks ++ ks)
unfolding step tail
parse_from-print_chunks [] current chunks h = parse_from-nil current chunks ∙ rw append-nil
parse_from-print_chunks (k ∷ ks) current chunks (fits, h) =
    advance b'/' _ current chunks
      (cursor (kind_text k.kind k.key k.pattern ++ (modifier_text k.modifier ++ print_chunks ks))
        (some empty_chunk) (flush current chunks))
      refl
    ∙ parse_chunk k.modifier (print_chunks ks) (flush current chunks) (print_chunks-ends ks) k.kind
        k.key k.pattern fits
    ∙ parse_from-print_chunks ks (some k) (flush current chunks) h
    ∙ ap ok (append_assoc (flush current chunks) (k ∷ []) ks)

-- The parser reads back the text of every list of chunks of these shapes: an empty segment; a static
-- name that is not empty, without `/` and `(`, and without a leading `:` or `*`; a parameter with a
-- name that is not empty, without `/` and `(`, and any subpattern without `)`; a wildcard with any
-- subpattern without `)`. The last three have any modifier, but without a modifier a static name, or a
-- parameter's name without a subpattern, does not end in a modifier's rune.
pub parse_pattern_chunks-print_chunks :
    (ks : List Chunk) → All Fits ks → parse_pattern_chunks (print_chunks ks) ≡ ok ks
parse_pattern_chunks-print_chunks ks h =
    parse_pattern_chunks-from (print_chunks ks) ∙ parse_from-print_chunks ks none [] h
