-- ===== src/Pattern/Parse/Print.antt =====
-- The text of chunks, and the chunks that some text stands for.
use velaros.Base.{ℕ, ◌≡◌, ◌≢◌, List, [], ◌∷◌, Text, ◌==◌, ◌||◌, false, Bool, ◌++◌, All}
use velaros.Pattern.Defs.{
  Chunk, ChunkKind, unknown, static, dynamic, wildcard, ChunkModifier, single, optional,
  one_or_more, zero_or_more,
}

abbrev pub modifier_text : ChunkModifier → Text
modifier_text single = []
modifier_text optional = b'?' ∷ []
modifier_text one_or_more = b'+' ∷ []
modifier_text zero_or_more = b'*' ∷ []

abbrev pub sub_text : Text → Text
sub_text [] = []
sub_text (c ∷ cs) = b'(' ∷ c ∷ (cs ++ b')' ∷ [])

abbrev pub kind_text : ChunkKind → Text → Text → Text
kind_text unknown key pattern = []
kind_text static key pattern = pattern
kind_text dynamic key pattern = b':' ∷ (key ++ sub_text pattern)
kind_text wildcard key [] = b'*' ∷ []
kind_text wildcard key (c ∷ cs) = sub_text (c ∷ cs)

-- The text of a list of chunks.
abbrev pub print_chunks : List Chunk → Text
print_chunks [] = []
print_chunks (k ∷ ks) =
    b'/' ∷ (kind_text k.kind k.key k.pattern ++ (modifier_text k.modifier ++ print_chunks ks))

abbrev pub is_modifier : ℕ → Bool
is_modifier c = c == b'?' || (c == b'+' || c == b'*')

abbrev pub last_is_modifier : Text → Bool
last_is_modifier [] = false
last_is_modifier (c ∷ []) = is_modifier c
last_is_modifier (c ∷ d ∷ cs) = last_is_modifier (d ∷ cs)

-- A rune that neither ends a chunk nor opens a subpattern.
abbrev pub IsPlain : ℕ → Type 0
IsPlain c = (c ≢ b'/') × (c ≢ b'(')

abbrev pub StartsStatic : Text → Type 0
StartsStatic [] = ⊥
StartsStatic (c ∷ _) = (c ≢ b':') × (c ≢ b'*')

-- Without a modifier or a subpattern behind it, a name does not end in a modifier's rune.
abbrev pub EndsWell : ChunkModifier → Text → Type 0
EndsWell single cs = last_is_modifier cs ≡ false
EndsWell _ cs = Unit

abbrev pub DynamicEnd : ChunkModifier → Text → Text → Type 0
DynamicEnd m key [] = EndsWell m key
DynamicEnd m key (_ ∷ _) = Unit

abbrev pub NoClose : Text → Type 0
NoClose cs = All (λ c. c ≢ b')') cs

-- The shapes of chunks whose text is read back, by kind.
abbrev pub KindFits : ChunkKind → ChunkModifier → Text → Text → Type 0
KindFits unknown m key pattern = (m ≡ single) × (key ≡ []) × (pattern ≡ [])
KindFits static m key pattern =
    (key ≡ []) × All IsPlain pattern × StartsStatic pattern × EndsWell m pattern
KindFits dynamic m key pattern =
    (key ≢ []) × All IsPlain key × NoClose pattern × DynamicEnd m key pattern
KindFits wildcard m key pattern = (key ≡ []) × NoClose pattern

abbrev pub Fits : Chunk → Type 0
Fits k = KindFits k.kind k.modifier k.key k.pattern

abbrev pub chunk : ChunkKind → ChunkModifier → Text → Text → Chunk
chunk kind m key pattern = record { kind = kind; modifier = m; key = key; pattern = pattern }
