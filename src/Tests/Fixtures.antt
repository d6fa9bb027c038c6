-- ===== src/Tests/Fixtures.antt =====
-- A small engine of regular expressions, handlers, messages and sockets for the tests.
use velaros.Base.{
  ℕ, ◌≡◌, refl, Bool, false, not, ◌||◌, Option, none, some, List, [], ◌∷◌, ◌++◌, Text, codes, ◌==◌,
  text_eq, length, take, arith, if◌then◌else◌, Bool-cases, inl, inr,
}
use velaros.Pattern.Defs.{Engine}
use velaros.Pattern.Matching.{slice}
use velaros.Pattern.Matching.Agreement.{Documented}
use velaros.Socket.Defs.{message_text, InboundMessage, Socket}
use velaros.Socket.Ops.{new_socket}
use velaros.Context.Defs.{Environment, Node, World, Script, call, effect, next, ret}
use velaros.Context.Sub.{empty_message, new_context}
use velaros.Context.Sub.{new_sub_context, finalize, try_update_parent}
use velaros.Context.Chain.{walk, slot_at, size, handler_at, try_match}
use velaros.Context.Ops.{perform}
use velaros.Context.Next.{next_step, next_fuel}
use velaros.Base.Maps.{lookup, insert, delete, copy_into}
use velaros.Pattern.Matching.{match_into}
use velaros.Connection.Message.{on_connection}

abbrev pub a : Text
a = codes "/a"

abbrev pub b : Text
b = codes "/b"

-- The rune stands for itself in the expressions of static patterns.
abbrev is_literal : ℕ → Bool
is_literal c = not (c == b'^' || (c == b'\\' || (c == b'?' || c == b'$')))

abbrev strip : Text → Text
strip [] = []
strip (c ∷ cs) = if is_literal c then c ∷ strip cs else strip cs

abbrev has_class : Text → Bool
has_class [] = false
has_class (c ∷ cs) = c == b'[' || has_class cs

-- A static expression finds its path; one with a class of runes finds every path.
abbrev finds : Text → Text → Bool
finds r path = has_class r || text_eq (strip r) (path ++ b'/' ∷ [])

abbrev groups : Text → Text → List Text
groups r path = if has_class r then path ∷ path ∷ [] else path ∷ []

abbrev spans : Text → Text → List (Option ℕ)
spans r path =
    if has_class r
    then some 0 ∷ some (length path) ∷ some 0 ∷ some (length path) ∷ []
    else some 0 ∷ some (length path) ∷ []

abbrev names : Text → List Text
names r = if has_class r then [] ∷ codes "id" ∷ [] else [] ∷ []

abbrev pub engine : Engine
engine = record {
  compiles = λ r. none;
  find_submatch = λ r path. if finds r path then some (groups r path) else none;
  find_submatch_index = λ r path. if finds r path then some (spans r path) else none;
  subexp_names = names;
}

take-length : (xs : Text) → take (length xs) xs ≡ xs
take-length [] = refl
take-length (x ∷ xs) = rw (take-length xs)

slice_all : (path : Text) → slice 0 (length path) path ≡ some path
slice_all path = ground (arith, take-length path)

pub engine-Documented : Documented engine
engine-Documented r path = elim (Bool-cases (has_class r)) [
  | inl any ↦ rw any ((slice_all path, (slice_all path, tt)), refl, omega arith)
  | inr static ↦ elim (Bool-cases (text_eq (strip r) (path ++ b'/' ∷ []))) [
    | inl same ↦ rw (static, same) ((slice_all path, tt), refl, omega arith)
    | inr other ↦ rw (static, other) tt
  ]
]

abbrev pub env : Environment
env = record { engine = engine; write = λ m. none; connection_info = none }

abbrev pub message_to : Text → InboundMessage
message_to path = record empty_message { path = path }

abbrev pub socket : Socket
socket = new_socket (codes "s")

abbrev pub at_chain : Node → InboundMessage → World
at_chain n m = on_connection (codes "u") m n message_text socket []

-- A handler that does one thing, and middleware that does one thing before and one after.
abbrev pub log : ℕ → Script
log n = call (effect n) (λ _. ret)

abbrev log_around : ℕ → ℕ → Script
log_around before after = call (effect before) (λ _. next (call (effect after) (λ _. ret)))

-- What a run of a chain computes with.
unfoldable pub runs : Unit {0}
unfolding next_fuel next_step walk slot_at size handler_at try_match match_into perform
    try_update_parent finalize new_context new_sub_context lookup insert delete copy_into text_eq
runs = tt
