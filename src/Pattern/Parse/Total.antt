-- ===== src/Pattern/Parse/Total.antt =====
-- The parser's loop ends, and its fuel does not matter once there is enough.
use velaros.Base.{
  ℕ, zero, suc, ◌+◌, ◌*◌, ◌≤◌, ◌<◌, ◌≡◌, ◌≢◌, refl, Option, none, some, List, [], ◌∷◌, Text,
  if◌then◌else◌, length, arith,
}
use velaros.Pattern.Defs.{Chunk}
use velaros.Pattern.Parse.{
  Parsed, out_of_fuel, Cursor, Step, goto, fail, is_unknown, split_close, step, round,
  continue_with, parse_loop, parse_pattern_chunks,
}

-- A chunk whose kind is open may cost one round more.
abbrev pub pending : Option Chunk → ℕ
pending none = 0
pending (some k) = if is_unknown k.kind then 1 else 0

abbrev pub measure : Cursor → ℕ
measure s = 2 * length s.suffix + pending s.current

abbrev rest_length : Option (Text × Text) → ℕ
rest_length none = 0
rest_length (some p) = length p.1

split_close-le : (cs : Text) → rest_length (split_close cs) ≤ length cs
unfolding split_close
split_close-le [] = omega arith
split_close-le (c ∷ cs) = ground (arith, split_close-le cs)

abbrev StepBelow : ℕ → Step → Type 0
StepBelow n (goto s) = measure s < n
StepBelow n (fail e) = Unit

step-StepBelow :
    (c : ℕ) (rest : Text) (current : Option Chunk) (chunks : List Chunk)
    → StepBelow (2 * length (c ∷ rest) + pending current) (step c rest current chunks)
unfolding step
step-StepBelow c rest none chunks = ground arith
step-StepBelow c rest (some k) chunks = ground (arith, split_close-le rest)

continue_with_congr :
    (n : ℕ) (f g : Cursor → Parsed) (t : Step)
    → StepBelow n t
    → ((s : Cursor) → measure s < n → f s ≡ g s)
    → continue_with f t ≡ continue_with g t
continue_with_congr n f g (goto s) below h = h s below
continue_with_congr n f g (fail e) below h = refl

abbrev pub cursor : Text → Option Chunk → List Chunk → Cursor
cursor suffix current chunks = record { suffix = suffix; current = current; chunks = chunks }

round_congr :
    (f g : Cursor → Parsed) (cs : Text) (current : Option Chunk) (chunks : List Chunk)
    → ((s : Cursor) → measure s < 2 * length cs + pending current → f s ≡ g s)
    → round f cs current chunks ≡ round g cs current chunks
round_congr f g [] current chunks h = refl
round_congr f g (c ∷ rest) current chunks h =
    continue_with_congr (2 * length (c ∷ rest) + pending current) f g (step c rest current chunks)
      (step-StepBelow c rest current chunks) h

parse_loop_stable :
    (f g : ℕ) (s : Cursor) → measure s < f → measure s < g → parse_loop f s ≡ parse_loop g s
unfolding parse_loop
parse_loop_stable zero g s below_f below_g = absurd (omega arith)
parse_loop_stable (suc f) zero s below_f below_g = absurd (omega arith)
parse_loop_stable (suc f) (suc g) s below_f below_g =
    round_congr (parse_loop f) (parse_loop g) s.suffix s.current s.chunks
      (λ t below. parse_loop_stable f g t (omega arith) (omega arith))

-- The parser from a state of its loop, with fuel to spare.
pub parse_from : Cursor → Parsed
parse_from s = parse_loop (suc (measure s)) s

pub parse_from-nil :
    (current : Option Chunk) (chunks : List Chunk)
    → parse_from (cursor [] current chunks) ≡ round parse_from [] current chunks
unfolding parse_from parse_loop
parse_from-nil current chunks = refl

pub parse_from-cons :
    (c : ℕ) (rest : Text) (current : Option Chunk) (chunks : List Chunk)
    → parse_from (cursor (c ∷ rest) current chunks)
      ≡ continue_with parse_from (step c rest current chunks)
unfolding parse_from parse_loop
parse_from-cons c rest current chunks =
    let n = 2 * length (c ∷ rest) + pending current in
    continue_with_congr n (parse_loop n) parse_from (step c rest current chunks)
      (step-StepBelow c rest current chunks)
      (λ s below. parse_loop_stable n (suc (measure s)) s below (omega arith))

continue_with_total :
    (n : ℕ) (f : Cursor → Parsed) (t : Step)
    → StepBelow n t
    → ((s : Cursor) → measure s < n → f s ≢ out_of_fuel)
    → continue_with f t ≢ out_of_fuel
continue_with_total n f (goto s) below h = h s below
continue_with_total n f (fail e) below h = λ q. cc

round_total :
    (f : Cursor → Parsed) (cs : Text) (current : Option Chunk) (chunks : List Chunk)
    → ((s : Cursor) → measure s < 2 * length cs + pending current → f s ≢ out_of_fuel)
    → round f cs current chunks ≢ out_of_fuel
round_total f [] current chunks h = λ q. cc
round_total f (c ∷ rest) current chunks h =
    continue_with_total (2 * length (c ∷ rest) + pending current) f (step c rest current chunks)
      (step-StepBelow c rest current chunks) h

parse_loop_total : (f : ℕ) (s : Cursor) → measure s < f → parse_loop f s ≢ out_of_fuel
unfolding parse_loop
parse_loop_total zero s below = absurd (omega arith)
parse_loop_total (suc f) s below =
    round_total (parse_loop f) s.suffix s.current s.chunks
      (λ t fits. parse_loop_total f t (omega arith))

pub parse_pattern_chunks-from :
    (str : Text) → parse_pattern_chunks str ≡ parse_from (cursor str none [])
unfolding parse_pattern_chunks parse_from
parse_pattern_chunks-from str =
    parse_loop_stable _ (suc (measure (cursor str none []))) (cursor str none []) (omega arith)
      (omega arith)

-- The parser returns chunks or one of its errors on every string: its loop ends.
pub parse_pattern_chunks_total : (str : Text) → parse_pattern_chunks str ≢ out_of_fuel
unfolding parse_pattern_chunks
parse_pattern_chunks_total str = parse_loop_total _ (cursor str none []) (omega arith)
