-- ===== src/Middleware/Values.antt =====
-- middleware/set, setfn, setvalue, socketset, socketsetfn and socketsetvalue: the function that
-- `Middleware` returns sets a value and calls `Next`. The value is the argument, what `valueFn`
-- gives, or what the pointer has, when the message is handled.
use velaros.Base.{ℕ, Option, none, some, [], Text}
use velaros.Socket.Defs.{Value}
use velaros.Context.Defs.{set, set_on_socket, Script, ret, panic, next, call}
use velaros.Context.Calls.{nil_dereference}

abbrev pub set_middleware : Text → Value → Script
set_middleware key v = call (set key v) (λ _. next ret)

abbrev pub socket_set_middleware : Text → Value → Script
socket_set_middleware key v = call (set_on_socket key v) (λ _. next ret)

-- `valueFn` gives a value at each call; this is the n-th.
abbrev pub set_fn_middleware : Text → (ℕ → Value) → ℕ → Script
set_fn_middleware key value_fn n = set_middleware key (value_fn n)

abbrev pub socket_set_fn_middleware : Text → (ℕ → Value) → ℕ → Script
socket_set_fn_middleware key value_fn n = socket_set_middleware key (value_fn n)

-- What the pointer has when the message is handled, or none for a nil pointer.
abbrev pub set_value_middleware : Text → Option Value → Script
set_value_middleware key none = panic nil_dereference []
set_value_middleware key (some v) = set_middleware key v

abbrev pub socket_set_value_middleware : Text → Option Value → Script
socket_set_value_middleware key none = panic nil_dereference []
socket_set_value_middleware key (some v) = socket_set_middleware key v
