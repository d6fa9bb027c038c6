-- ===== src/Connection/Reading.antt =====
-- socket.go, `HandleNextMessageWithNode`, and router.go: the loop of `HandleConnection` that reads
-- messages, while handlers and the liveness check may close the socket.
use velaros.Base.{
  ◌≡◌, refl, Bool, true, false, Option, none, some, List, [], ◌∷◌, ◌++◌, Text, arith,
}
use mathlib.Core.List.{append_assoc, append-nil}
use velaros.Socket.Defs.{
  Status, status_going_away, CloseSource, client_close_source, server_close_source, SocketMessage,
  Socket,
}
use velaros.Socket.Ops.{close}

-- An error of the connection's `Read`: what `websocket.CloseStatus` finds in it, `none` for -1,
-- whether `errors.Is` finds `context.Canceled`, or one of `io.EOF`, `io.ErrUnexpectedEOF` and
-- `net.ErrClosed`.
pub record ReadError : Type 0 where
  pub close_status : Option Status
  pub is_canceled : Bool
  pub is_end : Bool

-- What happens to a connection: its `Read` returns a message or an error, `Close` is called from
-- elsewhere, or handlers change the rest of the socket to that of the given one.
pub data Event : Type 0 where
  message : SocketMessage → Event
  failure : ReadError → Event
  close_call : Status → Text → CloseSource → Event
  work : Socket → Event

-- Everything but the close state is new.
abbrev pub worked : Socket → Socket → Socket
worked new s = record new {
  closed = s.closed;
  close_status = s.close_status;
  close_reason = s.close_reason;
  close_status_source = s.close_status_source;
  cancelled = s.cancelled;
}

-- The loop's state: the socket, and the messages for which a goroutine was started, in order.
pub data Reading : Type 0 where
  waiting ended crashed : Socket → List SocketMessage → Reading

-- `HandleNextMessageWithNode` on an error: the socket is closed and the loop ends, or the error is
-- not known and panics.
abbrev pub on_failure : Option Status → Bool → Bool → Socket → List SocketMessage → Reading
on_failure (some status) canceled at_end s started =
    ended (close status [] client_close_source s) started
on_failure none true at_end s started =
    ended (close status_going_away [] server_close_source s) started
on_failure none false true s started =
    ended (close status_going_away [] client_close_source s) started
on_failure none false false s started = crashed s started

-- `for socket.HandleNextMessageWithNode(r.firstHandlerNode) { }`
unfoldable pub read_loop : List Event → Socket → List SocketMessage → Reading
read_loop [] s started = waiting s started
read_loop (message m ∷ events) s started = read_loop events s (started ++ m ∷ [])
read_loop (failure e ∷ events) s started =
    on_failure e.close_status e.is_canceled e.is_end s started
read_loop (close_call status reason source ∷ events) s started =
    read_loop events (close status reason source s) started
read_loop (work new ∷ events) s started = read_loop events (worked new s) started

-- Why a connection closed.
pub record Closed : Type 0 where
  pub status : Status
  pub reason : Text
  pub source : CloseSource

abbrev pub closed_of : Socket → Closed
closed_of s = record {
  status = s.close_status;
  reason = s.close_reason;
  source = s.close_status_source;
}

-- The reason that an error stands for, where the code knows it.
abbrev pub failure_reason : Option Status → Bool → Bool → Option Closed
failure_reason (some status) canceled at_end =
    some (record { status = status; reason = []; source = client_close_source })
failure_reason none true at_end =
    some (record { status = status_going_away; reason = []; source = server_close_source })
failure_reason none false true =
    some (record { status = status_going_away; reason = []; source = client_close_source })
failure_reason none false false = none

abbrev pub reasons_of : Option Closed → List Closed
reasons_of none = []
reasons_of (some c) = c ∷ []

abbrev pub at_reason : Option Closed → Socket → List SocketMessage → Reading
at_reason none s started = crashed s started
at_reason (some c) s started = ended s started

-- What happens before the first error of `Read`, and that error.
abbrev pub before_failure : List Event → List Event
before_failure [] = []
before_failure (failure e ∷ events) = []
before_failure (message m ∷ events) = message m ∷ before_failure events
before_failure (close_call status reason source ∷ events) =
    close_call status reason source ∷ before_failure events
before_failure (work new ∷ events) = work new ∷ before_failure events

abbrev pub first_failure : List Event → Option ReadError
first_failure [] = none
first_failure (failure e ∷ events) = some e
first_failure (_ ∷ events) = first_failure events

abbrev pub messages : List Event → List SocketMessage
messages [] = []
messages (message m ∷ events) = m ∷ messages events
messages (_ ∷ events) = messages events

abbrev pub reasons : List Event → List Closed
reasons [] = []
reasons (close_call status reason source ∷ events) =
    (record { status = status; reason = reason; source = source }) ∷ reasons events
reasons (_ ∷ events) = reasons events

abbrev pub failure_reasons : Option ReadError → List Closed
failure_reasons none = []
failure_reasons (some e) = reasons_of (failure_reason e.close_status e.is_canceled e.is_end)

-- How the loop stands then: it ends at an error that the code knows, and panics at any other.
abbrev pub reading_after : Option ReadError → Socket → List SocketMessage → Reading
reading_after none s started = waiting s started
reading_after (some e) s started =
    at_reason (failure_reason e.close_status e.is_canceled e.is_end) s started

-- A socket that is closed for the first of the reasons, and cancelled; an open one, if there is no
-- reason.
abbrev pub HasFirst : List Closed → Socket → Type 0
HasFirst [] s = s.closed ≡ false
HasFirst (c ∷ cs) s = (s.closed ≡ true) × (closed_of s ≡ c) × (s.cancelled ≡ true)

close_closed :
    (status : Status) (reason : Text) (source : CloseSource) (s : Socket)
    → s.closed ≡ true
    → close status reason source s ≡ s
unfolding close
close_closed status reason source s closed = ground arith

close-HasFirst :
    (cs : List Closed) (status : Status) (reason : Text) (source : CloseSource) (s : Socket)
    → HasFirst cs s
    → HasFirst
        (cs ++ (record { status = status; reason = reason; source = source }) ∷ [])
        (close status reason source s)
close-HasFirst [] status reason source s open_ = unfold close in rw open_ (refl, refl, refl)
close-HasFirst (c ∷ cs) status reason source s (closed, same, cancelled) =
    simp (close_closed status reason source s closed) (closed, same, cancelled)

worked-HasFirst : (cs : List Closed) (new s : Socket) → HasFirst cs s → HasFirst cs (worked new s)
worked-HasFirst [] new s h = h
worked-HasFirst (c ∷ cs) new s h = h

-- Where the loop is led by the events, from some state on.
abbrev pub Reads : List Closed → List SocketMessage → List Event → Reading → Type 0
Reads cs started events r =
    (s' : Socket) × (r
      ≡ reading_after (first_failure events) s' (started ++ messages (before_failure events)))
    × HasFirst (cs ++ (reasons (before_failure events) ++ failure_reasons (first_failure events)))
        s'

on_failure-Reads :
    (cs : List Closed) (status : Option Status) (canceled at_end : Bool) (s : Socket)
    (started : List SocketMessage)
    → HasFirst cs s
    → (s' : Socket) × (on_failure status canceled at_end s started
        ≡ at_reason (failure_reason status canceled at_end) s' started)
      × HasFirst (cs ++ reasons_of (failure_reason status canceled at_end)) s'
on_failure-Reads cs (some status) canceled at_end s started h =
    (_, refl, close-HasFirst cs status [] client_close_source s h)
on_failure-Reads cs none true at_end s started h =
    (_, refl, close-HasFirst cs status_going_away [] server_close_source s h)
on_failure-Reads cs none false true s started h =
    (_, refl, close-HasFirst cs status_going_away [] client_close_source s h)
on_failure-Reads cs none false false s started h = (s, refl, rw (append-nil cs) h)

pub read_loop-Reads :
    (events : List Event) (cs : List Closed) (s : Socket) (started : List SocketMessage)
    → HasFirst cs s
    → Reads cs started events (read_loop events s started)
unfolding read_loop
read_loop-Reads [] cs s started h = (s, rw append-nil, rw (append-nil cs) h)
read_loop-Reads (message m ∷ events) cs s started h =
    rw (← append_assoc started (m ∷ []) (messages (before_failure events)))
      (read_loop-Reads events cs s (started ++ m ∷ []) h)
read_loop-Reads (failure e ∷ events) cs s started h =
    rw (append-nil started) (on_failure-Reads cs e.close_status e.is_canceled e.is_end s started h)
read_loop-Reads (work new ∷ events) cs s started h =
    read_loop-Reads events cs (worked new s) started (worked-HasFirst cs new s h)
read_loop-Reads (close_call status reason source ∷ events) cs s started h =
    let c : Closed = record { status = status; reason = reason; source = source } in
    let later = reasons (before_failure events) ++ failure_reasons (first_failure events) in
    rw (← append_assoc cs (c ∷ []) later) (
      read_loop-Reads events (cs ++ c ∷ []) (close status reason source s) started
        (close-HasFirst cs status reason source s h))
