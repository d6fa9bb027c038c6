-- ===== src/Connection/Serving/Ending.antt =====
-- How `HandleConnection` ends: the close handlers, and then the connection's `Close`.
use velaros.Base.{
  ℕ, suc, ◌<◌, ◌≡◌, refl, ap, ◌∙◌, true, false, some, List, [], ◌∷◌, ◌++◌, Text, arith, length,
}
use velaros.Pattern.Matching.Agreement.{Documented}
use velaros.Pattern.Defs.{Engine}
use velaros.Socket.Defs.{message_text, InboundMessage, SocketMessage, Socket}
use velaros.Socket.Ops
use velaros.Context.Defs.{
  Environment, Node, nil, node, close_bind_type, World, Outcome, returned, panicked, blocked,
  out_of_fuel, ◌>>=◌,
}
use velaros.Context.Sub.{empty_message, new_context, finalize, try_update_parent}
use velaros.Context.Next.{bind_type_of, next_fuel, next_step}
use velaros.Context.Order.{Candidate, candidates, walk-IsFirst}
use velaros.Context.Closing.{Cleanup, all_effects, last_error, Closes, EndsAll, next_fuel-Closes}
use velaros.Context.Termination.Weight.{weight, left_at}
use velaros.Context.Termination.Reachable.{length-candidates}
use velaros.Connection.Message.{on_connection, handle_lifecycle, run_next}
use velaros.Connection.Reading.{
  Reading, Closed, closed_of, read_loop, first_failure, before_failure, messages, reasons,
  failure_reason, HasFirst, ReadError, read_loop-Reads,
}
use velaros.Connection.Serving.{
  Chains, Course, Served, closed_with, close_connection, after_reading, after_open,
  handle_connection,
}

length-Closes : (cs : List Candidate) (ls : List Cleanup) → Closes cs ls → length ls ≡ length cs
length-Closes [] [] h = refl
length-Closes (c ∷ cs) (l ∷ ls) (closing, known, h) = ap suc (length-Closes cs ls h)
length-Closes [] (l ∷ ls) h = absurd h
length-Closes (c ∷ cs) [] h = absurd h

EndsAll-returned :
    (ls : List Cleanup) (w : World) (o : Outcome)
    → EndsAll ls w o
    → (w' : World) × (o ≡ returned w')
      × (w'.effects ≡ all_effects ls w.effects)
      × (w'.ctx.err ≡ last_error ls w.ctx.err)
      × (w'.socket ≡ w.socket)
EndsAll-returned ls w (returned w') (effects, error, socket) = (w', refl, effects, error, socket)
EndsAll-returned ls w (panicked _ _ _) h = absurd h
EndsAll-returned ls w (blocked _) h = absurd h
EndsAll-returned ls w out_of_fuel h = absurd h

-- A chain that `UseClose` built: empty, or with a first node of that kind.
abbrev pub IsCloseChain : Node → Type 0
IsCloseChain nil = Unit
IsCloseChain n = bind_type_of n ≡ close_bind_type

new_id : Text → InboundMessage
new_id uuid = record empty_message { id = uuid }

fuel-suffices :
    (re : Engine) (n : Node) (ls : List Cleanup)
    → Closes (candidates re [] n []) ls
    → length ls < suc (left_at n false 0)
unfolding left_at weight
fuel-suffices re nil ls h =
    omega (arith, length-Closes (candidates re [] nil []) ls h, length-candidates re [] nil [])
fuel-suffices re (node a b p hs rest) ls h = omega (
  arith,
  length-Closes (candidates re [] (node a b p hs rest) []) ls h,
  length-candidates re [] (node a b p hs rest) [],
)

run_close :
    (env : Environment) (uuid : Text) (n : Node) (s : Socket) (log : List ℕ) (ls : List Cleanup)
    → Documented env.engine
    → s.closed ≡ true
    → IsCloseChain n
    → Closes (candidates env.engine [] n []) ls
    → EndsAll ls
        (on_connection uuid empty_message n message_text s log)
        (run_next env (on_connection uuid empty_message n message_text s log))
unfolding run_next new_context new_id candidates next_fuel next_step try_update_parent left_at
run_close env uuid nil s log [] documented closed chain h = rw closed (refl, refl, refl)
run_close env uuid nil s log (l ∷ ls) documented closed chain h = absurd h
run_close env uuid (node a b p hs rest) s log ls documented closed chain h =
    let w = on_connection uuid empty_message (node a b p hs rest) message_text s log in
    next_fuel-Closes env ls (candidates env.engine [] (node a b p hs rest) []) (new_id uuid) w _
      documented h
      (record {
        message_is = refl;
        no_id = refl;
        no_path = refl;
        on_close = chain;
        at_first = walk-IsFirst env.engine [] (node a b p hs rest) documented [];
      })
      (fuel-suffices env.engine (node a b p hs rest) ls h)

-- What a run of the close handlers leaves of the close state.
finalize-closed_of : (w : World) → closed_of (finalize w).socket ≡ closed_of w.socket
unfolding finalize Ops.remove_receiver
finalize-closed_of w = ground arith

finalize-effects : (w : World) → (finalize w).effects ≡ w.effects
unfolding finalize
finalize-effects w = refl

-- The end of `HandleConnection`: the cleanups run on the socket that the loop left, and the
-- connection is closed with what stands in that socket.
abbrev pub Ends : List Cleanup → List ℕ → Closed → List SocketMessage → Served → Type 0
Ends ls log c started (closed_with status reason w started') =
    (status ≡ c.status)
    × (reason ≡ c.reason)
    × (w.effects ≡ all_effects ls log)
    × (closed_of w.socket ≡ c)
    × (started' ≡ started)
Ends ls log c started _ = ⊥

close_connection-Ends :
    (ls : List Cleanup) (v : World) (o : Outcome) (c : Closed) (started : List SocketMessage)
    → EndsAll ls v o
    → closed_of v.socket ≡ c
    → Ends ls v.effects c started (close_connection started (o >>= λ w. returned (finalize w)))
close_connection-Ends ls v o c started h same =
    let (w, is, effects, error, socket) = EndsAll-returned ls v o h in
    let kept : closed_of (finalize w).socket ≡ c =
      finalize-closed_of w ∙ ap closed_of socket ∙ same in
    rw is (
      ap (λ (x : Closed). x.status) kept,
      ap (λ (x : Closed). x.reason) kept,
      finalize-effects w ∙ effects,
      kept,
      refl,
    )

ended-Ends :
    (env : Environment) (chains : Chains) (course : Course) (ls : List Cleanup) (s : Socket)
    (c : Closed) (started : List SocketMessage)
    → Documented env.engine
    → IsCloseChain chains.closes
    → Closes (candidates env.engine [] chains.closes []) ls
    → s.closed ≡ true
    → closed_of s ≡ c
    → Ends ls course.log c started (after_reading env chains course (Reading.ended s started))
unfolding handle_lifecycle
ended-Ends env chains course ls s c started documented chain h closed same =
    close_connection-Ends ls
      (on_connection course.close_id empty_message chains.closes message_text s course.log) _ c
      started
      (run_close env course.close_id chains.closes s course.log ls documented closed chain h) same

-- The first reason to close.
abbrev pub IsFirst : Closed → List Closed → Type 0
IsFirst c [] = ⊥
IsFirst c (d ∷ ds) = d ≡ c

closed_for :
    (c : Closed) (cs : List Closed) (s : Socket)
    → IsFirst c cs
    → HasFirst cs s
    → (s.closed ≡ true) × (closed_of s ≡ c)
closed_for c [] s first h = absurd first
closed_for c (d ∷ ds) s first (closed, same, cancelled) = (closed, same ∙ first)

opened-after :
    (env : Environment) (chains : Chains) (course : Course) (w : World)
    → handle_lifecycle env course.open_id chains.opens (Ops.new_socket course.socket_id) []
      ≡ returned w
    → handle_connection env chains course
      ≡ after_reading env chains course (read_loop course.events w.socket [])
unfolding handle_connection
opened-after env chains course w opens = ap (after_open env chains course) opens

-- If the open handlers return, on an open socket or one that they closed, and the connection's
-- `Read` ends with an error that the code knows, then `HandleConnection` ends: every cleanup that
-- was registered by `UseClose` runs, in order, whether others before it panic or not; then the
-- connection is closed with the status and reason of the first close, be it by a handler, by the
-- liveness check or by that error; and the messages before the error, and no others, were started.
-- The close handlers are functions that do something and then return or panic, and the engine
-- behaves as package regexp documents.
pub handle_connection-Ends :
    (env : Environment) (chains : Chains) (course : Course) (ls : List Cleanup) (w : World)
    (opened : List Closed) (e : ReadError) (c' c : Closed)
    → Documented env.engine
    → IsCloseChain chains.closes
    → Closes (candidates env.engine [] chains.closes []) ls
    → handle_lifecycle env course.open_id chains.opens (Ops.new_socket course.socket_id) []
      ≡ returned w
    → HasFirst opened w.socket
    → first_failure course.events ≡ some e
    → failure_reason e.close_status e.is_canceled e.is_end ≡ some c'
    → IsFirst c (opened ++ (reasons (before_failure course.events) ++ c' ∷ []))
    → Ends ls course.log c
        (messages (before_failure course.events))
        (handle_connection env chains course)
handle_connection-Ends env chains course ls w opened e c' c documented chain h opens before fails
      known first =
    let (s', reads, reasons') = read_loop-Reads course.events opened w.socket [] before in
    let (closed, same) =
      closed_for c (opened ++ (reasons (before_failure course.events) ++ c' ∷ [])) s' first
        (rw (fails, known) at reasons') in
    rw (opened-after env chains course w opens, reads, fails, known)
      (ended-Ends env chains course ls s' c (messages (before_failure course.events)) documented
        chain h closed same)
