-- ===== src/Middleware/Sending.antt =====
-- What `Send` makes of a value behind the middleware of a format.
use velaros.Base.{ap, ◌≡◌, false, if◌then◌else◌}
use velaros.Pattern.Parse.{is_empty}
use velaros.Socket.Defs.{Value, InboundMessage, Socket}
use velaros.Context.Defs.{Environment, send, World}
use velaros.Context.Calls.{write_out}
use velaros.Context.Ops.{perform}
use velaros.Middleware.Envelope.{Envelope, Format}
use velaros.Middleware.Handled.{prepared}

-- The marshaller of the format gets the envelope's id with the value.
pub send-prepared :
    (env : Environment) (f : Format) (e : Envelope) (m : InboundMessage) (s : Socket) (w : World)
    (v : Value)
    → is_empty e.id ≡ false
    → perform env (send v) (prepared f e m s w)
      ≡ write_out env w.ctx.message_type
          (prepared f e m s w)
          (f.marshaller (record { id = e.id; message_data = v }))
unfolding perform
send-prepared env f e m s w v has_id =
    ap
      (λ b.
        write_out env w.ctx.message_type (prepared f e m s w)
          (f.marshaller (record { id = if b then m.id else e.id; message_data = v })))
      has_id
