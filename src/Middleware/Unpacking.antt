-- ===== src/Middleware/Unpacking.antt =====
-- What the middleware of a format does with a message.
use velaros.Base.{
  text_eq, [], ◌∷◌, ap, ◌∙◌, ◌≡◌, refl, true, false, Option, none, some, Text, arith, if◌then◌else◌,
  inl, inr, Bool-cases, Option-cases,
}
use velaros.Base.Maps.{lookup, TextMap}
use velaros.Pattern.Parse.{is_empty}
use velaros.Socket.Defs.{Value, Bytes, InboundMessage, Socket}
use velaros.Socket.Ops
use velaros.Context.Defs.{
  Environment, Reply, bytes, raw_data, Script, call, World, Outcome, returned, panicked, blocked,
  out_of_fuel, ◌>>=◌,
}
use velaros.Context.Ops.{perform}
use velaros.Context.Calls.{reply, on_ctx, header_of, with_message, reading}
use velaros.Context.Next.{run_script, after_op}
use velaros.Middleware.Envelope.{
  Envelope, Unpacked, unpacked, unpack_error, Format, protocol_header, bytes_of, middleware,
  use_envelope, use_format, on_unpacked, on_protocol, set_id, set_path, set_meta, set_data,
}
use velaros.Middleware.Handled.{
  or_else, or_old, prepared, id_taken, socket_for, with_id, with_path, holding, waiting_for,
  entering, handled_as, handled,
}

holding_own : (m : InboundMessage) (w : World) → w.ctx.message ≡ some m → w ≡ holding m w.socket w
holding_own m w here =
    ap (λ (o : Option InboundMessage). record w { ctx = record (w.ctx) { message = o } }) here

pub bind-returned : (o : Outcome) → (o >>= λ v. returned v) ≡ o
bind-returned (returned w) = refl
bind-returned (panicked _ _ _) = refl
bind-returned (blocked w) = refl
bind-returned out_of_fuel = refl

module _ (env : Environment) (again : World → Outcome) (f : Format) where
  run_format :
      (m : InboundMessage) (w : World)
      → w.ctx.message ≡ some m
      → run_script env again (use_format f) w
        ≡ again (
            on_ctx
              (λ c. record c {
                message_unmarshaler = some f.unmarshaler;
                message_marshaller = some f.marshaller;
              })
              w)
  unfolding run_script perform
  run_format m w here = rw here (bind-returned _)

  -- The steps of the middleware, each on a context that has its message.
  run_id :
      (id : Text) (k : Script) (m : InboundMessage) (s : Socket) (w : World)
      → id_taken id s ≡ false
      → run_script env again (set_id id k) (holding m s w)
        ≡ run_script env again k (holding (with_id id m) (socket_for id s) w)
  unfolding run_script perform Ops.acquire_message_id_lock
  run_id id k m s w free = elim (Bool-cases (is_empty id)) [
    | inl no_id ↦ rw no_id refl
    | inr some_id ↦ elim (Option-cases (lookup id s.message_id_locks)) [
      | inl open_ ↦ rw (some_id, open_) refl
      | inr (ch, taken) ↦ absurd (ground arith)
    ]
  ]

  run_path :
      (path : Text) (k : Script) (m : InboundMessage) (s : Socket) (w : World)
      → run_script env again (set_path path k) (holding m s w)
        ≡ run_script env again k (holding (with_path path m) s w)
  unfolding run_script perform
  run_path path k m s w = elim (Bool-cases (is_empty path)) [
    | inl no_path ↦ rw no_path refl
    | inr some_path ↦ rw some_path refl
  ]

  run_meta :
      (meta : Option (TextMap Value)) (k : Script) (m : InboundMessage) (s : Socket) (w : World)
      → run_script env again (set_meta meta k) (holding m s w)
        ≡ run_script env again k (holding (record m { meta = or_old meta m.meta }) s w)
  unfolding run_script perform
  run_meta none k m s w = refl
  run_meta (some v) k m s w = refl

  run_data :
      (d : Option Bytes) (k : Script) (m : InboundMessage) (s : Socket) (w : World)
      → run_script env again (set_data d k) (holding m s w)
        ≡ run_script env again k
            (holding (record m { message_data = or_else d m.message_data }) s w)
  unfolding run_script perform
  run_data none k m s w = refl
  run_data (some v) k m s w = refl

  -- The lock is taken: the context waits, or goes on without it where the socket is done.
  run_id-taken :
      (id : Text) (k : Script) (m : InboundMessage) (s : Socket) (w : World)
      → id_taken id s ≡ true
      → run_script env again (set_id id k) (holding m s w) ≡ (
          if s.cancelled
          then run_script env again k (holding (with_id id m) s w)
          else blocked (holding (with_id id m) s w))
  unfolding run_script perform Ops.acquire_message_id_lock
  run_id-taken id k m s w taken = elim (Bool-cases (is_empty id)) [
    | inl no_id ↦ absurd (ground arith)
    | inr some_id ↦ elim (Option-cases (lookup id s.message_id_locks)) [
      | inl open_ ↦ absurd (ground arith)
      | inr (ch, here) ↦ elim (Bool-cases s.cancelled) [
        | inl done ↦ rw (some_id, here, done) refl
        | inr going ↦ rw (some_id, here, going) refl
      ]
    ]
  ]

  run_after_id :
      (e : Envelope) (m : InboundMessage) (s : Socket) (w : World)
      → run_script env again
          (set_path e.path (set_meta e.meta (set_data e.message_data (use_format f))))
          (holding (with_id e.id m) s w)
        ≡ again (prepared f e m s w)
  run_after_id e m s w =
      let m1 = with_id e.id m in
      let m2 = with_path e.path m1 in
      let m3 : InboundMessage = record m2 { meta = or_old e.meta m2.meta } in
      let m4 : InboundMessage = record m3 {
        message_data = or_else e.message_data m3.message_data;
      } in
      let data_k = use_format f in
      let meta_k = set_data e.message_data data_k in
      let path_k = set_meta e.meta meta_k in
      run_path e.path path_k m1 s w
      ∙ run_meta e.meta meta_k m2 s w
      ∙ run_data e.message_data data_k m3 s w
      ∙ run_format m4 (holding m4 s w) refl

  run_envelope :
      (e : Envelope) (m : InboundMessage) (w : World)
      → w.ctx.message ≡ some m
      → run_script env again (use_envelope f e) w ≡ entering f again e m w (id_taken e.id w.socket)
  unfolding use_envelope
  run_envelope e m w here =
      let k = set_path e.path (set_meta e.meta (set_data e.message_data (use_format f))) in
      ap (run_script env again (set_id e.id k)) (holding_own m w here)
      ∙ elim (Bool-cases (id_taken e.id w.socket)) [
        | inl taken ↦ rw taken (
            run_id-taken e.id k m w.socket w taken
            ∙ ap (λ o. if w.socket.cancelled then o else blocked (waiting_for e m w))
                (run_after_id e m w.socket w))
        | inr free ↦
            rw free
              (run_id e.id k m w.socket w free ∙ run_after_id e m (socket_for e.id w.socket) w)
      ]

  run_unpacked :
      (protocol : Text) (m : InboundMessage) (w : World) (u : Unpacked)
      → w.ctx.message ≡ some m
      → run_script env again (on_unpacked f protocol u) w ≡ handled_as f again protocol m w u
  unfolding run_script perform
  run_unpacked protocol m w (unpacked e) here = run_envelope e m w here
  run_unpacked protocol m w (unpack_error why) here = elim (Bool-cases (is_empty protocol)) [
    | inl any ↦ rw any (bind-returned _)
    | inr named ↦ rw named refl
  ]

  run_raw_data :
      (go : Reply → Script) (m : InboundMessage) (w : World)
      → w.ctx.message ≡ some m
      → run_script env again (call raw_data go) w ≡ run_script env again (go (bytes m.raw_data)) w
  unfolding run_script perform
  run_raw_data go m w here =
      ap
        (λ o.
          after_op (λ r w'. run_script env again (go r) w')
            (with_message reading w o (λ m'. reply (bytes m'.raw_data) w)))
        here

  run_protocol :
      (protocol : Text) (m : InboundMessage) (w : World)
      → w.ctx.message ≡ some m
      → run_script env again (on_protocol f protocol) w
        ≡ handled f again protocol m w (f.unpack m.raw_data)
  unfolding run_script perform
  run_protocol [] m w here =
      run_raw_data (λ r. on_unpacked f [] (f.unpack (bytes_of r))) m w here
      ∙ run_unpacked [] m w (f.unpack m.raw_data) here
  run_protocol (c ∷ cs) m w here = elim (Bool-cases (text_eq (c ∷ cs) f.subprotocol)) [
    | inl same ↦ rw same (
        run_raw_data (λ r. on_unpacked f (c ∷ cs) (f.unpack (bytes_of r))) m w here
        ∙ run_unpacked (c ∷ cs) m w (f.unpack m.raw_data) here)
    | inr other ↦ rw other refl
  ]

  -- What the middleware of a format does with a message, on every branch: it refuses a client that
  -- asked for another subprotocol, with an error and without a call of `Next`; a message that is no
  -- envelope goes on as it is if the client asked for no subprotocol, and is an error otherwise; and
  -- on an envelope `Next` is called once, with the id, the path, the metadata and the data of the
  -- envelope where it has them, and with the functions of the format, under the lock of the id.
  -- Where the lock is taken the context waits, or goes on without it if the socket is done.
  pub middleware-handled :
      (m : InboundMessage) (w : World)
      → w.ctx.message ≡ some m
      → run_script env again (middleware f) w
        ≡ handled f again (header_of protocol_header env.connection_info) m w (f.unpack m.raw_data)
  unfolding middleware run_script perform
  middleware-handled m w here =
      run_protocol (header_of protocol_header env.connection_info) m w here
