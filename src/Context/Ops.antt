-- ===== src/Context/Ops.antt =====
-- context.go: the methods that handlers call. A method that reads the message of a context whose
-- message was handed to a receiver dereferences nil, and most of them leave the mutex locked then.
use velaros.Base.{true, some, ◌∷◌, ◌++◌, codes}
use velaros.Base.Maps
use velaros.Base.Maps.{TextMap, lookup, insert}
use velaros.Socket.Defs.{server_close_source}
use velaros.Socket.Ops
use velaros.Context.Defs.{
  Environment, Op, effect, set, get, must_get, delete, set_on_socket, get_from_socket,
  must_get_from_socket, delete_from_socket, set_error, get_error, message_id, path, raw_data,
  message_data, params, meta, set_message_id, set_message_path, set_message_raw_data,
  set_message_data, set_message_meta, set_message_unmarshaler, set_message_marshaller, send,
  receive, receive_into, close_with_status, close_status, socket_id, remote_addr, message_type,
  header, request, request_into, receive_with_context, receive_into_with_context,
  request_with_context, request_into_with_context, lasting, unit, value, text, bytes, error, map_of,
  type_of, closing, World,
}
use velaros.Context.Calls.{
  Result, reading, writing, guarded, reply, on_ctx, on_socket, with_message, put_message,
  found_or_panic, set_id, register_receiver, received, received_into, receive_with, send_value,
  request_with, header_of, remote_addr_of, meta_of,
}

unfoldable pub perform : Environment → Op → World → Result
unfolding register_receiver
perform env (effect n) w = reply unit (record w { effects = n ∷ w.effects })
perform env (set key v) w =
    guarded writing w w.ctx.message (
      reply unit
        (on_ctx (λ c. record c { associated_values = insert key v c.associated_values }) w))
perform env (get key) w =
    guarded reading w w.ctx.message (reply (value (lookup key w.ctx.associated_values)) w)
perform env (must_get key) w =
    guarded reading w w.ctx.message
      (found_or_panic (codes "key not found") (lookup key w.ctx.associated_values) w)
perform env (delete key) w = guarded writing w w.ctx.message (
    reply unit
      (on_ctx (λ c. record c { associated_values = Maps.delete key c.associated_values }) w))
perform env (set_on_socket key v) w = reply unit (on_socket (Ops.set_value key v) w)
perform env (get_from_socket key) w = reply (value (Ops.get_value key w.socket)) w
perform env (must_get_from_socket key) w =
    found_or_panic (codes "key " ++ (key ++ codes " not found")) (Ops.get_value key w.socket) w
perform env (delete_from_socket key) w = reply unit (on_socket (Ops.delete_value key) w)
perform env (set_error e) w = reply unit (on_ctx (λ c. record c { err = e }) w)
perform env get_error w = reply (error w.ctx.err) w
perform env message_id w = with_message reading w w.ctx.message (λ m. reply (text m.id) w)
perform env path w = with_message reading w w.ctx.message (λ m. reply (text m.path) w)
perform env raw_data w = with_message reading w w.ctx.message (λ m. reply (bytes m.raw_data) w)
perform env message_data w =
    with_message reading w w.ctx.message (λ m. reply (bytes m.message_data) w)
perform env params w = guarded reading w w.ctx.message (reply (map_of w.ctx.params) w)
perform env (meta key) w =
    guarded reading w w.ctx.message (reply (value (meta_of key w.ctx.message)) w)
perform env (set_message_id id) w = with_message writing w w.ctx.message (set_id id w)
perform env (set_message_path p) w =
    with_message writing w w.ctx.message
      (λ m. reply unit (put_message (record m { has_set_path = true; path = p }) w))
perform env (set_message_raw_data d) w =
    with_message writing w w.ctx.message
      (λ m. reply unit (put_message (record m { raw_data = d }) w))
perform env (set_message_data d) w =
    with_message writing w w.ctx.message
      (λ m. reply unit (put_message (record m { message_data = d }) w))
perform env (set_message_meta v) w =
    with_message writing w w.ctx.message (λ m. reply unit (put_message (record m { meta = v }) w))
perform env (set_message_unmarshaler f) w =
    guarded writing w w.ctx.message
      (reply unit (on_ctx (λ c. record c { message_unmarshaler = some f }) w))
perform env (set_message_marshaller f) w =
    guarded writing w w.ctx.message
      (reply unit (on_ctx (λ c. record c { message_marshaller = some f }) w))
perform env socket_id w = reply (text w.socket.id) w
perform env remote_addr w = reply (text (remote_addr_of env.connection_info)) w
perform env message_type w = guarded reading w w.ctx.message (reply (type_of w.ctx.message_type) w)
perform env (header key) w = reply (text (header_of key env.connection_info)) w
perform env (send v) w = send_value env v w
perform env receive w = receive_with lasting received w
perform env receive_into w = receive_with lasting received_into w
perform env (request v) w = request_with env lasting v received w
perform env (request_into v) w = request_with env lasting v received_into w
perform env (receive_with_context p) w = receive_with p received w
perform env (receive_into_with_context p) w = receive_with p received_into w
perform env (request_with_context p v) w = request_with env p v received w
perform env (request_into_with_context p v) w = request_with env p v received_into w
perform env (close_with_status status reason) w =
    reply unit (on_socket (Ops.close status reason server_close_source) w)
perform env close_status w =
    reply (closing w.socket.close_status w.socket.close_reason w.socket.close_status_source) w
