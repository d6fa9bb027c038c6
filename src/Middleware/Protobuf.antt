-- ===== src/Middleware/Protobuf.antt =====
-- middleware/protobuf/middleware.go.
use velaros.Base.{Option, none, some, [], ◌∷◌, Text, codes}
use velaros.Base.Maps.{TextMap, insert}
use velaros.Socket.Defs.{Value, Bytes, InboundMessage}
use velaros.Context.Defs.{Decoded, decode_error, Encoded, encoded, encode_error}
use velaros.Middleware.Envelope.{Unpacked, unpacked, unpack_error, Format}

-- The generated `Envelope`, as it comes from `proto.Unmarshal`.
pub record ProtoEnvelope : Type 0 where
  pub id : Text
  pub path : Text
  pub message_data : Bytes
  pub meta : TextMap Bytes

pub data ProtoUnpacked : Type 0 where
  proto_unpacked : ProtoEnvelope → ProtoUnpacked
  proto_error : Text → ProtoUnpacked

-- The packages of the encoding: `unmarshal_into` and `marshal_message` are `none` where the target
-- or the value is no `proto.Message`; `json_value` is `none` where `json.Unmarshal` fails, and
-- `bytes_value` is a slice of bytes as a value.
pub record Codec : Type 0 where
  pub unpack : Bytes → ProtoUnpacked
  pub json_value : Bytes → Option Value
  pub bytes_value : Bytes → Value
  pub unmarshal_into : Option (Bytes → Decoded)
  pub marshal_message : Value → Option Encoded
  pub marshal_envelope : Text → Bytes → Encoded

abbrev pub meta_value : Codec → Bytes → Option Value → Value
meta_value c b none = c.bytes_value b
meta_value c b (some v) = v

-- `for key, value := range messageData.Meta`
unfoldable pub fill_meta : Codec → TextMap Bytes → TextMap Value → TextMap Value
fill_meta c [] meta = meta
fill_meta c ((key, b) ∷ rest) meta =
    fill_meta c rest (insert key (meta_value c b (c.json_value b)) meta)

abbrev meta_of : Codec → TextMap Bytes → Option (TextMap Value)
meta_of c [] = none
meta_of c (x ∷ xs) = some (fill_meta c (x ∷ xs) [])

abbrev data_of : Bytes → Option Bytes
data_of [] = none
data_of (b ∷ bs) = some (b ∷ bs)

abbrev unpacked_of : Codec → ProtoUnpacked → Unpacked
unpacked_of c (proto_error why) = unpack_error why
unpacked_of c (proto_unpacked e) = unpacked (record {
  id = e.id;
  path = e.path;
  meta = meta_of c e.meta;
  message_data = data_of e.message_data;
})

abbrev pub no_message : Text
no_message = codes "value must implement proto.Message (generated protobuf struct)"

abbrev unmarshal : Option (Bytes → Decoded) → InboundMessage → Decoded
unmarshal none m = decode_error no_message
unmarshal (some into) m = into m.message_data

abbrev pub marshal : Codec → Text → Option Encoded → Encoded
marshal c id none = encode_error no_message
marshal c id (some (encode_error e)) = encode_error e
marshal c id (some (encoded b)) = c.marshal_envelope id b

abbrev pub protobuf_format : Codec → Format
protobuf_format c = record {
  subprotocol = codes "velaros-protobuf";
  unpack = λ b. unpacked_of c (c.unpack b);
  unmarshaler = unmarshal c.unmarshal_into;
  marshaller = λ m. marshal c m.id (c.marshal_message m.message_data);
}
