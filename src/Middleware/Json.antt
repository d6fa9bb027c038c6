-- ===== src/Middleware/Json.antt =====
-- middleware/json/middleware.go and body_types.go, and the same files of middleware/msgpack, whose
-- code differs in the package of the encoding and in the name of the subprotocol only.
use velaros.Base.{Option, none, some, List, [], ◌∷◌, ◌++◌, Text, codes, if◌then◌else◌}
use velaros.Pattern.Parse.{is_empty}
use velaros.Socket.Defs.{Value, Bytes, OutboundMessage}
use velaros.Context.Defs.{Decoded, Encoded}
use velaros.Middleware.Envelope.{Unpacked, Format}

pub record FieldError : Type 0 where
  pub field : Text
  pub error : Text

-- What the type switch on the data finds.
pub data Body : Type 0 where
  field_errors : List FieldError → Body
  field_error : FieldError → Body
  error_body : Text → Body
  text_body : Text → Body
  nil_body other_body : Body

-- A value of an `M` that the marshaller makes: a text, or the list of one-entry maps.
pub data Member : Type 0 where
  text_member : Text → Member
  fields_member : List (Text × Text) → Member

pub data Payload : Type 0 where
  members : List (Text × Member) → Payload
  plain : Value → Payload

-- The map that is encoded, with the entries that are there.
pub record OutboundEnvelope : Type 0 where
  pub id : Option Text
  pub message_data : Option Payload

-- The package of the encoding, and the types of values.
pub record Codec : Type 0 where
  pub unpack : Bytes → Unpacked
  pub unmarshal : Bytes → Decoded
  pub marshal : OutboundEnvelope → Encoded
  pub body_of : Value → Body

unfoldable pub gen_fields_loop : List (Text × Text) → List FieldError → List (Text × Text)
gen_fields_loop fields [] = fields
gen_fields_loop fields (e ∷ es) = gen_fields_loop (fields ++ (e.field, e.error) ∷ []) es

-- `genFieldsField`
unfoldable pub gen_fields_field : List FieldError → List (Text × Text)
unfolding gen_fields_loop
gen_fields_field es = gen_fields_loop [] es

abbrev pub validation_error : List FieldError → Payload
validation_error es = members (
    (codes "error", text_member (codes "Validation error"))
    ∷ (codes "fields", fields_member (gen_fields_field es))
    ∷ [])

abbrev pub payload_of : Value → Body → Option Payload
payload_of v (field_errors es) = some (validation_error es)
payload_of v (field_error e) = some (validation_error (e ∷ []))
payload_of v (error_body e) = some (members ((codes "error", text_member e) ∷ []))
payload_of v (text_body t) = some (members ((codes "message", text_member t) ∷ []))
payload_of v nil_body = none
payload_of v other_body = some (plain v)

abbrev pub envelope_of : Codec → OutboundMessage → OutboundEnvelope
envelope_of c m = record {
  id = if is_empty m.id then none else some m.id;
  message_data = payload_of m.message_data (c.body_of m.message_data);
}

abbrev pub format : Text → Codec → Format
format subprotocol c = record {
  subprotocol = subprotocol;
  unpack = c.unpack;
  unmarshaler = λ m. c.unmarshal m.message_data;
  marshaller = λ m. c.marshal (envelope_of c m);
}

abbrev pub json_format : Codec → Format
json_format c = format (codes "velaros-json") c

abbrev pub msgpack_format : Codec → Format
msgpack_format c = format (codes "velaros-msgpack") c
