-- ===== src/Tests/Json.antt =====
-- The JSON form of a route descriptor.
use velaros.Base.{zero, suc, true, ◌≡◌, refl, sym, ap, Option, none, some, [], ◌∷◌, Text, codes}
use velaros.Pattern.Defs.{Pattern}
use velaros.Pattern.Parse.{parse_pattern_chunks}
use velaros.Pattern.Compile.{new_pattern, reg_exp_from_chunks}
use velaros.Pattern.Compile
use velaros.Socket.Defs.{Value, Bytes}
use velaros.Context.Defs.{Encoded, encoded, RouteDescriptor}
use velaros.Context.Next.{is_some}
use velaros.Router.Json.{
  Found, fields, malformed, JsonCodec, DocumentedJson, marshal_json, unmarshal_json, ok,
  unmarshal_json-marshal_json,
}
use velaros.Pattern.Defs.{static, single}
use velaros.Tests.Fixtures.{a, engine}

-- A mark, the metadata if there is any, and the text.
abbrev write_fields : Text → Option Value → Encoded
write_fields path none = encoded (zero ∷ path)
write_fields path (some v) = encoded (suc zero ∷ v ∷ path)

abbrev read_fields : Bytes → Found
read_fields (zero ∷ path) = fields path []
read_fields (suc _ ∷ v ∷ path) = fields path (v ∷ [])
read_fields _ = malformed (codes "syntax")

abbrev json : JsonCodec
json = record { marshal = write_fields; unmarshal = read_fields; raw_message = λ b. 0 }

json-DocumentedJson : DocumentedJson json
json-DocumentedJson path none out e = let same : zero ∷ path ≡ out = cc in ap read_fields (sym same)
json-DocumentedJson path (some v) out e =
    let same : suc zero ∷ v ∷ path ≡ out = cc in (v, [], ap read_fields (sym same))

abbrev pattern_a : Pattern
pattern_a = record {
  str = a;
  chunks = (record { kind = static; modifier = single; key = []; pattern = codes "a" }) ∷ [];
  reg_exp = codes "^\\/a\\/?$";
}

compiled : new_pattern engine a ≡ Compile.ok pattern_a
unfolding new_pattern parse_pattern_chunks reg_exp_from_chunks
compiled = refl

abbrev fresh : RouteDescriptor
fresh = record { pattern = record { str = []; chunks = []; reg_exp = [] }; metadata = none }

unmarshal_json-marshal_json_example :
    (raw : Option Value) × (unmarshal_json engine json (suc zero ∷ 5 ∷ a) fresh
      ≡ ok (record { pattern = pattern_a; metadata = raw }))
    × (is_some raw ≡ true)
unfolding marshal_json
unmarshal_json-marshal_json_example =
    unmarshal_json-marshal_json engine json a pattern_a (some 5) (suc zero ∷ 5 ∷ a) fresh
      json-DocumentedJson compiled refl refl
