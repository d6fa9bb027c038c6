-- ===== src/Router/Json.antt =====
-- route_descriptor.go: the JSON form of a route descriptor.
use velaros.Context.Next.{is_some}
use velaros.Base.{ℕ, ◌≡◌, refl, ap, ◌∙◌, Option, none, some, [], ◌∷◌, Text}
use velaros.Pattern.Defs.{Pattern, Engine}
use velaros.Pattern.Compile.{NewPattern, new_pattern, string, new_pattern-string}
use velaros.Pattern.Compile
use velaros.Socket.Defs.{Value, Bytes}
use velaros.Context.Defs.{Encoded, encoded, RouteDescriptor}

-- What `json.Unmarshal` finds: the pattern's text and the bytes of the metadata, none of them where
-- there are none, or an error.
pub data Found : Type 0 where
  fields : Text → Bytes → Found
  malformed : Text → Found

-- encoding/json on the two structs of the file; `raw_message` is a `json.RawMessage` as a value.
pub record JsonCodec : Type 0 where
  pub marshal : Text → Option Value → Encoded
  pub unmarshal : Bytes → Found
  pub raw_message : Bytes → Value

-- `MarshalJSON`
unfoldable pub marshal_json : JsonCodec → RouteDescriptor → Encoded
marshal_json c d = c.marshal (string d.pattern) d.metadata

-- The descriptor as `UnmarshalJSON` leaves it; an error leaves the old one.
pub data Unmarshalled : Type 0 where
  ok : RouteDescriptor → Unmarshalled
  malformed_json : Text → RouteDescriptor → Unmarshalled
  bad_pattern : Text → RouteDescriptor → Unmarshalled

abbrev pub metadata_after : JsonCodec → Bytes → Option Value → Option Value
metadata_after c [] old = old
metadata_after c (b ∷ bs) old = some (c.raw_message (b ∷ bs))

abbrev pub with_pattern : JsonCodec → Text → Bytes → RouteDescriptor → NewPattern → Unmarshalled
with_pattern c path metadata r (Compile.ok p) =
    ok (record { pattern = p; metadata = metadata_after c metadata r.metadata })
with_pattern c path metadata r _ = bad_pattern path r

abbrev pub with_fields : Engine → JsonCodec → RouteDescriptor → Found → Unmarshalled
with_fields re c r (malformed why) = malformed_json why r
with_fields re c r (fields path metadata) = with_pattern c path metadata r (new_pattern re path)

-- `UnmarshalJSON`
unfoldable pub unmarshal_json : Engine → JsonCodec → Bytes → RouteDescriptor → Unmarshalled
unmarshal_json re c data_ r = with_fields re c r (c.unmarshal data_)

-- What encoding/json documents: the text comes back, and metadata is left out where it is nil and is
-- some bytes otherwise.
abbrev pub FindsBack : Text → Option Value → Found → Type 0
FindsBack path none found = found ≡ fields path []
FindsBack path (some v) found = (b : ℕ) × (bs : Bytes) × (found ≡ fields path (b ∷ bs))

abbrev pub DocumentedJson : JsonCodec → Type 0
DocumentedJson c =
    (path : Text) (metadata : Option Value) (out : Bytes)
    → c.marshal path metadata ≡ encoded out
    → FindsBack path metadata (c.unmarshal out)

-- A descriptor of a pattern that `NewPattern` made comes back from its JSON form, into a new
-- descriptor, with the same compiled pattern, and with metadata exactly if it had some; with an
-- encoding that behaves as encoding/json documents.
pub unmarshal_json-marshal_json :
    (re : Engine) (c : JsonCodec) (str : Text) (p : Pattern) (metadata : Option Value) (out : Bytes)
    (fresh : RouteDescriptor)
    → DocumentedJson c
    → new_pattern re str ≡ Compile.ok p
    → fresh.metadata ≡ none
    → marshal_json c (record { pattern = p; metadata = metadata }) ≡ encoded out
    → (raw : Option Value) × (unmarshal_json re c out fresh
        ≡ ok (record { pattern = p; metadata = raw }))
      × (is_some raw ≡ is_some metadata)
unfolding marshal_json unmarshal_json
unmarshal_json-marshal_json re c str p metadata out fresh documented made empty written =
    read metadata (documented (string p) metadata out written)
  where
    again : new_pattern re (string p) ≡ Compile.ok p
    again = ap (new_pattern re) (new_pattern-string re str p made) ∙ made

    read :
        (v : Option Value)
        → FindsBack (string p) v (c.unmarshal out)
        → (raw : Option Value) × (with_fields re c fresh (c.unmarshal out)
            ≡ ok (record { pattern = p; metadata = raw }))
          × (is_some raw ≡ is_some v)
    read none found = (none, rw (found, again, empty) refl, refl)
    read (some v) (b, bs, found) = (some (c.raw_message (b ∷ bs)), rw (found, again) refl, refl)
