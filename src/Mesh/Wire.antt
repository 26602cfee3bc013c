-- ===== src/Mesh/Wire.antt =====
-- crates/libs/styrene-mesh/src/wire.rs: the envelope, written and read. `pqc` is the feature of the build.
pub mod RoundTrip
use styrene_rs.Base.{
  [], ℕ, Bool, not, List, ◌∷◌, ◌++◌, ltb, ◌==◌, if◌then◌else◌, length, get_or, take, drop, Result,
  ok, err, ◌>>=◌,
}
use styrene_rs.Base.Bytes.{bytes_eq}
use styrene_rs.Mesh.WireError.{WireError, too_short, invalid_namespace, unsupported_version}
use styrene_rs.Mesh.MessageType.{StyreneMessageType, as_u8, from_byte}

-- `b"styrene.io:"`
abbrev pub namespace : List ℕ
namespace = 115 ∷ 116 ∷ 121 ∷ 114 ∷ 101 ∷ 110 ∷ 101 ∷ 46 ∷ 105 ∷ 111 ∷ 58 ∷ []

abbrev pub wire_version : ℕ
wire_version = 0x02

abbrev pub header_size : ℕ
header_size = 29

pub record StyreneMessage : Type 0 where
  pub version : ℕ
  pub message_type : StyreneMessageType
  pub request_id : List ℕ
  pub payload : List ℕ

abbrev pub with_request_id : StyreneMessageType → List ℕ → List ℕ → StyreneMessage
with_request_id message_type request_id payload = record {
  version = wire_version;
  message_type = message_type;
  request_id = request_id;
  payload = payload;
}

-- `drawn` is what the system's generator fills the identifier with.
abbrev pub new : List ℕ → StyreneMessageType → List ℕ → StyreneMessage
new drawn message_type payload = with_request_id message_type drawn payload

unfoldable pub encode : StyreneMessage → List ℕ
encode m = namespace ++ (m.version ∷ as_u8 m.message_type ∷ (m.request_id ++ m.payload))

unfoldable pub decode : Bool → List ℕ → Result WireError StyreneMessage
decode pqc bytes =
    if ltb (length bytes) header_size
    then err (too_short (length bytes))
    else if not (bytes_eq (take 11 bytes) namespace)
    then err invalid_namespace
    else if not (get_or bytes 11 0 == wire_version)
    then err (unsupported_version (get_or bytes 11 0))
    else from_byte pqc (get_or bytes 12 0) >>= λ message_type. ok (record {
      version = get_or bytes 11 0;
      message_type = message_type;
      request_id = take 16 (drop 13 bytes);
      payload = drop header_size bytes;
    })
