-- ===== src/Chain/Validate/RoundTrip.antt =====
-- The codec of blocks with a status reads back what it writes, where the two libraries that it uses
-- do.
use slide_sdk.Common.{◌≡◌, Bytes}
use slide_sdk.Common.Outcome.{ok, >>=-eq-ok}
use slide_sdk.Chain.Types.{Status, Block}
use slide_sdk.Chain.Library.{Library}
use slide_sdk.Chain.Validate.{
  encode_block, decode_block, encode_block_with_status, decode_block_with_status,
}

-- Protobuf reads back this block, and JSON what it writes.
pub record ReadsBack (lib : Library) (b : Block) : Type 0 where
  pub proto : (p : Bytes) → lib.block_to_proto b ≡ ok p → lib.block_from_proto p ≡ ok b
  pub marshal : (p q : Bytes) → lib.marshal_proto p ≡ ok q → lib.unmarshal_proto q ≡ ok p
  pub json :
      (bytes : Bytes) (s : Status) (d : Bytes)
      → lib.json_marshal bytes s ≡ ok d
      → lib.json_unmarshal d ≡ ok (record { block = bytes; status = s })

-- What `EncodeBlockWithStatus` writes, `DecodeBlockWithStatus` reads back as the same block and the
-- same status, provided that protobuf reads back this block and JSON reads back what it writes.
pub decode-encode_block_with_status :
    (lib : Library) (b : Block)
    → ReadsBack lib b
    → (status : Status) (bytes : Bytes) → encode_block_with_status lib b status ≡ ok bytes
    → decode_block_with_status lib bytes ≡ ok (b, status)
unfolding encode_block_with_status decode_block_with_status encode_block decode_block
decode-encode_block_with_status lib b r status bytes h =
    let (q, h1, h2) = >>=-eq-ok _ _ h in
    let (p, h3, h4) = >>=-eq-ok _ _ h1 in
    rw (r.json q status bytes h2, r.marshal p q h4, r.proto p h3)
