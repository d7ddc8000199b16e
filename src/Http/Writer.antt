-- ===== src/Http/Writer.antt =====
-- The writer of a response that a handler holds at the other end of gRPC (http/responsewriter): the
-- client's `Client`, the `Server` that it calls and the `lockedWriter` around the real writer. Whether
-- gRPC loses a call, and what the real writer answers to a write, are parameters.
use slide_sdk.Common.{
  ℕ, Bool, true, Option, none, some, List, [], ◌∷◌, ◌++◌, Bytes, Bytes-discrete, if◌then◌else◌,
}
use slide_sdk.Common.Int.{ℤ, pos}
use slide_sdk.Common.Map.{store}
use slide_sdk.Common.Outcome.{Outcome, ok, err, panic}
use slide_sdk.Http.Header.{Header, get_http_header, merge_http_header}
use slide_sdk.Http.Simple.{Call, to_int32, ensure_valid_response_code}

-- What the real writer receives, each with its header at that time.
pub data Sent : Type 0 where
  code : Header → ℤ → Sent
  payload : Header → Bytes → Sent

-- `lockedWriter`, with the header of the real writer and what it has received
pub record LockedWriter : Type 0 where
  pub header_written : Bool
  pub header : Header
  pub sent : List Sent

unfoldable pub locked_write : Bytes → LockedWriter → LockedWriter
locked_write bytes w = record w {
  header_written = true;
  sent = w.sent ++ Sent.payload w.header bytes ∷ [];
}

unfoldable pub locked_write_header : ℤ → LockedWriter → LockedWriter
locked_write_header status w =
    if w.header_written
    then w
    else record w { header_written = true; sent = w.sent ++ Sent.code w.header status ∷ [] }

-- `clear` of the header, and the elements of the request
unfoldable pub replace_header : Header → LockedWriter → LockedWriter
replace_header elements w = record w { header = merge_http_header elements [] }

pub record Wire : Type 0 where
  -- the order of a `range` over a map
  pub range : Header → Header
  -- the error of a call that gRPC loses before it is served
  pub lost : LockedWriter → Option ℕ
  -- what the real writer answers to a write: the bytes written, or an error
  pub accept : LockedWriter → Bytes → Outcome ℕ ℕ

-- The handler's end: the header of `Client`, and the writer at the other end.
pub record Remote : Type 0 where
  pub header : Header
  pub writer : LockedWriter

module _ (wire : Wire) where
  -- `Server.Write`
  unfoldable pub server_write : Header → Bytes → LockedWriter → Outcome ℕ ℤ × LockedWriter
  server_write elements bytes w =
      let w' = replace_header elements w in
      (
        elim (wire.accept w' bytes) [
          | ok n ↦ ok (to_int32 (pos n))
          | err e ↦ err e
          | panic ↦ panic
        ],
        locked_write bytes w',
      )

  -- `Server.WriteHeader`
  unfoldable pub server_write_header : Header → ℤ → LockedWriter → LockedWriter
  server_write_header elements status w =
      locked_write_header (ensure_valid_response_code status) (replace_header elements w)

  -- `Client.Write`, with what it returns
  unfoldable pub client_write : Bytes → Remote → Outcome ℕ ℤ × Remote
  client_write bytes r = elim (wire.lost r.writer) [
    | some e ↦ (err e, r)
    | none ↦
        let (n, w) = server_write (get_http_header wire.range r.header) bytes r.writer in
        (n, record r { writer = w })
  ]

  -- `Client.WriteHeader`, which drops the error of a call that is lost
  unfoldable pub client_write_header : ℤ → Remote → Remote
  client_write_header status r = elim (wire.lost r.writer) [
    | some e ↦ r
    | none ↦ record r {
      writer = server_write_header (get_http_header wire.range r.header) (to_int32 status) r.writer;
    }
  ]

  -- one call of a handler on its writer
  unfoldable pub remote_call : Remote → Call → Remote
  remote_call r (Call.set_header k vs) = record r { header = store Bytes-discrete k vs r.header }
  remote_call r (Call.write bytes) = (client_write bytes r).1
  remote_call r (Call.write_header status) = client_write_header status r

  unfoldable pub remote_calls : Remote → List Call → Remote
  remote_calls r [] = r
  remote_calls r (c ∷ cs) = remote_calls (remote_call r c) cs
