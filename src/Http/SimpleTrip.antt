-- ===== src/Http/SimpleTrip.antt =====
-- A request that goes through the proxy and back (http/http_client.go, http/http_server.go).
use slide_sdk.Common.{ℕ, ◌≤◌, ◌≡◌, false, some, length, [], ◌∷◌, Bytes, arith}
use slide_sdk.Common.Int.{ℤ, pos, to_uint64}
use slide_sdk.Common.Outcome.{ok, err}
use slide_sdk.Http.Header.{Header, Same}
use slide_sdk.Http.Simple.{
  ClientRequest, ServerRequest, SimpleResponse, GrpcError, Grpc, http_1_1, internal_server_error,
  to_int32, ensure_valid_response_code,
}

-- A valid code of a response is written as it is.
pub ensure_valid-to_int32 :
    (c : ℕ) → 100 ≤ c → c ≤ 599 → ensure_valid_response_code (to_int32 (pos c)) ≡ pos c
unfolding ensure_valid_response_code to_int32 to_uint64
ensure_valid-to_int32 c low high = ground arith

-- gRPC brings to its client the response that the server returned, and the detail of a status that is
-- returned with the code 500; a response is packed as a detail without an error, and unpacked to what it was.
pub record Delivers (net : Grpc) : Type 0 where
  pub carries : (r : SimpleResponse) → net.carry (ok r) ≡ ok r
  pub carries_detail :
      (body : Bytes) (a : net.Any)
      → (code : ℤ) × (message : Bytes) × (net.carry
            (err (GrpcError.with_status internal_server_error body (a ∷ [])))
          ≡ err (GrpcError.with_status code message (a ∷ [])))
  pub packs : (r : SimpleResponse) → (a : net.Any) × (net.pack r ≡ ok a) × (net.unpack a ≡ some r)

-- What the handler sees of a request whose address has the host `host`: its method, URI, header by the
-- values under each key, and body; the host is that of the address, and its protocol, remote address, form
-- and state of TLS are lost.
pub record Reaches (r : ClientRequest) (host body : Bytes) (seen : ServerRequest) : Type 0 where
  pub method : seen.method ≡ r.method
  pub request_uri : seen.request_uri ≡ r.request_uri
  pub header : Same seen.header r.header
  pub read_body : (seen.body ≡ body) × (seen.content_length ≡ length body)
  pub url_host : seen.host ≡ host
  pub proto : seen.proto ≡ http_1_1
  pub lost : (seen.remote_addr ≡ []) × (seen.form ≡ []) × (seen.tls ≡ false)
