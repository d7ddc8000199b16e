-- ===== src/Examples/HttpCase.antt =====
-- The theorems on the HTTP proxy, at a handler that answers with an error of its own and at a request
-- with an address, a user and a certificate.
use slide_sdk.Common.{
  if_pos, if_neg, ℕ, ◌+◌, ◌≡◌, refl, true, false, Option, none, some, List, [], ◌∷◌, Bytes,
  Bytes-discrete, arith,
}
use slide_sdk.Common.Int.{pos, to_uint64}
use slide_sdk.Common.Map.{lookup, store, delete, lookup-delete}
use slide_sdk.Common.Outcome.{ok}
use slide_sdk.Http.Writer
use slide_sdk.Http.Header
use slide_sdk.Http.Header.{Header, Same, Distinct, Visits}
use slide_sdk.Http.Simple.{
  ClientRequest, ServerRequest, SimpleResponse, Call, Grpc, to_int32, ensure_valid_response_code,
}
use slide_sdk.Http.Message.{Request}
use slide_sdk.Http.Request.{Certificates, request_message, request_of}
use slide_sdk.Http.Stream.{StreamError, Stream, SameText, reader_read, conn_read, remote_read_lem}
use slide_sdk.Http.Writer.{Sent, Wire, remote_calls}
use slide_sdk.Http.WriterTrip.{go_writer, fresh}
use slide_sdk.Http.RequestTrip.{Arrives, request_round_trip}

-- a map is visited in the order of its last writes
visit : Header → Header
visit [] = []
visit ((k, vs) ∷ h) = store Bytes-discrete k vs (visit h)

Distinct-delete : (k : Bytes) (h : Header) → Distinct h → Distinct (delete Bytes-discrete k h)
unfolding delete
Distinct-delete k [] d = tt
Distinct-delete k ((j, vs) ∷ h) (fresh, d) = elim (Bytes-discrete j k) [
  | yes same ↦ rw (if_pos _ same) (Distinct-delete k h d)
  | no ne ↦
      rw (if_neg _ ne) (ground (arith, lookup-delete Bytes-discrete k j h), Distinct-delete k h d)
]

visit-Visits : (h : Header) → Visits visit h
unfolding visit lookup store
visit-Visits [] = record { once = tt; each = λ k. refl }
visit-Visits ((k, vs) ∷ h) =
    let ih = visit-Visits h in
    record {
      once = (
        ground (arith, lookup-delete Bytes-discrete k k (visit h)),
        Distinct-delete k (visit h) ih.once,
      );
      each = λ j. ground (arith, lookup-delete Bytes-discrete k j (visit h), ih.each j);
    }

-- gRPC that delivers, where a packed response is the response
abbrev grpc : Grpc
grpc = record {
  Any = SimpleResponse;
  new_request = λ method url. ok (8 ∷ []);
  pack = λ r. ok r;
  unpack = λ r. some r;
  carry = λ r. r;
  write_error = λ h code body. none;
  range = visit;
}

-- a handler that fails with code 500 and sends the body back
abbrev failing : ServerRequest → List Call
failing r =
    Call.set_header (1 ∷ []) ((2 ∷ []) ∷ []) ∷ Call.write_header (pos 500) ∷ Call.write r.body ∷ []

abbrev client_request : ClientRequest
client_request = record {
  method = 71 ∷ [];
  request_uri = 47 ∷ [];
  header = (3 ∷ [], (4 ∷ []) ∷ []) ∷ [];
  body = ok (5 ∷ []);
  host = 9 ∷ [];
  proto = 50 ∷ [];
  remote_addr = 10 ∷ [];
  form = [];
  tls = true;
}

abbrev x509 : Certificates
x509 = record { Certificate = Bytes; raw = λ c. c; parse = λ b. ok b }

abbrev upgrade : Request x509.Certificate
upgrade = record {
  method = 71 ∷ [];
  url = some (record {
    scheme = [];
    opaque = [];
    user = some (record { username = 9 ∷ []; password = none });
    host = [];
    path = 47 ∷ [];
    raw_path = [];
    force_query = false;
    raw_query = [];
    fragment = [];
    raw_fragment = [];
    omit_host = false;
  });
  proto = [];
  proto_major = pos 1;
  proto_minor = pos 1;
  header = (3 ∷ [], (4 ∷ []) ∷ []) ∷ [];
  body = [];
  content_length = pos 0;
  transfer_encoding = [];
  close = true;
  host = [];
  form = [];
  post_form = [];
  multipart_form = none;
  trailer = [];
  remote_addr = [];
  request_uri = 47 ∷ [];
  tls = some (record {
    version = 772;
    handshake_complete = true;
    did_resume = false;
    cipher_suite = 4865;
    negotiated_protocol = [];
    negotiated_protocol_is_mutual = true;
    server_name = [];
    peer_certificates = (6 ∷ []) ∷ [];
    verified_chains = [];
    signed_certificate_timestamps = [];
    ocsp_response = [];
    tls_unique = 7 ∷ [];
  });
}

request_round_trip_example :
    (seen : Request x509.Certificate) × (request_of x509 none (request_message x509 visit upgrade)
      ≡ ok seen)
    × Arrives x509 upgrade seen
request_round_trip_example =
    request_round_trip x509 (λ c. refl) visit visit-Visits none upgrade refl (omega arith) refl
      (omega arith) (record { version = omega arith; cipher_suite = omega arith; mutually = refl })

abbrev wire : Wire
wire = record { range = visit; lost = λ w. none; accept = λ w bytes. ok 1 }

-- a header, two codes of which the second is too late, and a write between them
abbrev calls : List Call
calls =
    Call.set_header (1 ∷ []) ((2 ∷ []) ∷ [])
    ∷ Call.write_header (pos 404)
    ∷ Call.write (5 ∷ [])
    ∷ Call.write_header (pos 200)
    ∷ []

-- the second code is dropped
codes :
    go_writer false [] calls
    ≡ some (
        Sent.code ((1 ∷ [], (2 ∷ []) ∷ []) ∷ []) (pos 404)
        ∷ Sent.payload ((1 ∷ [], (2 ∷ []) ∷ []) ∷ []) (5 ∷ [])
        ∷ [])
unfolding go_writer store delete Bytes-discrete
codes = refl

-- Of the codes 103 and 404 a writer of net/http sends both, and the writer behind gRPC the first one.
abbrev hints : List Call
hints = Call.write_header (pos 103) ∷ Call.write_header (pos 404) ∷ []

both_codes : go_writer false [] hints ≡ some (Sent.code [] (pos 103) ∷ Sent.code [] (pos 404) ∷ [])
unfolding go_writer
both_codes = refl

first_code : (remote_calls wire (fresh []) hints).writer.sent ≡ Sent.code [] (pos 103) ∷ []
unfolding remote_calls Writer.remote_call Writer.client_write_header Writer.server_write_header
    Writer.locked_write_header Writer.replace_header Header.merge_http_header
    ensure_valid_response_code Header.get_http_header to_int32 visit to_uint64
first_code = refl

-- a stream of one byte, which it answers with the end
abbrev stream : Stream ℕ
stream = record {
  read = λ n s. ((s ∷ [], some StreamError.eof), s + 1);
  write = λ bytes s. ((0, none), s);
}

remote_read_lem_example :
    (got : Option StreamError) × (reader_read (λ t. t) stream 5 7 ≡ (some (7 ∷ [], got), 8))
    × (conn_read (λ t. t) stream 5 7 ≡ (some (7 ∷ [], got), 8))
    × SameText (some StreamError.eof) got
remote_read_lem_example = remote_read_lem (λ t. t) stream 5 7 (omega arith) (omega arith)
