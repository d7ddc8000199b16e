-- ===== src/Http/Simple.antt =====
-- The proxy of requests that are no upgrades: `serveHTTPSimple` (http/http_client.go) and `HandleSimple`
-- (http/http_server.go). The transport of gRPC, the packing of an error's detail and the handler are
-- parameters; the handler is what it does with the writer of responses.
use slide_sdk.Common.{
  ℕ, ◌-◌, ◌%◌, ltb, Bool, false, ◌||◌, Option, none, some, List, [], ◌∷◌, ◌++◌, Bytes,
  Bytes-discrete, length, if◌then◌else◌, not, ◌==◌,
}
use slide_sdk.Common.Int.{ℤ, pos, negsuc, to_uint64, ltb_ℤ, eqb_ℤ}
use slide_sdk.Common.Map.{store}
use slide_sdk.Common.Outcome.{Outcome, ok, err, panic}
use slide_sdk.Http.Header.{Header, find, get_http_header, merge_http_header}

-- `http.Request`, as the client has it
pub record ClientRequest : Type 0 where
  pub method : Bytes
  pub request_uri : Bytes
  pub header : Header
  -- what `io.ReadAll` of the body returns
  pub body : Outcome ℕ Bytes
  pub host : Bytes
  pub proto : Bytes
  pub remote_addr : Bytes
  pub form : Header
  -- whether the field `TLS` is set
  pub tls : Bool

-- `http.Request`, as `HandleSimple` makes it for the handler
pub record ServerRequest : Type 0 where
  pub method : Bytes
  pub url : Bytes
  pub request_uri : Bytes
  pub header : Header
  pub body : Bytes
  pub content_length : ℕ
  pub host : Bytes
  pub proto : Bytes
  pub remote_addr : Bytes
  pub form : Header
  pub tls : Bool

-- `HandleSimpleHTTPRequest` and `HandleSimpleHTTPResponse`
pub record SimpleRequest : Type 0 where
  pub method : Bytes
  pub url : Bytes
  pub headers : Header
  pub body : Bytes

pub record SimpleResponse : Type 0 where
  pub code : ℤ
  pub headers : Header
  pub body : Bytes

-- `ResponseWriter` of http/http_server.go
pub record ResponseWriter : Type 0 where
  pub body : Bytes
  pub header : Header
  pub status_code : ℤ

abbrev pub status_ok : ℤ
status_ok = pos 200

abbrev pub internal_server_error : ℤ
internal_server_error = pos 500

abbrev pub new_response_writer : ResponseWriter
new_response_writer = record { body = []; header = []; status_code = status_ok }

-- What a handler calls of a writer: it sets a key of `Header()`, writes a part of the body, or a code.
pub data Call : Type 0 where
  set_header : Bytes → List Bytes → Call
  write : Bytes → Call
  write_header : ℤ → Call

unfoldable pub run_call : ResponseWriter → Call → ResponseWriter
run_call w (Call.set_header k vs) = record w { header = store Bytes-discrete k vs w.header }
run_call w (Call.write bytes) = record w { body = w.body ++ bytes }
run_call w (Call.write_header code) = record w { status_code = code }

unfoldable pub run_calls : ResponseWriter → List Call → ResponseWriter
run_calls w [] = w
run_calls w (c ∷ cs) = run_calls (run_call w c) cs

-- `int32` of an `int`
unfoldable pub to_int32 : ℤ → ℤ
to_int32 c =
    let n = to_uint64 c % 4294967296 in if ltb n 2147483648 then pos n else negsuc (4294967295 - n)

-- `EnsureValidResponseCode`
unfoldable pub ensure_valid_response_code : ℤ → ℤ
ensure_valid_response_code code =
    if ltb_ℤ code (pos 100) || ltb_ℤ (pos 599) code then internal_server_error else code

-- The errors of gRPC: a status with its details, which are packed messages `P`, or another.
pub data GrpcError (P : Type 0) : Type 0 where
  with_status : ℤ → Bytes → List P → GrpcError P
  plain : ℕ → GrpcError P

-- What the client's writer receives: `http.Error` with a code; or the headers that are merged into its
-- own, a code and a body; or these, a write of the body that fails, and then `http.Error`.
pub data Written : Type 0 where
  http_error : ℤ → Written
  response : Header → ℤ → Bytes → Written
  failed : Header → ℤ → Bytes → Written

-- `HTTP/1.1`, which `http.NewRequest` sets
abbrev pub http_1_1 : Bytes
http_1_1 = 72 ∷ 84 ∷ 84 ∷ 80 ∷ 47 ∷ 49 ∷ 46 ∷ 49 ∷ []

-- `isUpgradeRequest`: `Get` reads the first value
unfoldable pub is_upgrade_request : Bytes → Header → Bool
is_upgrade_request key h = elim (find key h) [
  | none ↦ false
  | some [] ↦ false
  | some (v ∷ vs) ↦ not (length v == 0)
]

pub record Grpc : Type 1 where
  -- `anypb.Any`
  pub Any : Type 0
  -- `http.NewRequest`, which refuses some methods and addresses: the host of the address
  pub new_request : Bytes → Bytes → Outcome ℕ Bytes
  -- `anypb.New` and `anypb.UnmarshalTo`
  pub pack : SimpleResponse → Outcome ℕ Any
  pub unpack : Any → Option SimpleResponse
  -- what the client of gRPC returns for what the server returned
  pub carry : Outcome (GrpcError Any) SimpleResponse → Outcome (GrpcError Any) SimpleResponse
  -- the error of the `Write` of a body after a header and a code
  pub write_error : Header → ℤ → Bytes → Option ℕ
  -- the order of a `range` over a map
  pub range : Header → Header

module _ (net : Grpc) (handler : ServerRequest → List Call) where
  -- `getHTTPSimpleRequest`
  unfoldable pub get_http_simple_request : ClientRequest → Outcome ℕ SimpleRequest
  get_http_simple_request r = elim r.body [
    | err e ↦ err e
    | panic ↦ panic
    | ok body ↦ ok (record {
      method = r.method;
      url = r.request_uri;
      headers = get_http_header net.range r.header;
      body = body;
    })
  ]

  -- `GetGRPCErrorFromHTTPResponse`
  unfoldable pub get_grpc_error_from_http_response :
      SimpleResponse → Outcome (GrpcError net.Any) SimpleResponse
  get_grpc_error_from_http_response resp = elim (net.pack resp) [
    | ok a ↦ err (GrpcError.with_status resp.code resp.body (a ∷ []))
    | err e ↦ err (GrpcError.plain e)
    | panic ↦ panic
  ]

  -- `GetHTTPResponseFromError`
  unfoldable pub get_http_response_from_error : GrpcError net.Any → Option SimpleResponse
  get_http_response_from_error (GrpcError.plain e) = none
  get_http_response_from_error (GrpcError.with_status code message []) = none
  get_http_response_from_error (GrpcError.with_status code message (a ∷ [])) = net.unpack a
  get_http_response_from_error (GrpcError.with_status code message (a ∷ b ∷ rest)) = none

  -- the request that the handler is given: what the message does not hold is as `http.NewRequest` left it
  unfoldable pub server_request : Bytes → SimpleRequest → ServerRequest
  server_request host r = record {
    method = r.method;
    url = r.url;
    request_uri = r.url;
    header = merge_http_header r.headers [];
    body = r.body;
    content_length = length r.body;
    host = host;
    proto = http_1_1;
    remote_addr = [];
    form = [];
    tls = false;
  }

  unfoldable pub response_of : ResponseWriter → SimpleResponse
  response_of w = record {
    code = to_int32 w.status_code;
    headers = get_http_header net.range w.header;
    body = w.body;
  }

  unfoldable pub handle_simple : SimpleRequest → Outcome (GrpcError net.Any) SimpleResponse
  handle_simple r = elim (net.new_request r.method r.url) [
    | err e ↦ err (GrpcError.plain e)
    | panic ↦ panic
    | ok host ↦
        let w = run_calls new_response_writer (handler (server_request host r)) in
        if eqb_ℤ w.status_code internal_server_error
        then get_grpc_error_from_http_response (response_of w)
        else ok (response_of w)
  ]

  -- `convertWriteResponse`, on a writer whose header is `h`, and what its caller makes of its error
  unfoldable pub convert_write_response : Header → SimpleResponse → Written
  convert_write_response h resp =
      let sent = merge_http_header resp.headers h in
      let code = ensure_valid_response_code resp.code in
      elim (net.write_error sent code resp.body) [
        | none ↦ Written.response sent code resp.body
        | some e ↦ Written.failed sent code resp.body
      ]

  -- `serveHTTPSimple`; `none` is a panic
  unfoldable pub serve_http_simple : Header → ClientRequest → Option Written
  serve_http_simple h r = elim (get_http_simple_request r) [
    | err e ↦ some (Written.http_error (pos 400))
    | panic ↦ none
    | ok req ↦ elim (net.carry (handle_simple req)) [
      | ok resp ↦ some (convert_write_response h resp)
      | panic ↦ none
      | err e ↦ elim (get_http_response_from_error e) [
        | none ↦ some (Written.http_error internal_server_error)
        | some resp ↦ some (convert_write_response h resp)
      ]
    ]
  ]
