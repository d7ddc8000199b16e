-- ===== src/Http/Request.antt =====
-- How a request that asks for an upgrade goes through a message: `ServeHTTP` (http/http_client.go) and
-- `Handle` (http/http_server.go). Certificates, the dialling of the response writer and the handler are
-- parameters.
use slide_sdk.Common.{ℕ, ◌%◌, true, false, Option, none, some, List, [], ◌∷◌, Bytes, if◌then◌else◌}
use slide_sdk.Common.Outcome.{Outcome, ok, err, panic, ◌>>=◌}
use slide_sdk.Http.Header.{Header, get_http_header, merge_http_header}
use slide_sdk.Http.Simple.{to_int32}
use slide_sdk.Http.Message.{
  Userinfo, Url, Tls, Request, UserinfoMessage, UrlMessage, TlsMessage, RequestMessage,
}

-- The user of an address, both ways.
unfoldable pub user_message : Option Userinfo → Option UserinfoMessage
user_message none = none
user_message (some u) = some (record {
  username = u.username;
  password = elim u.password [ none ↦ [] | some p ↦ p ];
  password_set = elim u.password [ none ↦ false | some p ↦ true ];
})

unfoldable pub user_of : Option UserinfoMessage → Option Userinfo
user_of none = none
user_of (some u) =
    some (record {
      username = u.username;
      password = if u.password_set then some u.password else none;
    })

unfoldable pub url_message : Option Url → Option UrlMessage
url_message none = none
url_message (some u) = some (record {
  scheme = u.scheme;
  opaque = u.opaque;
  user = user_message u.user;
  host = u.host;
  path = u.path;
  raw_path = u.raw_path;
  force_query = u.force_query;
  raw_query = u.raw_query;
  fragment = u.fragment;
})

-- The address of a request: that of the message, or the one that `http.NewRequest` parsed.
unfoldable pub url_of : Option Url → Option UrlMessage → Option Url
url_of parsed none = parsed
url_of parsed (some u) = some (record {
  scheme = u.scheme;
  opaque = u.opaque;
  user = user_of u.user;
  host = u.host;
  path = u.path;
  raw_path = u.raw_path;
  force_query = u.force_query;
  raw_query = u.raw_query;
  fragment = u.fragment;
  raw_fragment = [];
  omit_host = false;
})

pub record Certificates : Type 1 where
  pub Certificate : Type 0
  -- the field `Raw`, and `x509.ParseCertificate`
  pub raw : Certificate → Bytes
  pub parse : Bytes → Outcome ℕ Certificate

module _ (x509 : Certificates) where
  unfoldable pub raw_all : List x509.Certificate → List Bytes
  raw_all [] = []
  raw_all (c ∷ cs) = x509.raw c ∷ raw_all cs

  unfoldable pub raw_chains : List (List x509.Certificate) → List (List Bytes)
  raw_chains [] = []
  raw_chains (c ∷ cs) = raw_all c ∷ raw_chains cs

  -- the loops over the certificates and over the chains
  unfoldable pub parse_all : List Bytes → Outcome ℕ (List x509.Certificate)
  parse_all [] = ok []
  parse_all (b ∷ bs) = do c ← x509.parse b; cs ← parse_all bs; ok (c ∷ cs)

  unfoldable pub parse_chains : List (List Bytes) → Outcome ℕ (List (List x509.Certificate))
  parse_chains [] = ok []
  parse_chains (b ∷ bs) = do c ← parse_all b; cs ← parse_chains bs; ok (c ∷ cs)

  unfoldable pub tls_message : Option (Tls x509.Certificate) → Option TlsMessage
  tls_message none = none
  tls_message (some t) = some (record {
    version = t.version;
    handshake_complete = t.handshake_complete;
    did_resume = t.did_resume;
    cipher_suite = t.cipher_suite;
    negotiated_protocol = t.negotiated_protocol;
    server_name = t.server_name;
    peer_certificates = raw_all t.peer_certificates;
    verified_chains = raw_chains t.verified_chains;
    signed_certificate_timestamps = t.signed_certificate_timestamps;
    ocsp_response = t.ocsp_response;
  })

  -- `Handle` on the state of TLS; `uint16` keeps the low bits
  unfoldable pub tls_of : Option TlsMessage → Outcome ℕ (Option (Tls x509.Certificate))
  tls_of none = ok none
  tls_of (some t) = do
    certificates ← parse_all t.peer_certificates
    chains ← parse_chains t.verified_chains
    ok (
        some (record {
          version = t.version % 65536;
          handshake_complete = t.handshake_complete;
          did_resume = t.did_resume;
          cipher_suite = t.cipher_suite % 65536;
          negotiated_protocol = t.negotiated_protocol;
          negotiated_protocol_is_mutual = true;
          server_name = t.server_name;
          peer_certificates = certificates;
          verified_chains = chains;
          signed_certificate_timestamps = t.signed_certificate_timestamps;
          ocsp_response = t.ocsp_response;
          tls_unique = [];
        }))

  -- The message that `ServeHTTP` makes of a request, whose body was read before; `range` is the order of
  -- a loop over a map.
  unfoldable pub request_message : (Header → Header) → Request x509.Certificate → RequestMessage
  request_message range r = record {
    method = r.method;
    url = url_message r.url;
    proto = r.proto;
    proto_major = to_int32 r.proto_major;
    proto_minor = to_int32 r.proto_minor;
    header = get_http_header range r.header;
    body = r.body;
    content_length = r.content_length;
    transfer_encoding = r.transfer_encoding;
    host = r.host;
    form = get_http_header range r.form;
    post_form = get_http_header range r.post_form;
    remote_addr = r.remote_addr;
    request_uri = r.request_uri;
    tls = tls_message r.tls;
  }

  -- The request that `Handle` makes of a message, after `http.NewRequest` has parsed its address.
  unfoldable pub request_of : Option Url → RequestMessage → Outcome ℕ (Request x509.Certificate)
  request_of parsed m = do
    tls ← tls_of m.tls
    ok (record {
      method = m.method;
      url = url_of parsed m.url;
      proto = m.proto;
      proto_major = m.proto_major;
      proto_minor = m.proto_minor;
      header = merge_http_header m.header [];
      body = m.body;
      content_length = m.content_length;
      transfer_encoding = m.transfer_encoding;
      close = false;
      host = m.host;
      form = merge_http_header m.form [];
      post_form = merge_http_header m.post_form [];
      multipart_form = none;
      trailer = [];
      remote_addr = m.remote_addr;
      request_uri = m.request_uri;
      tls = tls;
    })

  -- `Handle`: the connections that it leaves open, and what it returns. The handler runs on the request
  -- and on a writer that was made with the headers of the client's writer; `none` is its panic.
  unfoldable pub handle :
      Outcome ℕ ℕ
      → (Bytes → Bytes → Outcome ℕ (Option Url))
      → (Header → Request x509.Certificate → Option (Unit {0}))
      → (ℕ → Outcome ℕ (Unit {0}))
      → Header
      → RequestMessage
      → List ℕ × Outcome ℕ (Unit {0})
  handle dial new_request handler close writer_header m = elim dial [
    | err e ↦ ([], err e)
    | panic ↦ ([], panic)
    | ok conn ↦ elim (do parsed ← new_request m.method m.request_uri; request_of parsed m) [
      | err e ↦ (conn ∷ [], err e)
      | panic ↦ (conn ∷ [], panic)
      | ok r ↦ elim (handler (merge_http_header writer_header []) r) [
        | none ↦ (conn ∷ [], panic)
        | some u ↦ ([], close conn)
      ]
    ]
  ]
