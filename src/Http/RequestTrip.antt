-- ===== src/Http/RequestTrip.antt =====
-- A request that asks for an upgrade, at the other end of the proxy (http/http_client.go,
-- http/http_server.go).
use slide_sdk.Common.{
  ℕ, ◌<◌, ◌≡◌, refl, sym, ap, ◌∙◌, true, false, Option, none, some, List, [], ◌∷◌, arith,
}
use slide_sdk.Common.Int.{pos, to_uint64}
use slide_sdk.Common.Outcome.{ok}
use slide_sdk.Http.Header.{
  Header, get_http_header, merge_http_header, Visits, Same, header_round_trip,
}
use slide_sdk.Http.Simple.{to_int32}
use slide_sdk.Http.Message.{Userinfo, Url, Tls, Request}
use slide_sdk.Http.Request.{
  Certificates, user_message, user_of, url_message, url_of, raw_all, raw_chains, parse_all,
  parse_chains, tls_message, tls_of, request_message, request_of,
}

user_round_trip : (u : Option Userinfo) → user_of (user_message u) ≡ u
unfolding user_of user_message
user_round_trip none = refl
user_round_trip (some u) = ground arith

-- an address without the two fields that are not sent
abbrev pub sent_url : Url → Url
sent_url u = record u { raw_fragment = []; omit_host = false }

url_round_trip :
    (parsed : Option Url) (u : Url) → url_of parsed (url_message (some u)) ≡ some (sent_url u)
unfolding url_of url_message
url_round_trip parsed u =
    ap (λ x. some (record u { user = x; raw_fragment = []; omit_host = false }))
      (user_round_trip u.user)

pub to_int32-small : (n : ℕ) → n < 2147483648 → to_int32 (pos n) ≡ pos n
unfolding to_int32 to_uint64
to_int32-small n h = ground arith

module _ (x509 : Certificates) where
  -- The numbers of a state of TLS are those of a `uint16`, and its protocol was negotiated mutually, as
  -- it always is.
  pub record Fits (t : Tls x509.Certificate) : Type 0 where
    pub version : t.version < 65536
    pub cipher_suite : t.cipher_suite < 65536
    pub mutually : t.negotiated_protocol_is_mutual ≡ true

  abbrev pub FitsAll : Option (Tls x509.Certificate) → Type 0
  FitsAll none = Unit
  FitsAll (some t) = Fits t

  -- a state of TLS without the field that is not sent
  abbrev pub sent_tls : Option (Tls x509.Certificate) → Option (Tls x509.Certificate)
  sent_tls none = none
  sent_tls (some t) = some (record t { tls_unique = [] })

  -- What the handler sees of a request: what is not sent is a zero value, and a header or a form is the
  -- same by the values under each key.
  pub record Arrives (r seen : Request x509.Certificate) : Type 0 where
    pub method : seen.method ≡ r.method
    pub url : (u : Url) → r.url ≡ some u → seen.url ≡ some (sent_url u)
    pub proto : seen.proto ≡ r.proto
    pub proto_major : seen.proto_major ≡ r.proto_major
    pub proto_minor : seen.proto_minor ≡ r.proto_minor
    pub header : Same seen.header r.header
    pub body : seen.body ≡ r.body
    pub content_length : seen.content_length ≡ r.content_length
    pub transfer_encoding : seen.transfer_encoding ≡ r.transfer_encoding
    pub close : seen.close ≡ false
    pub host : seen.host ≡ r.host
    pub form : Same seen.form r.form
    pub post_form : Same seen.post_form r.post_form
    pub multipart_form : seen.multipart_form ≡ none
    pub trailer : seen.trailer ≡ []
    pub remote_addr : seen.remote_addr ≡ r.remote_addr
    pub request_uri : seen.request_uri ≡ r.request_uri
    pub tls : seen.tls ≡ sent_tls r.tls

module _ (x509 : Certificates)
    (parse-raw : (c : x509.Certificate) → x509.parse (x509.raw c) ≡ ok c) where
  parse_all-raw_all : (cs : List x509.Certificate) → parse_all x509 (raw_all x509 cs) ≡ ok cs
  unfolding parse_all raw_all
  parse_all-raw_all [] = refl
  parse_all-raw_all (c ∷ cs) = rw (parse-raw c, parse_all-raw_all cs) refl

  parse_chains-raw_chains :
      (cs : List (List x509.Certificate)) → parse_chains x509 (raw_chains x509 cs) ≡ ok cs
  unfolding parse_chains raw_chains
  parse_chains-raw_chains [] = refl
  parse_chains-raw_chains (c ∷ cs) = rw (parse_all-raw_all c, parse_chains-raw_chains cs) refl

  tls_round_trip :
      (o : Option (Tls x509.Certificate))
      → FitsAll x509 o
      → tls_of x509 (tls_message x509 o) ≡ ok (sent_tls x509 o)
  unfolding tls_of tls_message
  tls_round_trip none f = refl
  tls_round_trip (some t) f =
      rw (parse_all-raw_all t.peer_certificates, parse_chains-raw_chains t.verified_chains)
        (ground arith)

  -- The request that `Handle` makes of the message of `ServeHTTP` has the client's method, protocol, body
  -- and its length, transfer encoding, host, remote address and URI, and in its header and forms the same
  -- values under each key. Its address, where the client's has one, is that without `RawFragment` and
  -- `OmitHost`, its state of TLS the client's without `TLSUnique`; its trailer and its form of several parts
  -- are none, and `Close` is not set. No certificate is refused. The version of HTTP fits an `int32`, the
  -- numbers of TLS a `uint16`, and its protocol was negotiated mutually; a certificate is parsed from its
  -- raw bytes; `range` visits each key of a map once.
  pub request_round_trip :
      (range : Header → Header)
      → ((h : Header) → Visits range h)
      → (parsed : Option Url) (r : Request x509.Certificate) {major minor : ℕ}
      → r.proto_major ≡ pos major
      → major < 2147483648
      → r.proto_minor ≡ pos minor
      → minor < 2147483648
      → FitsAll x509 r.tls
      → (seen : Request x509.Certificate) × (request_of x509 parsed (request_message x509 range r)
          ≡ ok seen)
        × Arrives x509 r seen
  unfolding request_of request_message
  request_round_trip range visits parsed r a a< b b< fits = (
    seen,
    rw (tls_round_trip r.tls fits) refl,
    record {
      method = refl;
      url = λ u e. ap (λ o. url_of parsed (url_message o)) e ∙ url_round_trip parsed u;
      proto = refl;
      proto_major = ap to_int32 a ∙ to_int32-small _ a< ∙ sym a;
      proto_minor = ap to_int32 b ∙ to_int32-small _ b< ∙ sym b;
      header = header_round_trip range r.header (visits r.header);
      body = refl;
      content_length = refl;
      transfer_encoding = refl;
      close = refl;
      host = refl;
      form = header_round_trip range r.form (visits r.form);
      post_form = header_round_trip range r.post_form (visits r.post_form);
      multipart_form = refl;
      trailer = refl;
      remote_addr = refl;
      request_uri = refl;
      tls = refl;
    },
  )
    where
      seen : Request x509.Certificate
      seen = record r {
        url = url_of parsed (url_message r.url);
        proto_major = to_int32 r.proto_major;
        proto_minor = to_int32 r.proto_minor;
        header = merge_http_header (get_http_header range r.header) [];
        form = merge_http_header (get_http_header range r.form) [];
        post_form = merge_http_header (get_http_header range r.post_form) [];
        close = false;
        multipart_form = none;
        trailer = [];
        tls = sent_tls x509 r.tls;
      }
