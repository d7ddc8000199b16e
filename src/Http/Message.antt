-- ===== src/Http/Message.antt =====
-- Requests of HTTP and the messages that they are sent in (net/http, crypto/tls and proto/http). Of a
-- request these fields of the Go library are left out, which the proxy neither reads nor writes: its
-- context, `Cancel`, `Response`, `GetBody` and the pattern of its route.
use slide_sdk.Common.{ℕ, Bool, Option, List, Bytes}
use slide_sdk.Common.Int.{ℤ}
use slide_sdk.Http.Header.{Header}

-- `url.Userinfo`: a name, with a password or none
pub record Userinfo : Type 0 where
  pub username : Bytes
  pub password : Option Bytes

-- `url.URL`
pub record Url : Type 0 where
  pub scheme : Bytes
  pub opaque : Bytes
  pub user : Option Userinfo
  pub host : Bytes
  pub path : Bytes
  pub raw_path : Bytes
  pub force_query : Bool
  pub raw_query : Bytes
  pub fragment : Bytes
  pub raw_fragment : Bytes
  pub omit_host : Bool

-- `tls.ConnectionState`; `C` is `x509.Certificate`
pub record Tls (C : Type 0) : Type 0 where
  pub version : ℕ
  pub handshake_complete : Bool
  pub did_resume : Bool
  pub cipher_suite : ℕ
  pub negotiated_protocol : Bytes
  pub negotiated_protocol_is_mutual : Bool
  pub server_name : Bytes
  pub peer_certificates : List C
  pub verified_chains : List (List C)
  pub signed_certificate_timestamps : List Bytes
  pub ocsp_response : Bytes
  pub tls_unique : Bytes

-- `http.Request`; a form of several parts is a pointer
pub record Request (C : Type 0) : Type 0 where
  pub method : Bytes
  pub url : Option Url
  pub proto : Bytes
  pub proto_major : ℤ
  pub proto_minor : ℤ
  pub header : Header
  pub body : Bytes
  pub content_length : ℤ
  pub transfer_encoding : List Bytes
  pub close : Bool
  pub host : Bytes
  pub form : Header
  pub post_form : Header
  pub multipart_form : Option ℕ
  pub trailer : Header
  pub remote_addr : Bytes
  pub request_uri : Bytes
  pub tls : Option (Tls C)

-- `httppb.Userinfo`, `httppb.URL`, `httppb.ConnectionState` and `httppb.Request`
pub record UserinfoMessage : Type 0 where
  pub username : Bytes
  pub password : Bytes
  pub password_set : Bool

pub record UrlMessage : Type 0 where
  pub scheme : Bytes
  pub opaque : Bytes
  pub user : Option UserinfoMessage
  pub host : Bytes
  pub path : Bytes
  pub raw_path : Bytes
  pub force_query : Bool
  pub raw_query : Bytes
  pub fragment : Bytes

pub record TlsMessage : Type 0 where
  pub version : ℕ
  pub handshake_complete : Bool
  pub did_resume : Bool
  pub cipher_suite : ℕ
  pub negotiated_protocol : Bytes
  pub server_name : Bytes
  pub peer_certificates : List Bytes
  pub verified_chains : List (List Bytes)
  pub signed_certificate_timestamps : List Bytes
  pub ocsp_response : Bytes

pub record RequestMessage : Type 0 where
  pub method : Bytes
  pub url : Option UrlMessage
  pub proto : Bytes
  pub proto_major : ℤ
  pub proto_minor : ℤ
  pub header : Header
  pub body : Bytes
  pub content_length : ℤ
  pub transfer_encoding : List Bytes
  pub host : Bytes
  pub form : Header
  pub post_form : Header
  pub remote_addr : Bytes
  pub request_uri : Bytes
  pub tls : Option TlsMessage
