-- ===== src/Http/Stream.antt =====
-- A reader, a writer and a connection at the other end of gRPC (http/reader, http/writer, http/conn). The
-- stream behind them and its state are parameters. Where a call of gRPC itself fails nothing is read or
-- written, and its error is the one that the caller gets; such calls are not modelled here.
use slide_sdk.Common.{
  ℕ, zero, suc, ◌≡◌, ◌≤◌, ◌<◌, refl, Option, none, some, [], ◌∷◌, Bytes, arith, ap, ◌∙◌,
}
use slide_sdk.Common.Int.{ℤ, pos, negsuc}
use slide_sdk.Common.Outcome.{Outcome, ok, err, panic}
use slide_sdk.Http.Simple.{to_int32}
use slide_sdk.Http.RequestTrip.{to_int32-small}

-- An error: callers compare it with `io.EOF` only, and read its text.
pub data StreamError : Type 0 where
  eof : StreamError
  other : Bytes → StreamError

-- `Error()`
unfoldable pub text : StreamError → Bytes
text StreamError.eof = 69 ∷ 79 ∷ 70 ∷ []
text (StreamError.other t) = t

-- `errors.New` of the text that came back
unfoldable pub renew : Option Bytes → Option StreamError
renew none = none
renew (some t) = some (StreamError.other t)

unfoldable pub sent_text : Option StreamError → Option Bytes
sent_text none = none
sent_text (some e) = some (text e)

-- An error at the one end and what is made of it at the other: none of none, and of any error one that has
-- its text and is not `io.EOF`.
abbrev pub SameText : Option StreamError → Option StreamError → Type 0
SameText none none = Unit
SameText none (some x) = ⊥
SameText (some e) none = ⊥
SameText (some e) (some StreamError.eof) = ⊥
SameText (some e) (some (StreamError.other t)) = t ≡ text e

renew-SameText : (e : Option StreamError) → SameText e (renew (sent_text e))
unfolding renew sent_text
renew-SameText none = tt
renew-SameText (some e) = refl

-- `ReadResponse` and `WriteResponse`
pub record ReadResponse : Type 0 where
  pub read : Bytes
  pub error : Option Bytes

pub record WriteResponse : Type 0 where
  pub written : ℤ
  pub error : Option Bytes

-- A stream with a state: what a read of a number of bytes and a write return.
pub record Stream (S : Type 0) : Type 0 where
  pub read : ℕ → S → (Bytes × Option StreamError) × S
  pub write : Bytes → S → (ℕ × Option StreamError) × S

-- `invalid read length`
abbrev pub invalid_read_length : StreamError
invalid_read_length = StreamError.other (105 ∷ [])

-- `status` is the text that gRPC makes of the error of a server.
module _ {S : Type 0} (status : Bytes → Bytes) (stream : Stream S) where
  unfoldable pub read_response :
      (Bytes × Option StreamError) × S → Outcome StreamError ReadResponse × S
  read_response ((bytes, e), s) = (ok (record { read = bytes; error = sent_text e }), s)

  -- `Read` of http/reader/reader_server.go
  unfoldable pub reader_server_read : ℤ → S → Outcome StreamError ReadResponse × S
  reader_server_read (negsuc n) s = (err invalid_read_length, s)
  reader_server_read (pos zero) s = (err invalid_read_length, s)
  reader_server_read (pos (suc n)) s = read_response (stream.read (suc n) s)

  -- `Read` of http/conn/conn_server.go: `make` of a negative length is a panic
  unfoldable pub conn_server_read : ℤ → S → Outcome StreamError ReadResponse × S
  conn_server_read (negsuc n) s = (panic, s)
  conn_server_read (pos n) s = read_response (stream.read n s)

  -- what `Read` of a client returns: the bytes that are copied, their number being their length, and the
  -- error; `none` where the server panics
  unfoldable pub client_read :
      Outcome StreamError ReadResponse × S → Option (Bytes × Option StreamError) × S
  client_read (ok resp, s) = (some (resp.read, renew resp.error), s)
  client_read (err e, s) = (some ([], some (StreamError.other (status (text e)))), s)
  client_read (panic, s) = (none, s)

  -- `Read` of http/reader/reader_client.go and of http/conn/conn_client.go into a slice of a length
  unfoldable pub reader_read : ℕ → S → Option (Bytes × Option StreamError) × S
  reader_read n s = client_read (reader_server_read (to_int32 (pos n)) s)

  unfoldable pub conn_read : ℕ → S → Option (Bytes × Option StreamError) × S
  conn_read n s = client_read (conn_server_read (to_int32 (pos n)) s)

  unfoldable pub write_response : (ℕ × Option StreamError) × S → WriteResponse × S
  write_response ((n, e), s) = (record { written = to_int32 (pos n); error = sent_text e }, s)

  -- `Write` of http/writer, client and server
  unfoldable pub writer_write : Bytes → S → (ℤ × Option StreamError) × S
  writer_write bytes s =
      let (resp, s') = write_response (stream.write bytes s) in
      ((resp.written, renew resp.error), s')

  -- `Write` of http/conn, client and server: an error of the connection is that of the call, so the
  -- number of the bytes that were written before it is lost
  unfoldable pub conn_returned : (ℕ × Option StreamError) × S → (ℤ × Option StreamError) × S
  conn_returned ((n, none), s) = ((to_int32 (pos n), none), s)
  conn_returned ((n, some e), s) = ((pos 0, some (StreamError.other (status (text e)))), s)

  unfoldable pub conn_write : Bytes → S → (ℤ × Option StreamError) × S
  conn_write bytes s = conn_returned (stream.write bytes s)

  client_read-read_response :
      (r : (Bytes × Option StreamError) × S)
      → client_read (read_response r) ≡ (some (r.0.0, renew (sent_text r.0.1)), r.1)
  unfolding client_read read_response
  client_read-read_response ((bytes, e), s) = refl

  reader_read-eq :
      (n : ℕ) (s : S)
      → 1 ≤ n
      → n < 2147483648
      → reader_read n s ≡ (
        some ((stream.read n s).0.0, renew (sent_text (stream.read n s).0.1)),
        (stream.read n s).1,
      )
  unfolding reader_read reader_server_read
  reader_read-eq zero s low high = absurd (omega arith)
  reader_read-eq (suc n) s low high =
      ap (λ x. client_read (reader_server_read x s)) (to_int32-small (suc n) high)
      ∙ client_read-read_response (stream.read (suc n) s)

  conn_read-eq :
      (n : ℕ) (s : S)
      → n < 2147483648
      → conn_read n s ≡ (
        some ((stream.read n s).0.0, renew (sent_text (stream.read n s).0.1)),
        (stream.read n s).1,
      )
  unfolding conn_read conn_server_read
  conn_read-eq n s high =
      ap (λ x. client_read (conn_server_read x s)) (to_int32-small n high)
      ∙ client_read-read_response (stream.read n s)

  -- A read through gRPC into a slice of fewer than 2^31 bytes, and of one at least for a reader, returns
  -- the bytes of the stream and leaves the stream as a read of as many bytes does. It returns an error
  -- exactly where the stream returns one, with its text, and never `io.EOF`.
  pub remote_read_lem :
      (n : ℕ) (s : S)
      → 1 ≤ n
      → n < 2147483648
      → (got : Option StreamError) × (reader_read n s
          ≡ (some ((stream.read n s).0.0, got), (stream.read n s).1))
        × (conn_read n s ≡ (some ((stream.read n s).0.0, got), (stream.read n s).1))
        × SameText (stream.read n s).0.1 got
  remote_read_lem n s low high = (
    renew (sent_text (stream.read n s).0.1),
    reader_read-eq n s low high,
    conn_read-eq n s high,
    renew-SameText (stream.read n s).0.1,
  )
