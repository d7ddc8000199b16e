-- ===== src/Http/WriterTrip.antt =====
-- What the real writer receives of a handler's calls (http/responsewriter).
use mathlib.Core.Option
use slide_sdk.Common.{
  ℕ, ◌≤◌, ◌≡◌, refl, Bool, true, false, ◌||◌, ◌&&◌, not, Option, none, some, List, [], ◌∷◌, ◌++◌,
  Bytes, Bytes-discrete, if◌then◌else◌,
}
use slide_sdk.Common.Int.{ℤ, pos, ltb_ℤ, eqb_ℤ}
use slide_sdk.Common.Map.{store}
use slide_sdk.Http.Header.{Header, get_http_header, merge_http_header, Visits, Same}
use slide_sdk.Http.Simple.{Call, to_int32, ensure_valid_response_code}
use slide_sdk.Http.Writer.{Sent, LockedWriter, Wire, Remote}

-- What is expected to arrive: a write with the header of that time, and so the first code, made valid,
-- unless something was written before.
unfoldable expected : Bool → Header → List Call → List Sent
expected written h [] = []
expected written h (Call.set_header k vs ∷ cs) = expected written (store Bytes-discrete k vs h) cs
expected written h (Call.write bytes ∷ cs) = Sent.payload h bytes ∷ expected true h cs
expected written h (Call.write_header status ∷ cs) =
    let rest = expected true h cs in
    if written then rest else Sent.code h (ensure_valid_response_code (to_int32 status)) ∷ rest

-- two lists with the same codes and payloads, and the same values under each key of the headers
pub data Matches : List Sent → List Sent → Type 0 where
  done : Matches [] []
  code :
      {g h : Header} {status : ℤ} {xs ys : List Sent}
      → Same g h
      → Matches xs ys
      → Matches (Sent.code g status ∷ xs) (Sent.code h status ∷ ys)
  payload :
      {g h : Header} {bytes : Bytes} {xs ys : List Sent}
      → Same g h
      → Matches xs ys
      → Matches (Sent.payload g bytes ∷ xs) (Sent.payload h bytes ∷ ys)

-- the writer has received what it had before and then what was expected
Grows : List Sent → List Sent → List Sent → Type 0
Grows before after more = (new : List Sent) × (after ≡ before ++ new) × Matches new more

-- `NewClient`, and `NewLockedWriter` around a writer with the same header
abbrev pub fresh : Header → Remote
fresh h = record { header = h; writer = record { header_written = false; header = h; sent = [] } }

module _ (wire : Wire) (kept : (w : LockedWriter) → wire.lost w ≡ none)
    (visits : (h : Header) → Visits wire.range h) where
  -- the header that the real writer has after a call
  abbrev received : Remote → Header
  received r = merge_http_header (get_http_header wire.range r.header) []

-- The calls that a writer of net/http acts on (`ResponseWriter`): a code below 100 or above 999 is a panic,
-- here `none`; a code of 1xx but 101 is informational, is sent, and leaves the final code open; a second
-- final code, and any code after a write, is dropped; and every write counts, with the header of that time.
-- What it makes of a write where its code allows no body is left to it, in both places.
unfoldable pub go_writer : Bool → Header → List Call → Option (List Sent)
go_writer written h [] = some []
go_writer written h (Call.set_header k vs ∷ cs) = go_writer written (store Bytes-discrete k vs h) cs
go_writer written h (Call.write bytes ∷ cs) =
    Option.map (λ xs. Sent.payload h bytes ∷ xs) (go_writer true h cs)
go_writer written h (Call.write_header status ∷ cs) =
    let dropped = go_writer written h cs in
    let informational = Option.map (λ xs. Sent.code h status ∷ xs) dropped in
    let final = Option.map (λ xs. Sent.code h status ∷ xs) (go_writer true h cs) in
    if written
    then dropped
    else if ltb_ℤ status (pos 100) || ltb_ℤ (pos 999) status
    then none
    else if ltb_ℤ status (pos 200) && not (eqb_ℤ status (pos 101))
    then informational
    else final

-- every code is final, and one that HTTP knows
pub data Plain : List Call → Type 0 where
  nothing : Plain []
  set_header :
      {k : Bytes} {vs : List Bytes} {cs : List Call} → Plain cs → Plain (Call.set_header k vs ∷ cs)
  write : {bytes : Bytes} {cs : List Call} → Plain cs → Plain (Call.write bytes ∷ cs)
  write_header :
      {n : ℕ} {cs : List Call}
      → 200 ≤ n
      → n ≤ 599
      → Plain cs
      → Plain (Call.write_header (pos n) ∷ cs)

go_writer-known :
    (h : Header) (status : ℤ) (cs : List Call)
    → go_writer true h (Call.write_header status ∷ cs) ≡ go_writer true h cs
unfolding go_writer
go_writer-known h status cs = refl
