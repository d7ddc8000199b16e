-- ===== src/Http/Header.antt =====
-- HTTP headers as Go maps, and their form in a message (grpcutils/util.go).
use slide_sdk.Common.{
  ◌≡◌, refl, ◌∙◌, List, [], ◌∷◌, Option, none, some, Bytes, Bytes-discrete, arith,
}
use slide_sdk.Common.Map.{lookup, store, lookup-store}

-- `http.Header`, and with the same form `url.Values`
abbrev pub Header : Type 0
Header = List (Bytes × List Bytes)

abbrev pub find : Bytes → Header → Option (List Bytes)
find k h = lookup Bytes-discrete k h

-- `GetHTTPHeader`: the elements in the order in which `range` visits the map
unfoldable pub get_http_header : (Header → Header) → Header → Header
get_http_header range h = range h

-- `MergeHTTPHeader`
unfoldable pub merge_http_header : Header → Header → Header
merge_http_header [] h = h
merge_http_header ((k, vs) ∷ es) h = merge_http_header es (store Bytes-discrete k vs h)

-- no key stands twice
abbrev pub Distinct : Header → Type 0
Distinct [] = Unit
Distinct ((k, vs) ∷ h) = (find k h ≡ none) × Distinct h

-- `range` over a map visits each key once, with its value, in some order.
pub record Visits (range : Header → Header) (h : Header) : Type 0 where
  pub once : Distinct (range h)
  pub each : (k : Bytes) → find k (range h) ≡ find k h

-- two headers with the same values under every key
abbrev pub Same : Header → Header → Type 0
Same g h = (k : Bytes) → find k g ≡ find k h

-- the values under a key where one header is merged into another
abbrev pub over : Option (List Bytes) → Option (List Bytes) → Option (List Bytes)
over (some vs) old = some vs
over none old = old

pub over-none : (o : Option (List Bytes)) → over o none ≡ o
over-none none = refl
over-none (some vs) = refl

pub find-merge_http_header :
    (es h : Header) (k : Bytes)
    → Distinct es
    → find k (merge_http_header es h) ≡ over (find k es) (find k h)
unfolding lookup merge_http_header
find-merge_http_header [] h k d = refl
find-merge_http_header ((j, vs) ∷ es) h k (fresh, d) =
    let ih = find-merge_http_header es (store Bytes-discrete j vs h) k d in
    elim (Bytes-discrete j k) [
      | yes same ↦ ground (arith, lookup-store Bytes-discrete j k vs h)
      | no ne ↦ ground (arith, lookup-store Bytes-discrete j k vs h)
    ]

-- A header that went through a message and into an empty one is the header again.
pub header_round_trip :
    (range : Header → Header) (h : Header)
    → Visits range h
    → Same (merge_http_header (get_http_header range h) []) h
unfolding get_http_header lookup
header_round_trip range h v k =
    find-merge_http_header (range h) [] k v.once ∙ over-none (find k (range h)) ∙ v.each k
