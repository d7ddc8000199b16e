-- ===== src/Rpc.antt =====
-- The arithmetic of the RPC handlers (vm/rpc.go): the ranges of heights and the pages that a request may
-- ask for. An `int` of Go is 64 bits wide.
pub mod Genesis
pub mod Broadcast
pub mod Info
pub mod Routes
pub mod Pages
pub mod Search
pub mod Blocks
use slide_sdk.Common.{◌≡◌, ℕ, Option, none, some, if◌then◌else◌, arith, ◌↔◌}
use slide_sdk.Common.Int.{ℤ, pos, eqb_ℤ, ltb_ℤ, leb_ℤ, ◌<ℤ◌, ◌≤ℤ◌, add_int64, sub_int64}

-- The errors of the modelled functions.
pub data RpcError : Type 0 where
  negative_height inverted_range : RpcError
  height_not_positive height_too_high height_pruned : RpcError
  bad_per_page bad_page : RpcError
  genesis_is_large no_chunks bad_chunk : RpcError
  tx_not_found index_overflows bad_order : RpcError
  max_clients_reached max_subscriptions_reached unexpected_event timed_out : RpcError
  not_received : ℕ → RpcError
  subscription_ended : Option ℕ → RpcError
  external : ℕ → RpcError

abbrev pub min_int64 : ℤ → ℤ → ℤ
min_int64 a b = if ltb_ℤ a b then a else b

abbrev pub max_int64 : ℤ → ℤ → ℤ
max_int64 a b = if ltb_ℤ b a then a else b

-- the defaults, then the bounds, of `filterMinMax`; `low` and `high` are its arguments `min` and `max`
unfoldable pub high_end : ℤ → ℤ → ℤ
high_end height high = min_int64 height (if eqb_ℤ high (pos 0) then height else high)

unfoldable pub low_end : ℤ → ℤ → ℤ → ℤ → ℤ
low_end base low top limit =
    max_int64 (max_int64 base (if eqb_ℤ low (pos 0) then pos 1 else low))
      (add_int64 (sub_int64 top limit) (pos 1))

-- the range, and an error if there is one
unfoldable pub filter_min_max : ℤ → ℤ → ℤ → ℤ → ℤ → (ℤ × ℤ) × Option RpcError
filter_min_max base height low high limit =
    if ltb_ℤ low (pos 0)
    then ((low, high), some RpcError.negative_height)
    else if ltb_ℤ high (pos 0)
    then ((low, high), some RpcError.negative_height)
    else let top = high_end height high in
      let bottom = low_end base low top limit in
      if ltb_ℤ top bottom
      then ((bottom, top), some RpcError.inverted_range)
      else ((bottom, top), none)

-- `getHeight`; `none` is a request with no height
unfoldable pub get_height : ℤ → ℤ → Option ℤ → ℤ × Option RpcError
get_height base top none = (top, none)
get_height base top (some height) =
    if leb_ℤ height (pos 0)
    then (pos 0, some RpcError.height_not_positive)
    else if ltb_ℤ top height
    then (pos 0, some RpcError.height_too_high)
    else if ltb_ℤ height base
    then (pos 0, some RpcError.height_pruned)
    else (height, none)

-- `validatePerPage`
unfoldable pub validate_per_page : Option ℤ → ℤ
validate_per_page none = pos 30
validate_per_page (some n) =
    if ltb_ℤ n (pos 1) then pos 30 else if ltb_ℤ (pos 100) n then pos 100 else n

-- A height that `getHeight` returns with no error is the one asked for, or the top with none asked for,
-- and one asked for is positive and between the base and the top.
pub get_height-none_iff :
    (base top height : ℤ)
    → (get_height base top (some height) ≡ (height, none))
      ↔ ((pos 0 <ℤ height) × (base ≤ℤ height) × (height ≤ℤ top))
unfolding get_height
get_height-none_iff base top height =
    ((λ h. (ground arith, ground arith, ground arith)), (λ (p, b, t). ground arith))

-- A range that `filterMinMax` returns with no error is not inverted, and lies between the base and the
-- height.
pub filter_min_max-none :
    (base height low high limit : ℤ) {bottom top : ℤ}
    → filter_min_max base height low high limit ≡ ((bottom, top), none)
    → (bottom ≤ℤ top)
      × (base ≤ℤ bottom)
      × (top ≤ℤ height)
      × (add_int64 (sub_int64 top limit) (pos 1) ≤ℤ bottom)
unfolding filter_min_max high_end low_end
filter_min_max-none base height low high limit h =
    (ground arith, ground arith, ground arith, ground arith)

-- Whatever page size a request asks for, the one used is between 1 and 100, and a size in that range is
-- used as it is.
pub validate_per_page-bounds :
    (asked : Option ℤ) → (pos 1 ≤ℤ validate_per_page asked) × (validate_per_page asked ≤ℤ pos 100)
unfolding validate_per_page
validate_per_page-bounds none = (ground arith, ground arith)
validate_per_page-bounds (some n) = (ground arith, ground arith)
