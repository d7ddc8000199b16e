-- ===== src/Rpc/Pages.antt =====
-- Pages of results (vm/rpc.go): which part of a list a request is answered with.
pub mod Cover
use native.Mathlib.Nat.{div-eq_of_lt, div-le_self, lt-div-mul-add, le-div_iff_mul-le}
use slide_sdk.Common.{
  Bool-cases, inl, inr, dec_lt, take_all, drop_all, length-drop, drop-drop, take-append-drop, ℕ,
  zero, suc, ◌+◌, ◌-◌, ◌*◌, ◌/◌, ◌≤◌, ◌<◌, ◌≡◌, refl, sym, ap, ◌∙◌, Bool, ◌&&◌, ◌||◌, Option, none,
  some, List, [], ◌∷◌, ◌++◌, length, take, drop, ltb, leb, ◌==◌, if◌then◌else◌, arith,
}
use slide_sdk.Common.Int.{
  to_int64, to_uint64, ◌-ℤ◌, ◌+ℤ◌, ℤ, pos, negsuc, ◌≤ℤ◌, ltb_ℤ, leb_ℤ, eqb_ℤ, add_int64, sub_int64,
  mul_int64, quot_int64, add_int64_pos, sub_int64_pos, mul_int64_pos, quot_int64_pos, int64_limit,
  magnitude,
}
use slide_sdk.Common.Outcome.{Outcome, ok, err, panic, ◌>>=◌}
use slide_sdk.Rpc.{RpcError, min_int64, validate_per_page, validate_per_page-bounds}

-- `validatePage`
abbrev pub pages_of : ℤ → ℤ → ℤ
pages_of per_page total =
    let pages = add_int64 (quot_int64 (sub_int64 total (pos 1)) per_page) (pos 1) in
    if eqb_ℤ pages (pos 0) then pos 1 else pages

unfoldable pub validate_page : Option ℤ → ℤ → ℤ → ℤ × Option RpcError
validate_page asked per_page total =
    if ltb_ℤ per_page (pos 1) then (pos 1, some RpcError.bad_per_page) else elim asked [
      | none ↦ (pos 1, none)
      | some page ↦
          if leb_ℤ page (pos 0) || ltb_ℤ (pages_of per_page total) page
          then (pos 1, some RpcError.bad_page)
          else (page, none)
    ]

-- `validateSkipCount`
unfoldable pub validate_skip_count : ℤ → ℤ → ℤ
validate_skip_count page per_page =
    let skip = mul_int64 (sub_int64 page (pos 1)) per_page in
    if ltb_ℤ skip (pos 0) then pos 0 else skip

module _ {A : Type 0} where
  -- `xs[low:high]`
  unfoldable pub slice : ℤ → ℤ → List A → Outcome RpcError (List A)
  slice (pos low) (pos high) xs =
      if leb low high && leb high (length xs) then ok (take (high - low) (drop low xs)) else panic
  slice _ _ xs = panic

  -- what `Validators`, `TxSearch` and `BlockSearch` do with their results
  unfoldable pub paginate : Option ℤ → Option ℤ → List A → Outcome RpcError (List A)
  paginate page_asked per_page_asked xs =
      let total = pos (length xs) in
      let per_page = validate_per_page per_page_asked in
      let (page, e) = validate_page page_asked per_page total in
      let skip = validate_skip_count page per_page in
      elim e [
        | some reason ↦ err reason
        | none ↦ slice skip (add_int64 skip (min_int64 per_page (sub_int64 total skip))) xs
      ]

-- how many pages of `n` there are, at least one
abbrev pub page_count : ℕ → ℕ → ℕ
page_count n total = if total == 0 then 1 else (total - 1) / n + 1

module _ {A : Type 0} where
  abbrev pub nth_page : ℕ → ℕ → List A → List A
  nth_page n k xs = take n (drop ((k - 1) * n) xs)

  -- the answer, in natural numbers
  pub expected : Option ℤ → ℕ → List A → Outcome RpcError (List A)
  expected none n xs = ok (take n xs)
  expected (some (negsuc k)) n xs = err RpcError.bad_page
  expected (some (pos k)) n xs =
      if leb 1 k && leb k (page_count n (length xs))
      then ok (nth_page n k xs)
      else err RpcError.bad_page
