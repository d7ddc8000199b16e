-- ===== src/Rpc/Pages/Cover.antt =====
-- The arithmetic of pages never leaves the list that they are cut from, and the pages cover it.
use native.Mathlib.Nat.{div-eq_of_lt, div-le_self, lt-div-mul-add, le-div_iff_mul-le}
use slide_sdk.Common.{
  Bool-cases, inl, inr, dec_lt, take_all, drop_all, length-drop, drop-drop, take-append-drop, ℕ,
  zero, suc, ◌+◌, ◌-◌, ◌*◌, ◌/◌, ◌≤◌, ◌<◌, ◌≡◌, refl, sym, ap, ◌∙◌, ◌&&◌, Option, none, some, List,
  [], ◌++◌, length, take, drop, leb, if◌then◌else◌, arith,
}
use slide_sdk.Common.Int.{
  to_int64, to_uint64, ◌-ℤ◌, ◌+ℤ◌, ℤ, pos, negsuc, ◌≤ℤ◌, add_int64, sub_int64, quot_int64,
  add_int64_pos, sub_int64_pos, mul_int64_pos, quot_int64_pos, int64_limit, magnitude,
}
use slide_sdk.Common.Outcome.{Outcome, ok, err, ◌>>=◌}
use slide_sdk.Rpc.{RpcError, min_int64, validate_per_page, validate_per_page-bounds}
use slide_sdk.Rpc.Pages.{
  pages_of, validate_page, validate_skip_count, slice, paginate, page_count, nth_page, expected,
}

-- a number between 1 and 100 is natural
natural :
    (v : ℤ)
    → pos 1 ≤ℤ v
    → v ≤ℤ pos 100
    → (v ≡ pos (magnitude v)) × (1 ≤ magnitude v) × (magnitude v ≤ 100)
natural (pos n) l h = (refl, omega arith, omega arith)
natural (negsuc n) l h = absurd (omega arith)

pages_of_empty : (n : ℕ) → 1 ≤ n → pages_of (pos n) (pos 0) ≡ pos 1
unfolding add_int64 sub_int64 quot_int64 to_int64 to_uint64 ◌-ℤ◌ ◌+ℤ◌
pages_of_empty zero p = elim p [ ]
pages_of_empty (suc zero) p = refl
pages_of_empty (suc (suc n)) p =
    let none_left : 1 / suc (suc n) ≡ 0 = div-eq_of_lt (omega arith) in ground (arith, none_left)

pages_of_lem :
    (n total : ℕ)
    → 1 ≤ n
    → total < int64_limit
    → pages_of (pos n) (pos total) ≡ pos (page_count n total)
pages_of_lem n zero p h = pages_of_empty n p
pages_of_lem n (suc total) p h =
    let small = div-le_self total n in
    let first : sub_int64 (pos (suc total)) (pos 1) ≡ pos total =
      sub_int64_pos (suc total) 1 h (omega arith) ∙ ap pos (omega arith) in
    let second = quot_int64_pos total n (omega arith) in
    let third = add_int64_pos (total / n) 1 (omega (arith, small)) in
    rw (first, second, third) (ground arith)

-- a page that exists starts at the end of the list or before it
page_start : (n total k : ℕ) → 1 ≤ n → k ≤ page_count n total → (k - 1) * n ≤ total
page_start n zero k p h = let e : k - 1 ≡ 0 = ground arith in rw e (omega arith)
page_start n (suc total) k p h =
    let below : k - 1 ≤ total / n = ground arith in
    let (there, back) = le-div_iff_mul-le {x = k - 1} {y = total} p in omega (arith, there below)

page_count_pos : (n total : ℕ) → 1 ≤ page_count n total
page_count_pos n total = ground arith

page_count_lt : (n total : ℕ) → total < int64_limit → page_count n total < int64_limit
page_count_lt n total l = let small = div-le_self (total - 1) n in ground (arith, small)

-- the pages reach the end of the list
page_count_end : (n total : ℕ) → 1 ≤ n → total ≤ page_count n total * n
page_count_end n zero p = ground arith
page_count_end n (suc total) p =
    let more = lt-div-mul-add {a = total} {b = n} p in
    let count : page_count n (suc total) ≡ total / n + 1 = ground arith in
    rw count (omega (arith, more))

validate_page-none : (n total : ℕ) → 1 ≤ n → validate_page none (pos n) (pos total) ≡ (pos 1, none)
unfolding validate_page
validate_page-none n total p = ground arith

validate_page_negative :
    (n total k : ℕ)
    → 1 ≤ n
    → validate_page (some (negsuc k)) (pos n) (pos total) ≡ (pos 1, some RpcError.bad_page)
unfolding validate_page
validate_page_negative n total k p = ground arith

validate_page-some :
    (n total k : ℕ)
    → 1 ≤ n
    → total < int64_limit
    → validate_page (some (pos k)) (pos n) (pos total) ≡ (
        if leb 1 k && leb k (page_count n total)
        then (pos k, none)
        else (pos 1, some RpcError.bad_page))
unfolding validate_page
validate_page-some n total k p l = let pages = pages_of_lem n total p l in ground (arith, pages)

skip_lem :
    (n k : ℕ)
    → k < int64_limit
    → 1 ≤ k
    → (k - 1) * n < int64_limit
    → validate_skip_count (pos k) (pos n) ≡ pos ((k - 1) * n)
unfolding validate_skip_count
skip_lem n k h p small =
    let first = sub_int64_pos k 1 h p in
    let second = mul_int64_pos (k - 1) n small in rw (first, second) (ground arith)

module _ {A : Type 0} where
  slice_lem :
      (n s : ℕ) (xs : List A)
      → n ≤ 100
      → s ≤ length xs
      → length xs < int64_limit
      → slice
          (pos s)
          (add_int64 (pos s) (min_int64 (pos n) (sub_int64 (pos (length xs)) (pos s))))
          xs
        ≡ ok (take n (drop s xs))
  unfolding slice
  slice_lem n s xs b h l =
      let first = sub_int64_pos (length xs) s l h in
      elim (dec_lt n (length xs - s)) [
        | yes lt ↦
            let smaller : min_int64 (pos n) (pos (length xs - s)) ≡ pos n = ground arith in
            let second = add_int64_pos s n (omega arith) in
            let whole : s + n - s ≡ n = omega arith in
            rw (first, smaller, second, whole) (ground arith)
        | no ge ↦
            let smaller : min_int64 (pos n) (pos (length xs - s)) ≡ pos (length xs - s) =
              ground arith in
            let second = add_int64_pos s (length xs - s) (omega arith) in
            let whole : s + (length xs - s) ≡ length xs = omega arith in
            let rest = take_all (length xs - s) (drop s xs) (omega (arith, length-drop s xs)) in
            let rest' = take_all n (drop s xs) (omega (arith, length-drop s xs)) in
            rw (first, smaller, second, whole, rest, rest') (ground arith)
      ]

  paginate_err :
      (page_asked per_page_asked : Option ℤ) {n : ℕ} {page : ℤ} {reason : RpcError} (xs : List A)
      → validate_per_page per_page_asked ≡ pos n
      → validate_page page_asked (pos n) (pos (length xs)) ≡ (page, some reason)
      → paginate page_asked per_page_asked xs ≡ err reason
  unfolding paginate
  paginate_err page_asked per_page_asked xs e f = rw (paginate, e, f) refl

  paginate_ok :
      (page_asked per_page_asked : Option ℤ) {n : ℕ} (k : ℕ) (xs : List A)
      → validate_per_page per_page_asked ≡ pos n
      → validate_page page_asked (pos n) (pos (length xs)) ≡ (pos k, none)
      → 1 ≤ n
      → n ≤ 100
      → 1 ≤ k
      → k ≤ page_count n (length xs)
      → length xs < int64_limit
      → paginate page_asked per_page_asked xs ≡ ok (nth_page n k xs)
  unfolding paginate
  paginate_ok page_asked per_page_asked {n = n} k xs e f p b q h l =
      let start = page_start n (length xs) k p h in
      let count = page_count_lt n (length xs) l in
      let skip = skip_lem n k (omega (arith, count)) q (omega (arith, start)) in
      rw (paginate, e, f, e, f, skip) (slice_lem n ((k - 1) * n) xs b start l)

  expected_in :
      (n k : ℕ) (xs : List A)
      → 1 ≤ k
      → k ≤ page_count n (length xs)
      → expected (some (pos k)) n xs ≡ ok (nth_page n k xs)
  unfolding expected
  expected_in n k xs q h = ground arith

  at_size :
      (n : ℕ) (page_asked per_page_asked : Option ℤ) (xs : List A)
      → validate_per_page per_page_asked ≡ pos n
      → 1 ≤ n
      → n ≤ 100
      → length xs < int64_limit
      → paginate page_asked per_page_asked xs ≡ expected page_asked n xs
  unfolding expected
  at_size n none asked xs e p b l =
      let first_start : (1 - 1) * n ≡ 0 = omega arith in
      paginate_ok none asked 1 xs e (validate_page-none n (length xs) p) p b (omega arith)
        (page_count_pos n (length xs)) l
      ∙ ap (λ m. ok (take n (drop m xs))) first_start
  at_size n (some (negsuc k)) asked xs e p b l =
      paginate_err (some (negsuc k)) asked xs e (validate_page_negative n (length xs) k p)
  at_size n (some (pos k)) asked xs e p b l =
      let f = validate_page-some n (length xs) k p l in
      elim (Bool-cases (leb 1 k && leb k (page_count n (length xs)))) [
        | inl there ↦
            paginate_ok (some (pos k)) asked k xs e (ground (arith, f)) p b (ground arith)
              (ground arith) l
            ∙ ground arith
        | inr not_there ↦
            paginate_err (some (pos k)) asked {page = pos 1} {reason = RpcError.bad_page} xs e
              (ground (arith, f))
            ∙ ground arith
      ]

  -- The results that a page of a request holds are those of the list that the page numbers, counted in
  -- natural numbers, and a page that is not there is an error: no slice is out of range.
  pub paginate_lem :
      (page_asked per_page_asked : Option ℤ) (xs : List A)
      → length xs < int64_limit
      → paginate page_asked per_page_asked xs
        ≡ expected page_asked (magnitude (validate_per_page per_page_asked)) xs
  paginate_lem page_asked per_page_asked xs l =
      let (low, high) = validate_per_page-bounds per_page_asked in
      let (e, p, b) = natural (validate_per_page per_page_asked) low high in
      at_size (magnitude (validate_per_page per_page_asked)) page_asked per_page_asked xs e p b l

  -- the answers to the requests for `count` pages from the page `k` on, one after the other
  pub collect : ℕ → ℕ → Option ℤ → List A → Outcome RpcError (List A)
  collect zero k per_page xs = ok []
  collect (suc count) k per_page xs = paginate (some (pos k)) per_page xs >>= λ here.
      collect count (suc k) per_page xs >>= λ rest. ok (here ++ rest)

  collect_from :
      (n count j : ℕ) (per_page : Option ℤ) (xs : List A)
      → validate_per_page per_page ≡ pos n
      → 1 ≤ n
      → n ≤ 100
      → length xs < int64_limit
      → j + count ≡ page_count n (length xs)
      → collect count (suc j) per_page xs ≡ ok (drop (j * n) xs)
  unfolding collect
  collect_from n zero j per_page xs e p b l c =
      let all = page_count_end n (length xs) p in
      ap ok (sym (drop_all (j * n) xs (ground (arith, all, c))))
  collect_from n (suc count) j per_page xs e p b l c =
      let here = at_size n (some (pos (suc j))) per_page xs e p b l in
      let rest = collect_from n count (suc j) per_page xs e p b l (omega arith) in
      let same : (suc j - 1) * n ≡ j * n =
        let minus_one : suc j - 1 ≡ j = omega arith in ap (λ m. m * n) minus_one in
      let next : j * n + n ≡ suc j * n = omega arith in
      let there = drop-drop (j * n) n xs ∙ ap (λ m. drop m xs) next in
      let joined = take-append-drop n (drop (j * n) xs) in
      let answer : expected (some (pos (suc j))) n xs ≡ ok (take n (drop (j * n) xs)) =
        expected_in n (suc j) xs (omega arith) (omega arith)
        ∙ ap (λ m. ok (take n (drop m xs))) same in
      rw (here, answer, rest) (ap ok (rw⁻¹ there joined))

  -- All pages of a list, put together in their order, are the list: nothing is lost between two pages and
  -- nothing is on two.
  pub collect_all :
      (per_page : Option ℤ) (xs : List A)
      → length xs < int64_limit
      → collect (page_count (magnitude (validate_per_page per_page)) (length xs)) 1 per_page xs
        ≡ ok xs
  collect_all per_page xs l =
      let n = magnitude (validate_per_page per_page) in
      let (low, high) = validate_per_page-bounds per_page in
      let (e, p, b) = natural (validate_per_page per_page) low high in
      let start : 0 * n ≡ 0 = omega arith in
      collect_from n (page_count n (length xs)) 0 per_page xs e p b l (omega arith)
      ∙ ap (λ m. ok (drop m xs)) start
