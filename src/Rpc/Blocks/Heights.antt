-- ===== src/Rpc/Blocks/Heights.antt =====
-- What the handlers on blocks answer, over all heights that a request may name.
use slide_sdk.Common.{
  ℕ, zero, suc, ◌+◌, ◌-◌, ◌≤◌, ◌<◌, ◌≡◌, refl, ap, ◌∙◌, ◌⊎◌, inl, inr, Option, none, some, List, [],
  ◌∷◌, length, arith, dec_lt, subst, Option-cases,
}
use slide_sdk.Common.Int.{
  ℤ, pos, negsuc, ◌≤ℤ◌, ◌<ℤ◌, add_int64, sub_int64, sub_int64_pos, add_int64_pos, int64_limit,
  magnitude,
}
use slide_sdk.Common.Outcome.{ok, err, ◌>>=◌, Outcome-cases, >>=-eq-ok}
use slide_sdk.Chain.Types.{Block, ValidatorSet}
use slide_sdk.Rpc.{
  RpcError, filter_min_max, filter_min_max-none, low_end, get_height, validate_per_page,
}
use slide_sdk.Rpc.Pages.{expected}
use slide_sdk.Rpc.Pages.Cover.{paginate_lem}
use slide_sdk.Rpc.Blocks.{
  BlockMeta, Stores, checked, metas_down, blockchain_info, block, block_by_hash, validators,
  ResultBlock,
}

-- `n` heights from `t` down
pub down : ℕ → ℕ → List ℤ
down t zero = []
down t (suc n) = pos t ∷ down (t - 1) n

module _ (s : Stores) where
  -- the metas of those heights that the store has
  pub present : List ℤ → List BlockMeta
  present [] = []
  present (h ∷ hs) = elim (s.load_block_meta h) [ none ↦ present hs | some m ↦ m ∷ present hs ]

  metas_down_lem :
      (n fuel b t : ℕ)
      → n < fuel
      → 1 ≤ b
      → t + 1 ≡ b + n
      → t < int64_limit
      → metas_down s fuel (pos b) (pos t) ≡ some (present (down t n))
  unfolding metas_down present down
  metas_down_lem n zero b t f p e l = elim f [ ]
  metas_down_lem zero (suc fuel) b t f p e l = ground arith
  metas_down_lem (suc n) (suc fuel) b t f p e l =
      let first = sub_int64_pos t 1 l (omega arith) in
      let rest = metas_down_lem n fuel b (t - 1) (omega arith) p (omega arith) (omega arith) in
      ground (arith, first, rest)

range_positive :
    (base height low high : ℤ) {bottom top : ℤ}
    → filter_min_max base height low high (pos 20) ≡ ((bottom, top), none)
    → pos 1 ≤ℤ bottom
unfolding filter_min_max low_end
range_positive base height low high e = ground arith

-- the limit of 20 heights, where nothing wraps around
at_most_20 :
    (b t : ℕ)
    → t < int64_limit
    → 1 ≤ b
    → add_int64 (sub_int64 (pos t) (pos 20)) (pos 1) ≤ℤ pos b
    → t < b + 20
at_most_20 b t l p h = elim (dec_lt t 20) [
  | yes small ↦ omega arith
  | no large ↦
      let first = sub_int64_pos t 20 l (omega arith) in
      let second = add_int64_pos (t - 20) 1 (omega arith) in
      let near : pos (t - 20 + 1) ≤ℤ pos b =
        subst (λ v. v ≤ℤ pos b) (ap (λ v. add_int64 v (pos 1)) first ∙ second) h in
      omega arith
]

-- a range without an error is one of natural numbers, at most 20 of them
abbrev Range : ℤ → ℤ → ℤ → ℕ → ℕ → Type 0
Range height bottom top b t =
    (bottom ≡ pos b) × (top ≡ pos t) × (1 ≤ b) × (b ≤ t) × (t < b + 20) × (pos t ≤ℤ height)

Range-pos :
    (base height low high : ℤ) {bottom top : ℤ}
    → height <ℤ pos int64_limit
    → filter_min_max base height low high (pos 20) ≡ ((bottom, top), none)
    → (b : ℕ) × ((t : ℕ) × Range height bottom top b t)
Range-pos base height low high {bottom = negsuc b} l e =
    let p = range_positive base height low high e in absurd (omega arith)
Range-pos base height low high {bottom = pos b} {top = negsuc t} l e =
    let (order, _, _, _) = filter_min_max-none base height low high (pos 20) e in
    absurd (omega arith)
Range-pos base height low high {bottom = pos b} {top = pos t} l e =
    let (order, _, below, near) = filter_min_max-none base height low high (pos 20) e in
    let p = range_positive base height low high e in
    (
      b,
      (
        t,
        (
          refl,
          refl,
          omega arith,
          omega arith,
          at_most_20 b t (omega arith) (omega arith) near,
          below,
        ),
      ),
    )

module _ (s : Stores) where
  info_at :
      (low high : ℤ) {bottom top : ℤ} {metas : List BlockMeta}
      → filter_min_max s.base s.height low high (pos 20) ≡ ((bottom, top), none)
      → metas_down s 21 bottom top ≡ some metas
      → blockchain_info s 21 low high
        ≡ some (ok (record { last_height = s.height; block_metas = metas }))
  unfolding blockchain_info
  info_at low high e m = rw (blockchain_info, e, e, m) refl

  -- With fuel for 21 turns `BlockchainInfo` returns for every range that a request may name: an error, or
  -- the metas of at most 20 heights, from the highest down, each of them positive and not above the top of
  -- the store.
  pub blockchain_info_lem :
      (low high : ℤ)
      → s.height <ℤ pos int64_limit
      → ((e : RpcError) × (blockchain_info s 21 low high ≡ some (err e)))
        ⊎ ((b : ℕ) × ((t : ℕ) × ((1 ≤ b)
                × (b ≤ t)
                × (t < b + 20)
                × (pos t ≤ℤ s.height)
                × (blockchain_info s 21 low high
                    ≡ some (
                        ok (record {
                          last_height = s.height;
                          block_metas = present s (down t (t + 1 - b));
                        }))))))
  unfolding blockchain_info
  blockchain_info_lem low high l =
      let found = filter_min_max s.base s.height low high (pos 20) in
      elim (Option-cases found.1) [
        | inr (e, failed) ↦ inl (e, rw (blockchain_info, failed) refl)
        | inl fine ↦
            let whole : found ≡ ((found.0.0, found.0.1), none) = rw fine refl in
            let (b, (t, (at_b, at_t, p, order, near, below))) =
              Range-pos s.base s.height low high l whole in
            let metas =
              metas_down_lem s (t + 1 - b) 21 b t (omega arith) p (omega arith) (omega arith) in
            inr (b, (t, (p, order, near, below, info_at low high whole (rw (at_b, at_t) metas))))
      ]

  -- `Validators` answers the page of the set at the height asked for, counted in natural numbers.
  pub validators_page :
      (asked page per_page : Option ℤ)
      → ((h : ℤ) (set : ValidatorSet)
          → s.load_validators h ≡ ok set
          → length set.validators < int64_limit)
      → validators s asked page per_page ≡ (
          checked (get_height s.base s.height asked) >>= λ h. s.load_validators h >>= λ set.
          expected page (magnitude (validate_per_page per_page)) set.validators >>= λ v.
          ok (record {
            block_height = h;
            validators = v;
            count = length v;
            total = length set.validators;
          }))
  unfolding validators
  validators_page asked page per_page small =
      elim (Outcome-cases (checked (get_height s.base s.height asked))) [
        | inl (h, at) ↦
            rw (validators, at)
              (elim (Outcome-cases (s.load_validators h)) [
                | inl (set, loaded) ↦
                    let cut = paginate_lem page per_page set.validators (small h set loaded) in
                    rw (loaded, cut) refl
                | inr (inl (x, failed)) ↦ rw failed refl
                | inr (inr failed) ↦ rw failed refl
              ])
        | inr (inl (x, failed)) ↦ rw (validators, failed) refl
        | inr (inr failed) ↦ rw (validators, failed) refl
      ]

-- A block and its meta are stored together, under the height and the hash of the block.
pub record StoresTogether (s : Stores) : Type 0 where
  pub with_meta :
      (h : ℤ) (b : Block)
      → s.load_block h ≡ some b
      → (m : BlockMeta) × ((s.load_block_meta h ≡ some m)
          × (s.load_block_by_hash m.block_id.hash ≡ some b)
          × (b.header.height ≡ h))

module _ (s : Stores) (t : StoresTogether s) where
  -- A block that `Block` answers is answered by `BlockByHash` too, with the same identifier, under the hash
  -- in that identifier.
  pub block_by_hash-block :
      (h : ℤ) (b : Block) {r : ResultBlock}
      → block s (some h) ≡ ok r
      → r.block ≡ some b
      → block_by_hash s r.block_id.hash ≡ ok r
  unfolding block block_by_hash
  block_by_hash-block h b e f =
      let (x, at, answer) = >>=-eq-ok (checked (get_height s.base s.height (some h))) _ e in
      elim (Option-cases (s.load_block_meta x)) [
        | inl gone ↦ let (m, (has, by, same)) = t.with_meta x b (cc) in absurd (cc)
        | inr (m, found) ↦ let (m', (has, by, same)) = t.with_meta x b (cc) in cc
      ]
