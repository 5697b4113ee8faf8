-- ===== src/Server/InputLimits/Bounds.antt =====
-- What the limits of server/input_limits.go let through.
use organic_blockbook.Prelude.{
  ℕ, zero, suc, ◌*◌, ◌/◌, ◌≤◌, ◌<◌, ◌≡◌, ◌↔◌, ◌⊎◌, inl, inr, refl, arith, ltb, List, [], ◌∷◌, none,
  some, length, All, ◌∙◌, ap, Bool-cases,
}
use organic_blockbook.Prelude.Int.{ℤ, pos, negsuc, ◌≤ℤ◌}
use organic_blockbook.Server.InputLimits.{
  max_websocket_fee_targets, max_fee_target_blocks, max_address_history_results,
  validate_fee_targets, validate_websocket_fee_targets, divide, normalize_page_size, at_least_one,
  limit_page, page_of_size, normalize_address_paging,
}
use native.Mathlib.Nat.{le-div_iff_mul-le}

abbrev pub IsFeeTarget : ℤ → Type 0
IsFeeTarget t = (pos 1 ≤ℤ t) × (t ≤ℤ max_fee_target_blocks)

validate_fee_targets_lem : (ts : List ℤ) → (validate_fee_targets ts ≡ none) ↔ All IsFeeTarget ts
unfolding validate_fee_targets
validate_fee_targets_lem [] = ground arith
validate_fee_targets_lem (t ∷ ts) = ground (arith, validate_fee_targets_lem ts)

-- The fee targets of a request are accepted exactly when there are at most 20 and each is from 1 to
-- 1008 blocks.
pub validate_websocket_fee_targets_lem :
    (ts : List ℤ)
    → (validate_websocket_fee_targets ts ≡ none)
      ↔ ((length ts ≤ max_websocket_fee_targets) × All IsFeeTarget ts)
unfolding validate_websocket_fee_targets
validate_websocket_fee_targets_lem ts = ground (arith, validate_fee_targets_lem ts)

normalize_page_size_lem :
    (page_size : ℤ) (d m : ℕ)
    → 0 < d
    → d ≤ m
    → (s : ℕ) × (normalize_page_size page_size (pos d) (pos m) ≡ pos (suc s)) × (suc s ≤ m)
unfolding normalize_page_size
normalize_page_size_lem (negsuc n) (suc d) (suc m) pos_d le = (d, ground arith, le)
normalize_page_size_lem (pos zero) (suc d) (suc m) pos_d le = (d, ground arith, le)
normalize_page_size_lem (pos (suc n)) (suc d) (suc m) pos_d le =
    elim (Bool-cases (ltb (suc m) (suc n))) [
      | inl over ↦ (m, ground arith, ground arith)
      | inr within ↦ (n, ground arith, ground arith)
    ]
normalize_page_size_lem page_size zero m pos_d le = elim pos_d [ ]
normalize_page_size_lem page_size (suc d) zero pos_d le = elim le [ ]

limit_page_lem :
    (page : ℤ) (q : ℕ)
    → (p : ℕ) × (limit_page (at_least_one page) (at_least_one (pos q)) ≡ pos (suc p))
      × ((p ≡ 0) ⊎ (suc p ≤ q))
unfolding limit_page
limit_page_lem (negsuc n) zero = (0, ground arith, inl refl)
limit_page_lem (negsuc n) (suc q) = (0, ground arith, inl refl)
limit_page_lem (pos zero) zero = (0, ground arith, inl refl)
limit_page_lem (pos zero) (suc q) = (0, ground arith, inl refl)
limit_page_lem (pos (suc n)) zero = (0, ground arith, inl refl)
limit_page_lem (pos (suc n)) (suc q) = elim (Bool-cases (ltb (suc q) (suc n))) [
  | inl over ↦ (q, ground arith, inr (omega arith))
  | inr within ↦ (n, ground arith, inr (ground arith))
]

-- For a default page size from 1 to the greatest page size, whatever the page and the page size asked
-- for: the page is at least 1, the page size is from 1 to the greatest, and a page behind the first
-- ends within the first 100000 results.
pub normalize_address_paging_lem :
    (page page_size : ℤ) (d m : ℕ)
    → 0 < d
    → d ≤ m
    → (p s : ℕ) × (normalize_address_paging page page_size (pos d) (pos m) ≡ some (pos p, pos s))
      × (1 ≤ p)
      × (1 ≤ s)
      × (s ≤ m)
      × ((p ≡ 1) ⊎ (p * s ≤ max_address_history_results))
unfolding normalize_address_paging page_of_size divide
normalize_address_paging_lem page page_size d m pos_d le =
    let (s, size, small) = normalize_page_size_lem page_size d m pos_d le in
    let (p, limited, within) = limit_page_lem page (max_address_history_results / suc s) in
    let some_size : 0 < suc s = omega arith in
    (
      suc p,
      suc s,
      ap (page_of_size page) size ∙ ap (λ z. some (z, pos (suc s))) limited,
      omega arith,
      omega arith,
      small,
      elim within [ inl e ↦ inl (omega arith) | inr le ↦ inr ((le-div_iff_mul-le some_size).0 le) ],
    )
