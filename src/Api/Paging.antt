-- ===== src/Api/Paging.antt =====
-- api/paging.go: the slice of a list that a page shows.
use organic_blockbook.Prelude.{
  ℕ, zero, suc, ◌+◌, ◌-◌, ◌*◌, ◌/◌, ◌≤◌, ◌<◌, ◌≡◌, ◌⊎◌, refl, arith, ltb, leb, if◌then◌else◌,
}
use organic_blockbook.Prelude.Int.{ℤ, pos, negsuc}
use native.Mathlib.Nat.{mod-lt, mod-add-div', div-mul-le_self, le-div_iff_mul-le}

pub record PageBounds : Type 0 where
  pub from : ℕ
  pub to : ℕ
  pub page : ℕ
  pub total_pages : ℕ

abbrev pub no_pages : PageBounds
no_pages = record { from = 0; to = 0; page = 0; total_pages = 0 }

unfoldable pub clamp_page : ℤ → ℕ → ℕ
clamp_page (negsuc n) total_pages = 0
clamp_page (pos page) total_pages = if leb total_pages page then total_pages - 1 else page

unfoldable pub page_bounds : ℕ → ℕ → ℕ → ℕ → PageBounds
page_bounds count items_on_page total_pages page =
    let from = page * items_on_page in
    record {
      from = from;
      to = if ltb (count - from) items_on_page then count else from + items_on_page;
      page = page;
      total_pages = total_pages;
    }

-- The page is below the number of pages, so `from` is below `count` and no product overflows.
unfoldable pub compute_page_bounds : ℤ → ℤ → ℤ → PageBounds
unfolding clamp_page page_bounds
compute_page_bounds (pos (suc count)) page (pos (suc items)) =
    let total_pages = suc (count / suc items) in
    page_bounds (suc count) (suc items) total_pages (clamp_page page total_pages)
compute_page_bounds (pos (suc count)) page (pos zero) = no_pages
compute_page_bounds (pos (suc count)) page (negsuc items) = no_pages
compute_page_bounds (pos zero) page items = no_pages
compute_page_bounds (negsuc n) page items = no_pages

clamp_page-lt : (page : ℤ) (n : ℕ) → clamp_page page (suc n) < suc n
unfolding clamp_page
clamp_page-lt (negsuc k) n = omega arith
clamp_page-lt (pos k) n = ground arith

-- What a page of a list with `count` elements shows: `items` of them, or the rest.
pub record IsPage (count items : ℕ) (b : PageBounds) : Type 0 where
  pub start : b.from ≡ b.page * items
  pub in_range : b.page < b.total_pages
  pub some_items : b.from < b.to
  pub in_list : b.to ≤ count
  pub full_or_last : (b.to ≡ b.from + items) ⊎ ((b.to ≡ count) × (b.to < b.from + items))

page_bounds-IsPage :
    (count items total page : ℕ)
    → page < total
    → page * items < count
    → 0 < items
    → IsPage count items (page_bounds count items total page)
unfolding page_bounds
page_bounds-IsPage count items total page below starts some_items = record {
  start = refl;
  in_range = below;
  some_items = ground arith;
  in_list = ground arith;
  full_or_last = ground arith;
}

-- Whatever the page asked for, also a negative one or one behind the last, the slice of a list that
-- is not empty is a page of it: it starts at the page's number times the number of items, is not
-- empty, lies in the list, and is full or ends with the list.
pub compute_page_bounds-IsPage :
    (count items : ℕ) (page : ℤ)
    → 0 < count
    → 0 < items
    → IsPage count items (compute_page_bounds (pos count) page (pos items))
unfolding compute_page_bounds
compute_page_bounds-IsPage zero items page some_count some_items = elim some_count [ ]
compute_page_bounds-IsPage (suc count) zero page some_count some_items = elim some_items [ ]
compute_page_bounds-IsPage (suc count) (suc items) page some_count some_items =
    let total = count / suc items in
    let below = clamp_page-lt page total in
    let last : clamp_page page (suc total) ≤ count / suc items = omega (arith, below) in
    let starts = (le-div_iff_mul-le some_items).0 last in
    page_bounds-IsPage (suc count) (suc items) (suc total) (clamp_page page (suc total)) below
      (omega (arith, starts)) some_items

-- Each element of the list is on the page that its position divided by the number of items gives.
pub compute_page_bounds-covers :
    (count items k : ℕ)
    → k < count
    → 0 < items
    → ((compute_page_bounds (pos count) (pos (k / items)) (pos items)).from ≤ k)
      × (k < (compute_page_bounds (pos count) (pos (k / items)) (pos items)).to)
unfolding compute_page_bounds page_bounds clamp_page
compute_page_bounds-covers zero items k below some_items = elim below [ ]
compute_page_bounds-covers (suc count) zero k below some_items = elim some_items [ ]
compute_page_bounds-covers (suc count) (suc items) k below some_items =
    let before = div-mul-le_self k (suc items) in
    let on_page : k / suc items ≤ count / suc items =
      (le-div_iff_mul-le some_items).1 (omega (arith, before)) in
    ground (arith, before, mod-lt k some_items, mod-add-div' k (suc items))
