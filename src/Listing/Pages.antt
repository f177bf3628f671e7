-- ===== src/Listing/Pages.antt =====
-- How many pages a listing announces.
use gracon_admin_service.Prelude.{ℕ, suc, ◌+◌, ◌-◌, ◌*◌, ◌≤◌, ◌<◌, true, ◌↔◌, ◌≡◌, arith}
use native.Mathlib.Nat.{div-mul-le_self, lt-div-mul-add, le-div_iff_mul-le}
use gracon_admin_service.Listing.{pages_of, pagination_of}

enough : (total limit : ℕ) → 1 ≤ limit → total + (limit - 1) < pages_of total limit * limit + limit
enough total limit h = lt-div-mul-add h

-- Enough pages for a total.
pages_of_enough : (total limit : ℕ) → 1 ≤ limit → total ≤ pages_of total limit * limit
pages_of_enough total limit h = omega (arith, h, enough total limit h)

-- With a limit of at least 1, `has_next` says exactly that items are left after this page, and
-- the pages are as many as it takes to hold the items, with no empty one among them.
pub pagination_of_exact :
    (page limit total : ℕ)
    → 1 ≤ limit
    → let r = pagination_of page limit total in
      ((r.has_next ≡ true) ↔ (page * limit < total))
      × (total ≤ r.total_pages * limit)
      × (r.total_pages * limit < total + limit)
unfolding pagination_of
pagination_of_exact page limit total h =
    let reach : (suc page ≤ pages_of total limit) ↔ (suc page * limit ≤ total + (limit - 1)) =
      le-div_iff_mul-le h in
    let product : suc page * limit ≡ page * limit + limit = omega arith in
    let low : pages_of total limit * limit ≤ total + (limit - 1) =
      div-mul-le_self (total + (limit - 1)) limit in
    (
      (
        λ more. omega (arith, reach.0 (ground (arith, more)), product, h),
        λ left. (let more = reach.1 (omega (arith, left, product, h)) in ground (arith, more)),
      ),
      pages_of_enough total limit h,
      omega (arith, low, h),
    )
