-- ===== src/Maintenance/Pages.antt =====
-- The pages cover the items: none is missing, and none but the first is empty.
use gracon_admin_service.Prelude.{ℕ, zero, suc, ◌+◌, ◌-◌, ◌*◌, ◌/◌, ◌≤◌, ◌<◌, max, List, ◌≡◌, arith}
use native.Mathlib.Nat.{div-mul-le_self, lt-div-mul-add}
use gracon_admin_service.Maintenance.{build_paginated_response, skip_of}

pages_by :
    (k total limit : ℕ)
    → 1 ≤ limit
    → k * limit ≤ total + (limit - 1)
    → total + (limit - 1) < k * limit + limit
    → (1 ≤ max 1 k) × (total ≤ max 1 k * limit) × (1 < max 1 k → skip_of (max 1 k) limit < total)
pages_by zero total limit h low high = (omega arith, omega (arith, high), λ big. omega (arith, big))
pages_by (suc zero) total limit h low high =
    (omega arith, omega (arith, high), λ big. omega (arith, big))
pages_by (suc (suc n)) total limit h low high =
    let same : max 1 (suc (suc n)) ≡ suc (suc n) = omega arith in
    let less : suc (suc n) - 1 ≡ suc n = omega arith in
    rw (same, less) (omega arith, omega (arith, high), λ big. omega (arith, low, h))

-- With a limit of at least 1: there is a page; every page but the first starts within the items;
-- and the pages reach the last item.
pub build_paginated_response_covers :
    {A : Type 0} (items : List A) (total page limit : ℕ)
    → 1 ≤ limit
    → let r = build_paginated_response items total page limit in
      (1 ≤ r.total_pages)
      × (total ≤ r.total_pages * limit)
      × (1 < r.total_pages → skip_of r.total_pages limit < total)
unfolding build_paginated_response
build_paginated_response_covers items total page limit h =
    pages_by ((total + (limit - 1)) / limit) total limit h
      (div-mul-le_self (total + (limit - 1)) limit) (lt-div-mul-add h)
