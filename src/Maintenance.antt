-- ===== src/Maintenance.antt =====
-- src/common/tasks/token-cleanup.task.ts and src/common/pagination/paginated-response.ts: the
-- nightly deletion of dead sessions, and the envelope of every paginated listing.
pub mod Cleanup
pub mod Pages
use gracon_admin_service.Prelude.{ℕ, ◌+◌, ◌-◌, ◌/◌, ◌*◌, max, String, Bool, ◌||◌, List, ltb}
use gracon_admin_service.Prisma.{Prisma}
use gracon_admin_service.Http.{Handler, write, recover}
use gracon_admin_service.Models.{AdminRefreshToken, Store}

abbrev pub is_dead : ℕ → String → AdminRefreshToken → Bool
is_dead now _ t = ltb t.expires_at now || t.revoked

module _ ⦃P : Prisma⦄ where
  -- A failed deletion is logged and swallowed.
  unfoldable pub cleanup_expired_tokens : ℕ → Handler Store (Unit {0})
  cleanup_expired_tokens now = recover tt (
      write (λ s. P.delete_many (is_dead now) s.admin_refresh_tokens)
        (λ s t. record s { admin_refresh_tokens = t }))

pub record PaginatedResponse {ℓ} (A : Type ℓ) : Type ℓ where
  pub total : ℕ
  pub page : ℕ
  pub limit : ℕ
  pub total_pages : ℕ
  pub items : List A

-- The listings take `limit` items from here on; a page is at least 1.
abbrev pub skip_of : ℕ → ℕ → ℕ
skip_of page limit = (page - 1) * limit

-- `Math.ceil(total / limit)` of a limit that is not 0, which every DTO requires.
abbrev ceil_div : ℕ → ℕ → ℕ
ceil_div total limit = (total + (limit - 1)) / limit

unfoldable pub build_paginated_response {ℓ} :
    {A : Type ℓ} → List A → ℕ → ℕ → ℕ → PaginatedResponse A
build_paginated_response items total page limit = record {
  total = total;
  page = page;
  limit = limit;
  total_pages = max 1 (ceil_div total limit);
  items = items;
}
