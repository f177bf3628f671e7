-- ===== src/Stats/Cache.antt =====
-- The cache of the overview, and how old the overview may be.
use gracon_admin_service.Prelude.{if◌then◌else◌, ℕ, ◌+◌, Option, none, some, ◌≡◌, ltb}
use gracon_admin_service.Prisma.{Prisma}
use gracon_admin_service.Models.{Store}
use gracon_admin_service.Stats.{Rates, Sources, PlatformStats, cache_ttl_ms, recompute}

pub record CacheEntry (R : Rates) : Type 0 where
  pub data_stats : PlatformStats R
  pub expires_at : ℕ

module _ ⦃P : Prisma⦄ (R : Rates) where
  abbrev renewed : Sources → Store → ℕ → PlatformStats R × Option (CacheEntry R)
  renewed src s now =
      let stats = recompute R src s now in
      (stats, some (record { data_stats = stats; expires_at = stats.cache_expires_at }))

  -- The reply and the cache after it. The clock is read for the test, and again for the run.
  unfoldable pub get_overview_stats :
      Sources → Store → ℕ → ℕ → Option (CacheEntry R) → PlatformStats R × Option (CacheEntry R)
  get_overview_stats src s checked now none = renewed src s now
  get_overview_stats src s checked now (some e) =
      if ltb checked e.expires_at then (e.data_stats, some e) else renewed src s now

  unfoldable pub invalidate_cache : Option (CacheEntry R) → Option (CacheEntry R)
  invalidate_cache cache = none

module _ ⦃P : Prisma⦄ (R : Rates) where
  -- An entry expires five minutes after its data was computed.
  abbrev pub IsTimed : Option (CacheEntry R) → Type 0
  IsTimed none = Unit
  IsTimed (some e) = e.expires_at ≡ e.data_stats.cached_at + cache_ttl_ms
