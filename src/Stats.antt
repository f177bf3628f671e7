-- ===== src/Stats.antt =====
-- src/modules/stats/admin-stats.service.ts: the overview of the platform and its cache of five
-- minutes. The results of the raw SQL queries are given, and so is the server's time zone.
pub mod Days
pub mod Cache
use gracon_admin_service.Prelude.{
  ℕ, ◌<◌, zero, suc, ◌+◌, ◌-◌, ◌*◌, ◌/◌, String, Bool, true, false, not, ◌&&◌, Option, none, some,
  List, [], ◌∷◌, map, ltb, leb, eqb, if◌then◌else◌, or_else,
}
use gracon_admin_service.Prisma.{Prisma}
use gracon_admin_service.Models.{User, Store}
use gracon_admin_service.Certificates.Listing.{ms_per_day}

-- A day is counted from the epoch; `date` in a reply is its date.
pub record DailyCount : Type 0 where
  pub date : ℕ
  pub count : ℕ

pub record CountryCount : Type 0 where
  pub country : String
  pub count : ℕ

-- What the statistics read of the tables of other services.
pub record IdVerification : Type 0 where
  pub passed : Bool

pub data SecurityEvent : Type 0 where
  login_failed rate_limit_exceeded other_event : SecurityEvent

pub record SecurityEventLog : Type 0 where
  pub event_type : SecurityEvent
  pub created_at : ℕ

pub record ForeignIdentitySnapshot : Type 0 where
  pub total : ℕ
  pub active : ℕ
  pub registered_today : ℕ
  pub male_count : ℕ
  pub female_count : ℕ

pub record ForeignIdentityRecentRegistration : Type 0 where
  pub identification : String
  pub first_name : String
  pub last_name : String
  pub country_of_origin : String
  pub is_active : Bool
  pub issuance_version : ℕ
  pub created_at : ℕ

-- The rows that the raw queries give, for one run.
pub record RawRows : Type 0 where
  pub top_countries : List CountryCount
  pub foreign_identity_snapshot_rows : List ForeignIdentitySnapshot
  pub foreign_identity_top_countries : List CountryCount
  pub foreign_identity_recent_registrations : List ForeignIdentityRecentRegistration
  pub registration_rows : List (ℕ × ℕ)
  pub verification_rows : List (ℕ × ℕ)
  pub foreign_identity_registration_rows : List (ℕ × ℕ)

-- Floating-point numbers: `parseFloat(((a / b) * 100).toFixed(2))`.
pub record Rates : Type 1 where
  pub Rate : Type 0
  pub zero_rate : Rate
  pub percentage : ℕ → ℕ → Rate

pub record ForeignIdentityStats (R : Rates) : Type 0 where
  pub total_registered : ℕ
  pub active : ℕ
  pub inactive : ℕ
  pub registered_today : ℕ
  pub active_rate : R.Rate
  pub male_count : ℕ
  pub female_count : ℕ
  pub registrations_last_7_days : List DailyCount
  pub top_countries_of_origin : List CountryCount
  pub recent_registrations : List ForeignIdentityRecentRegistration

pub record PlatformStats (R : Rates) : Type 0 where
  pub total_users : ℕ
  pub users_verified_today : ℕ
  pub users_pending_id_verification : ℕ
  pub total_verifications : ℕ
  pub verifications_passed : ℕ
  pub verifications_failed : ℕ
  pub verification_pass_rate : R.Rate
  pub failed_logins_last_24h : ℕ
  pub rate_limit_hits_last_24h : ℕ
  pub registrations_last_7_days : List DailyCount
  pub verifications_last_7_days : List DailyCount
  pub top_countries_of_birth : List CountryCount
  pub foreign_identity_stats : ForeignIdentityStats R
  pub cached_at : ℕ
  pub cache_expires_at : ℕ

-- The date of an instant, in UTC: `toISOString().split('T')[0]`.
abbrev pub day_of : ℕ → ℕ
day_of at = at / ms_per_day

-- The server's own time zone: `setHours(0, 0, 0, 0)` and `setDate(getDate() + 1)`.
pub record LocalClock : Type 0 where
  pub start_of_day : ℕ → ℕ
  pub next_day : ℕ → ℕ
  pub next_day_later : (at : ℕ) → at < next_day at

-- The loop of generateDateLabels: the UTC date of each local midnight, while the day has begun.
unfoldable pub labels_from : LocalClock → ℕ → ℕ → ℕ → List ℕ
labels_from L zero current to = []
labels_from L (suc fuel) current to =
    let rest = labels_from L fuel (L.next_day current) to in
    if leb current to then day_of current ∷ rest else []

-- Every round moves on, so that the milliseconds up to the end are rounds enough.
unfoldable pub generate_date_labels : LocalClock → ℕ → ℕ → List ℕ
generate_date_labels L from to = labels_from L (suc to) (L.start_of_day from) to

-- `new Map(rows).get(date)`: the last row of a day counts.
unfoldable pub count_on : List (ℕ × ℕ) → ℕ → Option ℕ
count_on [] date = none
count_on ((d, n) ∷ rows) date =
    let later = count_on rows date in
    elim later [ some m ↦ some m | none ↦ (if eqb d date then some n else none) ]

-- The days of the chart, with nothing on a day without a row.
unfoldable pub chart : List ℕ → List (ℕ × ℕ) → List DailyCount
chart labels rows =
    map (λ date. record { date = date; count = or_else (count_on rows date) 0 }) labels

abbrev no_foreign_identities : ForeignIdentitySnapshot
no_foreign_identities = record {
  total = 0;
  active = 0;
  registered_today = 0;
  male_count = 0;
  female_count = 0;
}

abbrev first_or : ForeignIdentitySnapshot → List ForeignIdentitySnapshot → ForeignIdentitySnapshot
first_or d [] = d
first_or d (x ∷ xs) = x

abbrev rate_of : (R : Rates) → ℕ → ℕ → R.Rate
rate_of R part total = if ltb 0 total then R.percentage part total else R.zero_rate

abbrev after_day_start : ℕ → Option ℕ → Bool
after_day_start today none = false
after_day_start today (some at) = leb today at

abbrev same_event : SecurityEvent → SecurityEvent → Bool
same_event login_failed login_failed = true
same_event rate_limit_exceeded rate_limit_exceeded = true
same_event other_event other_event = true
same_event _ _ = false

abbrev since : ℕ → SecurityEvent → String → SecurityEventLog → Bool
since from kind _ e = same_event e.event_type kind && leb from e.created_at

-- The clock, the tables and the raw results that a run reads beside the users.
pub record Sources ⦃P : Prisma⦄ : Type 0 where
  pub local_clock : LocalClock
  pub id_verifications : P.Table IdVerification
  pub security_events : P.Table SecurityEventLog
  pub raw_rows : RawRows

abbrev pub cache_ttl_ms : ℕ
cache_ttl_ms = 300000

module _ ⦃P : Prisma⦄ (R : Rates) where
  abbrev foreign_stats : List ℕ → RawRows → ForeignIdentityStats R
  foreign_stats labels raw =
      let shot = first_or no_foreign_identities raw.foreign_identity_snapshot_rows in
      record {
        total_registered = shot.total;
        active = shot.active;
        inactive = shot.total - shot.active;
        registered_today = shot.registered_today;
        active_rate = rate_of R shot.active shot.total;
        male_count = shot.male_count;
        female_count = shot.female_count;
        registrations_last_7_days = chart labels raw.foreign_identity_registration_rows;
        top_countries_of_origin = raw.foreign_identity_top_countries;
        recent_registrations = raw.foreign_identity_recent_registrations;
      }

  -- The body of getOverviewStats past the cache. `now` is at least a week after the epoch.
  unfoldable pub recompute : Sources → Store → ℕ → PlatformStats R
  recompute src s now =
      let labels = generate_date_labels src.local_clock (now - 7 * ms_per_day) now in
      let total_verifications = P.count (λ _ v. true) src.id_verifications in
      let passed = P.count (λ _ (v : IdVerification). v.passed) src.id_verifications in
      record {
        total_users = P.count (λ _ u. true) s.users;
        users_verified_today =
            P.count
              (λ _ (u : User).
                u.is_id_verified
                && after_day_start (src.local_clock.start_of_day now) u.id_verified_at)
              s.users;
        users_pending_id_verification =
            P.count (λ _ (u : User). u.is_verified && not u.is_id_verified) s.users;
        total_verifications = total_verifications;
        verifications_passed = passed;
        verifications_failed =
            P.count (λ _ (v : IdVerification). not v.passed) src.id_verifications;
        verification_pass_rate = rate_of R passed total_verifications;
        failed_logins_last_24h =
            P.count (since (now - ms_per_day) login_failed) src.security_events;
        rate_limit_hits_last_24h =
            P.count (since (now - ms_per_day) rate_limit_exceeded) src.security_events;
        registrations_last_7_days = chart labels src.raw_rows.registration_rows;
        verifications_last_7_days = chart labels src.raw_rows.verification_rows;
        top_countries_of_birth = src.raw_rows.top_countries;
        foreign_identity_stats = foreign_stats labels src.raw_rows;
        cached_at = now;
        cache_expires_at = now + cache_ttl_ms;
      }
