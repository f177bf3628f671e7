-- ===== src/Tests/Listings.antt =====
-- The listings, the statistics and the allowed origins on the sample state.
use gracon_admin_service.Prelude.{
  ℕ, ◌+◌, ◌-◌, ◌*◌, ◌≤◌, ◌↔◌, ◌⊎◌, ◌≢◌, String, true, none, some, [], ◌∷◌, ◌≡◌, refl, inl, suc,
  length, option_map, arith,
}
use gracon_admin_service.Prisma.ListTable.{list_tables}
use gracon_admin_service.Prisma.Search.{Listed}
use gracon_admin_service.Prisma.Search.ListSearch.{list_search}
use gracon_admin_service.Models.{User, AdminAuditLog, user_deactivated, text}
use gracon_admin_service.Users.Listing.{QueryUsersDto}
use gracon_admin_service.Certificates.{active, derive_certificate_status}
use gracon_admin_service.Certificates.Listing.{Clockwork, issued, ms_per_day, certificate_where}
use gracon_admin_service.Certificates.Listing.Selected.{by_status, certificate_where_status}
use gracon_admin_service.Signatures.{derive_signature_status}
use gracon_admin_service.Signatures.Listing.{signature_where}
use gracon_admin_service.Signatures.Listing.Selected.{with_status, signature_where_status}
use gracon_admin_service.Signatures.Documents.{
  Json, JsonFields, primitive, object, end, field, sanitize_audit_metadata,
}
use gracon_admin_service.Signatures.Documents.Cleaning.{
  HasField, Shows, sanitize_audit_metadata-Shows,
}
use gracon_admin_service.Audit.Listing.{target_users, email_in}
use gracon_admin_service.Audit.Listing.Joined.{target_users_joined}
use gracon_admin_service.Stats.{LocalClock, Rates, Sources, day_of, generate_date_labels}
use gracon_admin_service.Stats.Days.{days_from, utc, Rounds, generate_date_labels-days}
use gracon_admin_service.Cors.{origin_allowed}
use gracon_admin_service.Cors.Origins.{Names, origin_allowed_iff}
use gracon_admin_service.Tests.Fixture.{start, certificate}

abbrev everyone : QueryUsersDto
everyone = record {
  search = none;
  is_active = some true;
  is_id_verified = none;
  is_verified = none;
  identity_type = none;
  created_from = some 1;
  created_to = none;
  page = none;
  limit = none;
}

abbrev plain_number : ℕ → String
plain_number n = "many"

abbrev clockwork : Clockwork
clockwork = record { to_upper_case = λ s. s; thirty_days_after = λ now. now + 30 * ms_per_day }

certificate_where_status_example :
    Listed "x1" certificate (
      list_search.select
        (certificate_where clockwork (by_status active) 100 start)
        issued
        0
        20
        start.certificates)
    ↔ ((list_tables.find_unique "x1" start.certificates ≡ some certificate)
        × (derive_certificate_status certificate 100 ≡ active))
certificate_where_status_example =
    certificate_where_status clockwork active 100 0 20 start "x1" certificate
      (λ e. omega (arith, e))

signature_where_status_example :
    Listed "x1" certificate (
      list_search.select
        (signature_where (with_status gracon_admin_service.Signatures.active) start)
        issued
        0
        20
        start.certificates)
    ↔ ((list_tables.find_unique "x1" start.certificates ≡ some certificate)
        × (derive_signature_status (record {
          id = "x1";
          certificate = certificate;
          key_pair = record { algorithm = "ED25519"; is_active = true };
        })
            ≡ gracon_admin_service.Signatures.active))
unfolding start list_tables
signature_where_status_example =
    signature_where_status gracon_admin_service.Signatures.active 0 20 start "x1" certificate
      (record { algorithm = "ED25519"; is_active = true }) refl

abbrev reason_key : String
reason_key = "reason"

abbrev blob : Json
blob = object (field "reason" (primitive (text "lost")) (field "nested" (object end) end))

sanitize_audit_metadata-Shows_example :
    Shows "reason" (text "lost") (sanitize_audit_metadata blob) ↔ (
      (fields : JsonFields) × (blob ≡ object fields)
      × HasField "reason" (text "lost") fields
      × (reason_key ≢ "__proto__"))
sanitize_audit_metadata-Shows_example = sanitize_audit_metadata-Shows "reason" (text "lost") blob

abbrev entry : AdminAuditLog
entry = record {
  admin_id = "a1";
  action = user_deactivated;
  target_user_id = some "u1";
  ip_address = none;
  metadata = [];
}

target_users_joined_example :
    email_in (target_users (("e1", entry) ∷ []) start) "u1"
    ≡ option_map (λ (u : User). u.email) (list_tables.find_unique "u1" start.users)
target_users_joined_example =
    target_users_joined (("e1", entry) ∷ []) "e1" "u1" entry start (inl (refl, refl)) refl

abbrev whole_rates : Rates
whole_rates = record { Rate = ℕ; zero_rate = 0; percentage = λ a b. a }

abbrev nothing_else : Sources ⦃P = list_tables⦄
unfolding list_tables
nothing_else = record {
  local_clock = utc;
  id_verifications = [];
  security_events = [];
  raw_rows = record {
    top_countries = [];
    foreign_identity_snapshot_rows = [];
    foreign_identity_top_countries = [];
    foreign_identity_recent_registrations = [];
    registration_rows = [];
    verification_rows = [];
    foreign_identity_registration_rows = [];
  };
}

abbrev week : ℕ
week = 7 * ms_per_day

-- Two hours east of UTC: midnight is ten in the evening of the day before.
abbrev east : LocalClock
east = record {
  start_of_day = λ at. day_of (at + 7200000) * ms_per_day - 7200000;
  next_day = λ at. at + ms_per_day;
  next_day_later = λ at. omega arith;
}

generate_date_labels-days_example :
    Rounds east week (east.start_of_day 90000000) (generate_date_labels east 90000000 week)
    × (generate_date_labels utc 90000000 week
        ≡ days_from (suc (day_of week) - day_of 90000000) (day_of 90000000))
    × (7 * ms_per_day ≤ week → length (generate_date_labels utc (week - 7 * ms_per_day) week) ≡ 8)
generate_date_labels-days_example = generate_date_labels-days east 90000000 week

origin_allowed_iff_example :
    (origin_allowed "https://admin, https://ops" (some "http://x") none ≡ true)
    × ((origin : String)
        → (origin_allowed "https://admin, https://ops" (some "http://x") (some origin) ≡ true)
          ↔ ((origin ≡ "") ⊎ Names ("https://admin" ∷ " https://ops" ∷ "http://x" ∷ []) origin))
    × ((origin : String)
        → (origin_allowed "https://admin, https://ops" none (some origin) ≡ true)
          ↔ ((origin ≡ "") ⊎ Names ("https://admin" ∷ " https://ops" ∷ []) origin))
origin_allowed_iff_example =
    origin_allowed_iff ("https://admin" ∷ " https://ops" ∷ []) ("http://x" ∷ []) (ground arith)
      (ground arith)
