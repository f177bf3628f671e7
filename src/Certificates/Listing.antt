-- ===== src/Certificates/Listing.antt =====
-- The listing of certificates (listCertificates of
-- src/modules/certificates/admin-certificates.service.ts, and the line of a certificate in
-- helpers/admin-certificates.helper.ts). Instants are numbers of milliseconds and are not printed.
pub mod Lines
pub mod Selected
use gracon_admin_service.Prelude.{
  ℕ, ◌-◌, ◌/◌, String, Char, code, Bool, true, false, not, ◌&&◌, ◌||◌, Option, none, some, List, [],
  ◌∷◌, map, ◌==◌, leb, ltb, eqb, if◌then◌else◌, or_else, option_map, template, trim, chars, length,
}
use gracon_admin_service.Prelude.Int.{ℤ, pos, negsuc}
use gracon_admin_service.Prisma.{Prisma}
use gracon_admin_service.Prisma.Search.{Search, find_many}
use gracon_admin_service.Models.{
  User, CitizenIdentity, IdentityType, nid, fin, PersonalCertificate, Store,
}
use gracon_admin_service.Certificates.{
  CertificateStatus, active, expired, revoked, derive_certificate_status,
}
use gracon_admin_service.Listing.{unless_asked, nonempty, is_flag}
use gracon_admin_service.Users.Listing.{identity_of}
use gracon_admin_service.Maintenance.{PaginatedResponse, build_paginated_response, skip_of}

pub record QueryCertificatesDto : Type 0 where
  pub search : Option String
  pub identity_type : Option IdentityType
  pub status : Option CertificateStatus
  pub country : Option String
  pub expiring_soon : Bool
  pub page : Option ℕ
  pub limit : Option ℕ

-- `where.isRevoked` and `where.notAfter` of the query.
pub record StatusFilter : Type 0 where
  pub is_revoked : Option Bool
  pub lt : Option ℕ
  pub gte : Option ℕ
  pub lte : Option ℕ

abbrev pub no_filter : StatusFilter
no_filter = record { is_revoked = none; lt = none; gte = none; lte = none }

-- The branches on `dto.status`.
unfoldable pub status_filter : Option CertificateStatus → ℕ → StatusFilter
status_filter none now = no_filter
status_filter (some revoked) now = record no_filter { is_revoked = some true }
status_filter (some expired) now = record no_filter { is_revoked = some false; lt = some now }
status_filter (some active) now = record no_filter { is_revoked = some false; gte = some now }

-- The branch on `dto.expiringSoon`, with the instant `horizon` some days from now.
unfoldable pub expiring_filter : Bool → ℕ → ℕ → StatusFilter → StatusFilter
expiring_filter asked now horizon w =
    if asked then record w { is_revoked = some false; gte = some now; lte = some horizon } else w

abbrev pub meets : StatusFilter → PersonalCertificate → Bool
meets w c =
    is_flag w.is_revoked c.is_revoked
    && unless_asked w.lt (λ b. ltb c.not_after b)
    && unless_asked w.gte (λ b. leb b c.not_after)
    && unless_asked w.lte (λ b. leb c.not_after b)

abbrev starts_with_two : List Char → Bool
starts_with_two [] = false
starts_with_two (c ∷ cs) = eqb (code c) b'2'

-- `subjectUserId` starts with a 2, or does not.
abbrev pub has_subject_type : IdentityType → PersonalCertificate → Bool
has_subject_type nid c = not (starts_with_two (chars c.subject_user_id))
has_subject_type fin c = starts_with_two (chars c.subject_user_id)

abbrev all_digits : List Char → Bool
all_digits [] = true
all_digits (c ∷ cs) = leb b'0' (code c) && leb (code c) b'9' && all_digits cs

-- `/^2\d{15}$/.test(value)`
unfoldable pub is_fin_identifier : String → Bool
is_fin_identifier value =
    starts_with_two (chars value) && all_digits (chars value) && eqb (length (chars value)) 16

unfoldable pub derive_certificate_identity_type : PersonalCertificate → IdentityType
unfolding is_fin_identifier
derive_certificate_identity_type c = if is_fin_identifier c.subject_user_id then fin else nid

abbrev pub ms_per_day : ℕ
ms_per_day = 86400000

-- `Math.floor` of the quotient, which may be negative.
unfoldable pub compute_days_to_expiry : ℕ → ℕ → ℤ
compute_days_to_expiry not_after now =
    if leb now not_after
    then pos ((not_after - now) / ms_per_day)
    else negsuc ((now - not_after - 1) / ms_per_day)

-- `composed || fallback`, the names being empty texts where they are missing.
unfoldable pub build_signer_display_name : Option String → Option String → String → String
unfolding trim
build_signer_display_name post_names sur_name fallback =
    let composed = trim (template (or_else post_names "" ∷ " " ∷ or_else sur_name "" ∷ [])) in
    if composed == "" then fallback else composed

pub record CertificateListItem : Type 0 where
  pub certificate_id : String
  pub user_id : String
  pub user_name : String
  pub identity_type : IdentityType
  pub country : String
  pub issued_at : ℕ
  pub expires_at : ℕ
  pub days_to_expiry : ℤ
  pub status : CertificateStatus

abbrev pub issued : String → PersonalCertificate → ℕ
issued _ c = c.created_at

module _ ⦃P : Prisma⦄ where
  abbrev email_of : Store → String → String
  email_of s id = or_else (option_map (λ (u : User). u.email) (P.find_unique id s.users)) ""

  unfoldable pub build_certificate_list_item :
      Store → ℕ → String × PersonalCertificate → CertificateListItem
  build_certificate_list_item s now (id, c) =
      let i = identity_of s c.user_id in
      record {
        certificate_id = id;
        user_id = c.user_id;
        user_name =
            build_signer_display_name (option_map (λ (x : CitizenIdentity). x.post_names) i)
              (option_map (λ (x : CitizenIdentity). x.sur_name) i) (email_of s c.user_id);
        identity_type = derive_certificate_identity_type c;
        country = c.subject_c;
        issued_at = c.created_at;
        expires_at = c.not_after;
        days_to_expiry = compute_days_to_expiry c.not_after now;
        status = derive_certificate_status c now;
      }

-- The parts of the platform that the listing calls: `toUpperCase`, and `setDate` with thirty days
-- more in the time zone of the server.
pub record Clockwork : Type 0 where
  pub to_upper_case : String → String
  pub thirty_days_after : ℕ → ℕ

module _ ⦃P : Prisma⦄ ⦃Q : Search⦄ (L : Clockwork) where
  abbrev asked_status : QueryCertificatesDto → ℕ → StatusFilter
  asked_status dto now =
      expiring_filter dto.expiring_soon now (L.thirty_days_after now) (status_filter dto.status now)

  -- The `where` of the query.
  unfoldable pub certificate_where :
      QueryCertificatesDto → ℕ → Store → String → PersonalCertificate → Bool
  certificate_where dto now s id c =
      unless_asked (nonempty dto.country) (λ k. c.subject_c == L.to_upper_case k)
      && unless_asked (nonempty dto.search)
          (λ term. Q.contains c.subject_cn term || Q.contains (email_of s c.user_id) term)
      && unless_asked dto.identity_type (λ t. has_subject_type t c)
      && meets (asked_status dto now) c

  unfoldable pub list_certificates :
      QueryCertificatesDto → ℕ → Store → PaginatedResponse CertificateListItem
  list_certificates dto now s =
      let page = or_else dto.page 1 in
      let limit = or_else dto.limit 20 in
      build_paginated_response
        (map (build_certificate_list_item s now) (
          find_many (certificate_where dto now s) issued (skip_of page limit) limit s.certificates))
        (P.count (certificate_where dto now s) s.certificates) page limit
