-- ===== src/Users/Listing.antt =====
-- The listing of users (listUsers of src/modules/users/admin-users.service.ts).
pub mod Selected
use gracon_admin_service.Prelude.{
  ℕ, String, Bool, true, false, ◌&&◌, ◌||◌, Option, none, some, [], ◌∷◌, map, ◌==◌, ltb,
  if◌then◌else◌, or_else, option_map, template, trim,
}
use gracon_admin_service.Prisma.{Prisma}
use gracon_admin_service.Prisma.Search.{Search, find_many}
use gracon_admin_service.Models.{User, CitizenIdentity, IdentityType, nid, fin, Store}
use gracon_admin_service.Listing.{Paginated, unless_asked, nonempty, is_flag, within, pagination_of}
use gracon_admin_service.Maintenance.{skip_of}

pub record QueryUsersDto : Type 0 where
  pub search : Option String
  pub is_active : Option Bool
  pub is_id_verified : Option Bool
  pub is_verified : Option Bool
  pub identity_type : Option IdentityType
  pub created_from : Option ℕ
  pub created_to : Option ℕ
  pub page : Option ℕ
  pub limit : Option ℕ

pub record AdminUserListItem : Type 0 where
  pub user_id : String
  pub first_name : String
  pub last_name : String
  pub email : String
  pub phone_number : Option String
  pub identity_type : Option IdentityType
  pub is_active : Bool
  pub is_verified : Bool
  pub is_id_verified : Bool
  pub created_at : ℕ

pub record PaginatedUsers : Type 0 where
  pub result : Paginated AdminUserListItem
  pub performance_warning : Option String

abbrev pub offset_performance_threshold : ℕ
offset_performance_threshold = 50000

abbrev pub same_type : IdentityType → IdentityType → Bool
same_type nid nid = true
same_type fin fin = true
same_type _ _ = false

abbrev pub registered : String → User → ℕ
registered _ u = u.created_at

module _ ⦃P : Prisma⦄ where
  -- The identity of a user, which the query joins.
  abbrev pub identity_of : Store → String → Option CitizenIdentity
  identity_of s id = elim (P.find_first (λ _ i. i.user_id == id) s.citizen_identities) [
    | none ↦ none
    | some (_, i) ↦ some i
  ]

  unfoldable pub user_item : Store → String × User → AdminUserListItem
  user_item s (id, u) =
      let i = identity_of s id in
      record {
        user_id = id;
        first_name = or_else (option_map (λ (c : CitizenIdentity). c.post_names) i) "";
        last_name = or_else (option_map (λ (c : CitizenIdentity). c.sur_name) i) "";
        email = u.email;
        phone_number = u.phone_number;
        identity_type = option_map (λ (c : CitizenIdentity). c.identity_type) i;
        is_active = u.is_active;
        is_verified = u.is_verified;
        is_id_verified = u.is_id_verified;
        created_at = u.created_at;
      }

module _ ⦃P : Prisma⦄ ⦃Q : Search⦄ where
  abbrev pub has_identity_type : IdentityType → Option CitizenIdentity → Bool
  has_identity_type asked none = false
  has_identity_type asked (some i) = same_type asked i.identity_type

  abbrev name_contains : String → Option CitizenIdentity → Bool
  name_contains term none = false
  name_contains term (some i) = Q.contains i.sur_name term || Q.contains i.post_names term

  abbrev pub found_by_search : String → User → Option CitizenIdentity → Bool
  found_by_search term u i = Q.contains u.email term || name_contains term i

  -- The `where` of the query.
  unfoldable pub user_where : QueryUsersDto → Store → String → User → Bool
  user_where dto s id u =
      is_flag dto.is_active u.is_active
      && is_flag dto.is_verified u.is_verified
      && is_flag dto.is_id_verified u.is_id_verified
      && unless_asked dto.identity_type (λ t. has_identity_type t (identity_of s id))
      && within dto.created_from dto.created_to u.created_at
      && unless_asked (nonempty dto.search)
          (λ text. found_by_search (trim text) u (identity_of s id))

  abbrev warning_of : (ℕ → String) → ℕ → Option String
  warning_of to_locale_string total =
      if ltb offset_performance_threshold total
      then some (
          template (
            "User count ("
            ∷ to_locale_string total
            ∷ ") exceeds "
            ∷ to_locale_string offset_performance_threshold
            ∷ ". "
            ∷ "Consider migrating to cursor-based pagination."
            ∷ []))
      else none

  -- `to_locale_string` is the number format of the server.
  unfoldable pub list_users : (ℕ → String) → QueryUsersDto → Store → PaginatedUsers
  list_users to_locale_string dto s =
      let page = or_else dto.page 1 in
      let limit = or_else dto.limit 20 in
      let total = P.count (user_where dto s) s.users in
      record {
        result = record {
          data_rows =
              map (user_item s)
                (find_many (user_where dto s) registered (skip_of page limit) limit s.users);
          pagination = pagination_of page limit total;
        };
        performance_warning = warning_of to_locale_string total;
      }

  abbrev pub on_page : QueryUsersDto → ℕ → ℕ → QueryUsersDto
  on_page dto page limit = record dto { page = some page; limit = some limit }
