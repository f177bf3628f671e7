-- ===== src/Users/Listing/Selected.antt =====
-- Which users a page of the listing shows.
use gracon_admin_service.Prelude.{ℕ, ◌≤◌, String, Bool, true, some, ◌≡◌, ◌≢◌, trim}
use gracon_admin_service.Prisma.{Prisma}
use gracon_admin_service.Prisma.Search.{Search}
use gracon_admin_service.Models.{User, CitizenIdentity, IdentityType, Store}
use gracon_admin_service.Users.Listing.{QueryUsersDto, identity_of, found_by_search}

module _ ⦃P : Prisma⦄ ⦃Q : Search⦄ where
  -- What a query asks of a user: each filter that is given.
  pub record Wanted (dto : QueryUsersDto) (s : Store) (id : String) (u : User) : Type 0 where
    pub active : (b : Bool) → dto.is_active ≡ some b → u.is_active ≡ b
    pub verified : (b : Bool) → dto.is_verified ≡ some b → u.is_verified ≡ b
    pub id_verified : (b : Bool) → dto.is_id_verified ≡ some b → u.is_id_verified ≡ b
    pub identity :
        (t : IdentityType)
        → dto.identity_type ≡ some t
        → (i : CitizenIdentity) × (identity_of s id ≡ some i) × (i.identity_type ≡ t)
    pub from : (f : ℕ) → dto.created_from ≡ some f → f ≤ u.created_at
    pub to : (t : ℕ) → dto.created_to ≡ some t → u.created_at ≤ t
    pub search :
        (text : String)
        → dto.search ≡ some text
        → text ≢ ""
        → found_by_search (trim text) u (identity_of s id) ≡ true
