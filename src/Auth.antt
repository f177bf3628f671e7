-- ===== src/Auth.antt =====
-- src/modules/auth/admin-auth.service.ts: login, refresh and logout. Every read of the clock and
-- every random string is an argument. A column that the schema marks unique is looked up by
-- `find_first`. The server's log lines are not modelled.
pub mod Issuing
pub mod Login
pub mod Spent
pub mod Rotation
pub mod Reuse
use Prim.Native.String
use gracon_admin_service.Prelude.{
  ℕ, zero, suc, ◌+◌, String, Bool, true, false, not, ◌&&◌, Option, none, some, ◌≡◌, ◌==◌,
  if◌then◌else◌, or_else, option_map, ltb,
}
use gracon_admin_service.Prisma.{Prisma, query_failed}
use gracon_admin_service.Http.{
  Handler, unauthorized, forbidden, database, pure, raise, gets, require, reject_if, write, ◌>>=◌,
  ◌>>◌,
}
use gracon_admin_service.Models.{Admin, AdminRole, AdminRefreshToken, Store}

pub record JwtPayload : Type 0 where
  pub sub : String
  pub email : String
  pub role : AdminRole
  pub type : String

-- What the service calls outside src/: bcrypt, SHA-256, the JWT signer, and its configuration.
pub record Runtime : Type 0 where
  pub sha256 : String → String
  pub bcrypt_compare : String → String → Bool
  -- The password, the rounds and the random salt.
  pub bcrypt_hash : String → ℕ → String → String
  pub compare-bcrypt_hash :
      (password : String) (rounds : ℕ) (salt : String)
      → bcrypt_compare password (bcrypt_hash password rounds salt) ≡ true
  pub hash-IsTruthy :
      (password : String) (rounds : ℕ) (salt : String)
      → (bcrypt_hash password rounds salt == "") ≡ false
  -- The payload, `expiresIn` and the secret.
  pub sign : JwtPayload → String → String → String
  pub encode_uri_component : String → String
  pub admin_jwt_secret : String
  pub access_token_expiry : String
  pub refresh_token_expiry_ms : ℕ
  pub frontend_url : String

-- `Boolean(text)`.
abbrev pub truthy : Option String → Bool
truthy none = false
truthy (some s) = not (s == "")

-- `text.substring(0, n)`, over characters.
unfoldable pub substring : ℕ → String → String
substring zero s = ""
substring (suc n) String.[] = ""
substring (suc n) (String.◌∷◌ c s) = String.◌∷◌ c (substring n s)

pub record SafeAdminProfile : Type 0 where
  pub admin_id : String
  pub first_name : String
  pub last_name : String
  pub email : String
  pub phone_number : Option String
  pub role : AdminRole
  pub created_at : ℕ

abbrev pub build_safe_profile : String → Admin → SafeAdminProfile
build_safe_profile id a = record {
  admin_id = id;
  first_name = a.first_name;
  last_name = a.last_name;
  email = a.email;
  phone_number = a.phone_number;
  role = a.role;
  created_at = a.created_at;
}

pub record AdminAuthTokens : Type 0 where
  pub access_token : String
  pub refresh_token : String

pub record AdminLoginResult : Type 0 where
  pub tokens : AdminAuthTokens
  pub admin : SafeAdminProfile

-- Who calls, when the tokens are issued, and the random bytes of the new refresh token.
pub record Client : Type 0 where
  pub ip_address : String
  pub user_agent : Option String
  pub now : ℕ
  pub random_token : String

abbrev pub dummy_hash : String
dummy_hash = "$2b$12$invalidhashfortimingprotectiononly000000000000000000000"

abbrev pub invalid_login : String
invalid_login = "Invalid email or password."

abbrev pub unverified_login : String
unverified_login =
    "Your admin account has not been activated. Please check your email for the invitation link."

abbrev pub inactive_login : String
inactive_login = "Your admin account has been deactivated. Contact a SUPER_ADMIN for assistance."

abbrev pub revoked_token : String
revoked_token = "Refresh token has been revoked. Please log in again."

abbrev password_hash_of : Option (String × Admin) → Option String
password_hash_of none = none
password_hash_of (some (id, a)) = a.password_hash

-- Gate 1 of `login`: the account, if it exists, has a password and the password matches.
abbrev pub credentials : Option (String × Admin) → Bool → Option (String × Admin)
credentials none valid = none
credentials (some (id, a)) valid = if valid && truthy a.password_hash then some (id, a) else none

abbrev pub admin_payload : String → Admin → JwtPayload
admin_payload id a = record { sub = id; email = a.email; role = a.role; type = "admin" }

module _ (R : Runtime) where
  abbrev pub new_refresh_token : String → Client → AdminRefreshToken
  new_refresh_token id c = record {
    admin_id = id;
    token_hash = R.sha256 c.random_token;
    expires_at = c.now + R.refresh_token_expiry_ms;
    revoked = false;
    ip_address = c.ip_address;
    user_agent = option_map (substring 512) c.user_agent;
  }

module _ ⦃P : Prisma⦄ (R : Runtime) where
  unfoldable pub issue_tokens : String → Admin → Client → Handler Store AdminAuthTokens
  issue_tokens id a c = do
    write (λ s. P.create (new_refresh_token R id c) s.admin_refresh_tokens)
        (λ s t. record s { admin_refresh_tokens = t.1 })
    pure (record {
      access_token = R.sign (admin_payload id a) R.access_token_expiry R.admin_jwt_secret;
      refresh_token = c.random_token;
    })

  unfoldable pub password_valid : Option (String × Admin) → String → Bool
  password_valid found password =
      R.bcrypt_compare password (or_else (password_hash_of found) dummy_hash)

  unfoldable pub login : String → String → Client → Handler Store AdminLoginResult
  unfolding issue_tokens password_valid
  login email password c = do
    found ← gets (λ s. P.find_first (λ _ a. a.email == email) s.admins)
    (id, a) ←
        require (credentials found (password_valid found password)) (unauthorized invalid_login)
    reject_if (not a.is_verified) (forbidden unverified_login)
    reject_if (not a.is_active) (forbidden inactive_login)
    tokens ← issue_tokens id a c
    pure (record { tokens = tokens; admin = build_safe_profile id a })

  unfoldable pub revoke_all_admin_tokens : String → Handler Store (Unit {0})
  revoke_all_admin_tokens admin_id =
      write
        (λ s.
          P.update_many (λ _ t. (t.admin_id == admin_id) && not t.revoked)
            (λ t. record t { revoked = true }) s.admin_refresh_tokens)
        (λ s t. record s { admin_refresh_tokens = t })

  -- The branch of `refreshTokens` for a token that was revoked before.
  abbrev refuse_reuse : AdminRefreshToken → Handler Store (Unit {0})
  refuse_reuse t =
      if t.revoked
      then (do revoke_all_admin_tokens t.admin_id; raise (unauthorized revoked_token))
      else pure tt

  -- `checked` is the clock at the expiry check, `c.now` when the new token is stored.
  unfoldable pub refresh_tokens : String → ℕ → Client → Handler Store AdminAuthTokens
  unfolding issue_tokens revoke_all_admin_tokens
  refresh_tokens raw checked c = do
    found ← gets (λ s. P.find_first (λ _ t. t.token_hash == R.sha256 raw) s.admin_refresh_tokens)
    (id, t) ← require found (unauthorized "Invalid refresh token.")
    owner ← gets (λ s. P.find_unique t.admin_id s.admins)
    a ← require owner (database query_failed)
    refuse_reuse t
    reject_if (ltb t.expires_at checked)
        (unauthorized "Refresh token has expired. Please log in again.")
    reject_if (not a.is_active) (unauthorized "Admin account is not active.")
    write (λ s. P.update id (λ t. record t { revoked = true }) s.admin_refresh_tokens)
        (λ s t. record s { admin_refresh_tokens = t })
    issue_tokens t.admin_id a c

  unfoldable pub logout : String → Handler Store (Unit {0})
  logout raw =
      write
        (λ s.
          P.update_many (λ _ t. (t.token_hash == R.sha256 raw) && not t.revoked)
            (λ t. record t { revoked = true }) s.admin_refresh_tokens)
        (λ s t. record s { admin_refresh_tokens = t })
