-- ===== src/Api/Context.antt =====
-- What every method of a controller has at hand.
use gracon_admin_service.Prelude.{ℕ, String, Bool, not, Option, some, or_else}
use gracon_admin_service.Prisma.{Prisma}
use gracon_admin_service.Prisma.Search.{Search}
use gracon_admin_service.Http.{Handler, bad_request, internal, require, reject_if}
use gracon_admin_service.Models.{Store}
use gracon_admin_service.Access.{CurrentAdmin}
use gracon_admin_service.Auth.{Runtime, Client}
use gracon_admin_service.Invites.{Inviter}
use gracon_admin_service.Crypto.{Cipher}
use gracon_admin_service.Users.{Actor}
use gracon_admin_service.Certificates.{Reviewer}
use gracon_admin_service.Certificates.Review.{Fetch}
use gracon_admin_service.Api.{Request, extract_ip}

abbrev pub client_of : Request → Client
client_of req = record {
  ip_address = extract_ip req;
  user_agent = some (or_else req.user_agent "unknown");
  now = req.now;
  random_token = req.random_token;
}

abbrev pub inviter_of : Request → CurrentAdmin → Inviter
inviter_of req who = record {
  admin_id = who.admin_id;
  ip_address = extract_ip req;
  now = req.now;
  random_token = req.random_token;
}

abbrev pub actor_of : Request → CurrentAdmin → Actor
actor_of req who = record { admin_id = who.admin_id; ip_address = extract_ip req }

abbrev pub reviewer_of : Request → CurrentAdmin → Reviewer
reviewer_of req who = record { admin_id = who.admin_id; ip_address = req.ip; now = req.now }

-- What the API calls outside src/. `is_uuid` is the test of Nest's ParseUUIDPipe; `created_at` is
-- the instant at which the database created a row.
pub record Outside ⦃P : Prisma⦄ : Type 1 where
  pub runtime : Runtime
  pub cipher : Cipher
  pub fetch : Fetch
  pub is_uuid : String → Bool
  pub search : Search
  pub created_at : String → ℕ

module _ ⦃P : Prisma⦄ (O : Outside) where
  -- The pipe on a path parameter.
  abbrev pub parse_uuid : String → Handler Store (Unit {0})
  parse_uuid id =
      reject_if (not (O.is_uuid id)) (bad_request "Validation failed (uuid is expected)")

  -- `@CurrentAdmin()`: on a route that skips the guard there is none, and reading its id throws.
  abbrev pub current_admin : Option CurrentAdmin → Handler Store CurrentAdmin
  current_admin who = require who (internal "Internal server error")
