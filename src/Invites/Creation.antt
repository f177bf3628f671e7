-- ===== src/Invites/Creation.antt =====
-- Creating an account: `createAdmin` of the auth service.
use gracon_admin_service.Prelude.{
  ◌+◌, false, true, String, some, none, Option, ◌≡◌, ◌≢◌, refl, ◌==◌, eq_iff, if◌then◌else◌, arith,
}
use gracon_admin_service.Prisma.{Prisma, Query, done, failed}
use gracon_admin_service.Http.{◌>>=◌, ok, throw, unauthorized}
use gracon_admin_service.Models.{Admin, admin, AdminInviteToken, Store}
use gracon_admin_service.Auth.{Runtime, Client, SafeAdminProfile, login, invalid_login}
use gracon_admin_service.Auth.Login.{Authenticates, login_uniform}
use gracon_admin_service.Invites.{
  CreateAdminDto, Inviter, create_admin, invited_admin, new_invite, announce_created,
  announce_created-OnlyNotifies,
}

module _ ⦃P : Prisma⦄ (R : Runtime) where
  -- What a successful creation shows and does.
  pub record Created (dto : CreateAdminDto) (by : Inviter) (s : Store) (p : SafeAdminProfile)
      (s' : Store) : Type 0 where
    pub id : String
    pub profile : p ≡ record {
      admin_id = id;
      first_name = dto.first_name;
      last_name = dto.last_name;
      email = dto.email;
      phone_number = dto.phone_number;
      role = admin;
      created_at = by.now;
    }
    pub untaken : (j : String) (a : Admin) → P.find_unique j s.admins ≡ some a → a.email ≢ dto.email
    pub fresh : P.find_unique id s.admins ≡ none
    pub accounts :
        (j : String)
        → P.find_unique j s'.admins ≡ (
            if id == j
            then some (record {
              first_name = dto.first_name;
              last_name = dto.last_name;
              email = dto.email;
              phone_number = dto.phone_number;
              password_hash = none;
              role = admin;
              is_verified = false;
              is_active = true;
              created_at = by.now;
              created_by_id = some by.admin_id;
            })
            else P.find_unique j s.admins)
    pub token_id : String
    pub invites :
        (j : String)
        → P.find_unique j s'.admin_invite_tokens ≡ (
            if token_id == j
            then some (record {
              admin_id = id;
              token_hash = R.sha256 by.random_token;
              expires_at = by.now + 172800000;
              used = false;
            })
            else P.find_unique j s.admin_invite_tokens)
    pub rest : s' ≡ record s {
      admins = s'.admins;
      admin_invite_tokens = s'.admin_invite_tokens;
      audit_logs = s'.audit_logs;
      mails = s'.mails;
    }

  Created-by :
      (dto : CreateAdminDto) (by : Inviter) (s s' : Store) (p : SafeAdminProfile) (id : String)
      (t : P.Table Admin) (q : Query (String × P.Table AdminInviteToken))
      → P.find_first (λ _ a. a.email == dto.email) s.admins ≡ none
      → P.create (invited_admin dto by) s.admins ≡ done (id, t)
      → P.create (new_invite R id by) s.admin_invite_tokens ≡ q
      → create_admin R dto by s ≡ (ok p, s')
      → Created dto by s p s'
  unfolding create_admin ◌>>=◌
  Created-by dto by s s' p id t (failed e) free made sent h = absurd (ground arith)
  Created-by dto by s s' p id t (done (k, u)) free made sent h = record {
    id = id;
    profile =
        ground (
          arith,
          announce_created-OnlyNotifies R (P.find_unique by.admin_id s.admins) dto by id mid,
        );
    untaken = λ j a e same. ground (
      arith,
      P.find_first_none (λ _ a. a.email == dto.email) s.admins j a free e,
      eq_iff a.email dto.email,
    );
    fresh = P.create_fresh (invited_admin dto by) s.admins t id made;
    accounts = λ j. rw done_by (P.find_unique-create (invited_admin dto by) s.admins t id j made);
    token_id = k;
    invites = λ j.
        rw done_by (P.find_unique-create (new_invite R id by) s.admin_invite_tokens u k j sent);
    rest = rw done_by;
  }
    where
      mid : Store
      mid = record s { admins = t; admin_invite_tokens = u }

      after : Store
      after = (announce_created R (P.find_unique by.admin_id s.admins) dto by id mid).1

      done_by : s' ≡ record mid { audit_logs = after.audit_logs; mails = after.mails }
      done_by = ground (
        arith,
        announce_created-OnlyNotifies R (P.find_unique by.admin_id s.admins) dto by id mid,
      )

  Created-from :
      (dto : CreateAdminDto) (by : Inviter) (s s' : Store) (p : SafeAdminProfile)
      (found : Option (String × Admin)) (q : Query (String × P.Table Admin))
      → P.find_first (λ _ a. a.email == dto.email) s.admins ≡ found
      → P.create (invited_admin dto by) s.admins ≡ q
      → create_admin R dto by s ≡ (ok p, s')
      → Created dto by s p s'
  unfolding create_admin ◌>>=◌
  Created-from dto by s s' p (some x) q free made h = absurd (ground arith)
  Created-from dto by s s' p none (failed e) free made h = absurd (ground arith)
  Created-from dto by s s' p none (done (id, t)) free made h =
      Created-by dto by s s' p id t _ free made refl h

  -- An account is created only under an email that no stored account has: unverified, without a
  -- password and with the role ADMIN, with one invitation; but for the trail and the mails
  -- nothing else changes.
  pub create_admin-Created :
      (dto : CreateAdminDto) (by : Inviter) (s s' : Store) (p : SafeAdminProfile)
      → create_admin R dto by s ≡ (ok p, s')
      → Created dto by s p s'
  create_admin-Created dto by s s' p h = Created-from dto by s s' p _ _ refl refl h

  invited_not_fitting :
      (dto : CreateAdminDto) (by : Inviter) (s s' : Store) (p : SafeAdminProfile)
      (password id : String) (a : Admin)
      → Created dto by s p s'
      → ¬ Authenticates R dto.email password s' id a
  invited_not_fitting dto by s s' p password id a c fits =
      let row = c.accounts id in
      let stored = fits.stored in
      let named = fits.named in
      let set = fits.set in ground (arith, row, stored, named, set, c.untaken id a)

  -- Until the invitation is accepted, no password opens the new account.
  pub create_admin_locked :
      (dto : CreateAdminDto) (by : Inviter) (c : Client) (password : String) (s s' : Store)
      (p : SafeAdminProfile)
      → create_admin R dto by s ≡ (ok p, s')
      → login R dto.email password c s' ≡ (throw (unauthorized invalid_login), s')
  create_admin_locked dto by c password s s' p h = login_uniform R dto.email password c s' (λ id a.
      invited_not_fitting dto by s s' p password id a (create_admin-Created dto by s s' p h))
