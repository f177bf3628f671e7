-- ===== src/Auth/Issuing.antt =====
-- What issuing tokens leaves in the state (`issueTokens` of the auth service).
use gracon_admin_service.Prelude.{
  false, ◌+◌, option_map, String, none, some, ◌≡◌, refl, ◌==◌, if◌then◌else◌, arith,
}
use gracon_admin_service.Prisma.{Prisma, Query, done, failed}
use gracon_admin_service.Http.{◌>>=◌, ok}
use gracon_admin_service.Models.{Admin, AdminRefreshToken, Store}
use gracon_admin_service.Auth.{
  Runtime, Client, AdminAuthTokens, substring, new_refresh_token, issue_tokens,
}

module _ ⦃P : Prisma⦄ (R : Runtime) where
  -- One fresh refresh token is stored, under the hash of the returned one, and nothing else.
  pub record Issued (id : String) (a : Admin) (c : Client) (s : Store) (tokens : AdminAuthTokens)
      (s' : Store) : Type 0 where
    pub access :
        tokens.access_token
        ≡ R.sign
            (record { sub = id; email = a.email; role = a.role; type = "admin" })
            R.access_token_expiry
            R.admin_jwt_secret
    pub refresh : tokens.refresh_token ≡ c.random_token
    pub token_id : String
    pub fresh : P.find_unique token_id s.admin_refresh_tokens ≡ none
    pub rows :
        (j : String)
        → P.find_unique j s'.admin_refresh_tokens ≡ (
            if token_id == j
            then some (record {
              admin_id = id;
              token_hash = R.sha256 c.random_token;
              expires_at = c.now + R.refresh_token_expiry_ms;
              revoked = false;
              ip_address = c.ip_address;
              user_agent = option_map (substring 512) c.user_agent;
            })
            else P.find_unique j s.admin_refresh_tokens)
    pub rest : s' ≡ record s { admin_refresh_tokens = s'.admin_refresh_tokens }

  issued_by :
      (id : String) (a : Admin) (c : Client) (s s' : Store) (tokens : AdminAuthTokens)
      (q : Query (String × P.Table AdminRefreshToken))
      → P.create (new_refresh_token R id c) s.admin_refresh_tokens ≡ q
      → issue_tokens R id a c s ≡ (ok tokens, s')
      → Issued id a c s tokens s'
  unfolding issue_tokens ◌>>=◌
  issued_by id a c s s' tokens (failed e) made h = ground arith
  issued_by id a c s s' tokens (done (k, t)) made h = record {
    access = ground arith;
    refresh = ground arith;
    token_id = k;
    fresh = P.create_fresh (new_refresh_token R id c) s.admin_refresh_tokens t k made;
    rows = λ j.
        ground
          (arith, P.find_unique-create (new_refresh_token R id c) s.admin_refresh_tokens t k j);
    rest = ground arith;
  }

  pub issue_tokens-Issued :
      (id : String) (a : Admin) (c : Client) (s s' : Store) (tokens : AdminAuthTokens)
      → issue_tokens R id a c s ≡ (ok tokens, s')
      → Issued id a c s tokens s'
  issue_tokens-Issued id a c s s' tokens h = issued_by id a c s s' tokens _ refl h
