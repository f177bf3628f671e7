-- ===== src/Invites/Activation.antt =====
-- Accepting an invitation: `setPassword` of the auth service.
use gracon_admin_service.Prelude.{
  ℕ, String, true, false, some, ◌≡◌, ◌∙◌, ap, ◌≤◌, inl, inr, refl, ◌==◌, eq_iff, eq_refl,
  if◌then◌else◌, option_map, arith,
}
use gracon_admin_service.Prisma.{Prisma, Query, done, failed, find_first_cases}
use gracon_admin_service.Http.{◌>>=◌, ok, throw, HttpException}
use gracon_admin_service.Models.{Admin, AdminInviteToken, Store}
use gracon_admin_service.Auth.{Runtime, Client}
use gracon_admin_service.Auth.Login.{Authenticates, Admitted, HasUniqueEmails, login_complete}
use gracon_admin_service.Invites.UsedUp.{IsUsedHash, Invitations, Invitations-IsUsedHash}
use gracon_admin_service.Invites.{SetPasswordDto, set_password, bcrypt_rounds, is_invite_of}

module _ ⦃P : Prisma⦄ where
  -- No two stored invitations have one token hash.
  abbrev pub HasUniqueInvites : Store → Type 0
  HasUniqueInvites s =
      (i j : String) (t u : AdminInviteToken)
      → P.find_unique i s.admin_invite_tokens ≡ some t
      → P.find_unique j s.admin_invite_tokens ≡ some u
      → t.token_hash ≡ u.token_hash
      → i ≡ j

module _ ⦃P : Prisma⦄ (R : Runtime) where
  abbrev pub with_password : SetPasswordDto → String → Admin → Admin
  with_password dto salt a = record a {
    password_hash = some (R.bcrypt_hash dto.password bcrypt_rounds salt);
    is_verified = true;
  }

  -- What a successful activation shows and does.
  pub record Activated (dto : SetPasswordDto) (now : ℕ) (salt : String) (s s' : Store)
      : Type 0 where
    pub token_id : String
    pub token : AdminInviteToken
    pub stored : P.find_unique token_id s.admin_invite_tokens ≡ some token
    pub own : token.admin_id ≡ dto.admin_id
    pub hashed : token.token_hash ≡ R.sha256 dto.token
    pub unused : token.used ≡ false
    pub unexpired : now ≤ token.expires_at
    pub accounts :
        (j : String)
        → P.find_unique j s'.admins ≡ (
            if dto.admin_id == j
            then option_map (with_password dto salt) (P.find_unique j s.admins)
            else P.find_unique j s.admins)
    pub invites :
        (j : String)
        → P.find_unique j s'.admin_invite_tokens ≡ (
            if token_id == j
            then some (record token { used = true })
            else P.find_unique j s.admin_invite_tokens)
    pub rest : s' ≡ record s { admins = s'.admins; admin_invite_tokens = s'.admin_invite_tokens }

  Activated-by :
      (dto : SetPasswordDto) (now : ℕ) (salt : String) (s s' : Store) (id : String)
      (t : AdminInviteToken) (q : Query (P.Table Admin)) (q' : Query (P.Table AdminInviteToken))
      → P.find_first (is_invite_of R dto.admin_id dto.token) s.admin_invite_tokens ≡ some (id, t)
      → P.find_unique id s.admin_invite_tokens ≡ some t
      → is_invite_of R dto.admin_id dto.token id t ≡ true
      → P.update dto.admin_id (with_password dto salt) s.admins ≡ q
      → P.update id (λ t. record t { used = true }) s.admin_invite_tokens ≡ q'
      → set_password R dto now salt s ≡ (ok tt, s')
      → Activated dto now salt s s'
  unfolding set_password ◌>>=◌
  Activated-by dto now salt s s' id t (failed e) q' found stored own made made' h =
      absurd (ground arith)
  Activated-by dto now salt s s' id t (done u) (failed e) found stored own made made' h =
      absurd (ground arith)
  Activated-by dto now salt s s' id t (done u) (done v) found stored own made made' h =
      let h' = rw found at h in
      record {
        token_id = id;
        token = t;
        stored = stored;
        own = ground (arith, eq_iff t.admin_id dto.admin_id);
        hashed = ground (arith, eq_iff t.token_hash (R.sha256 dto.token));
        unused = ground arith;
        unexpired = ground arith;
        accounts = λ j.
            ground
              (arith, P.find_unique-update dto.admin_id (with_password dto salt) s.admins u j made);
        invites = λ j. ground (
          arith,
          P.find_unique-update id (λ t. record t { used = true }) s.admin_invite_tokens v j made',
          eq_iff id j,
        );
        rest = ground arith;
      }

  -- A password is set only by the link of an unused, unexpired invitation of the same account; it
  -- becomes the account's password, the account is verified, the invitation is used up, and
  -- nothing else changes.
  pub set_password-Activated :
      (dto : SetPasswordDto) (now : ℕ) (salt : String) (s s' : Store)
      → set_password R dto now salt s ≡ (ok tt, s')
      → Activated dto now salt s s'
  unfolding set_password ◌>>=◌
  set_password-Activated dto now salt s s' h =
      elim (find_first_cases (is_invite_of R dto.admin_id dto.token) s.admin_invite_tokens) [
        | inl e ↦ absurd (ground arith)
        | inr (id, t, e, stored, own) ↦
            Activated-by dto now salt s s' id t _ _ e stored own refl refl h
      ]

  -- A refused activation changes nothing: a rejected link, or a failure of either write.
  pub set_password_atomic :
      (dto : SetPasswordDto) (now : ℕ) (salt : String) (s s' : Store) (e : HttpException)
      → set_password R dto now salt s ≡ (throw e, s')
      → s' ≡ s
  unfolding set_password ◌>>=◌
  set_password_atomic dto now salt s s' e h = ground arith

  Activated-IsUsedHash :
      (dto : SetPasswordDto) (now : ℕ) (salt : String) (s s' : Store)
      → HasUniqueInvites s
      → Activated dto now salt s s'
      → IsUsedHash (R.sha256 dto.token) s'
  Activated-IsUsedHash dto now salt s s' unique a j t stored hashed =
      let row = a.invites j in
      let ids = unique a.token_id j a.token t a.stored in
      let h = a.hashed in ground (arith, row, ids, stored, hashed, h, eq_iff a.token_id j)

  -- A link sets a password once: after it has been used, no later request with the same token
  -- succeeds, whatever accounts are created, invitations sent again or accepted, and changes of
  -- other tables made in between. The conditions: invitation hashes are unique before, and no token
  -- drawn on the way has the hash of that token.
  pub set_password_once :
      (dto more : SetPasswordDto) (now later : ℕ) (salt salt' : String) (s s' u u' : Store)
      → HasUniqueInvites s
      → more.token ≡ dto.token
      → set_password R dto now salt s ≡ (ok tt, s')
      → Invitations R (R.sha256 dto.token) s' u
      → ¬ (set_password R more later salt' u ≡ (ok tt, u'))
  set_password_once dto more now later salt salt' s s' u u' unique same h way k =
      let used = Invitations-IsUsedHash R (R.sha256 dto.token) way (
        Activated-IsUsedHash dto now salt s s' unique
          (set_password-Activated dto now salt s s' h)) in
      let b = set_password-Activated more later salt' u u' k in
      let gone = used b.token_id b.token b.stored (b.hashed ∙ ap R.sha256 same) in
      let live = b.unused in cc

  -- The password that a link sets opens the account, from that moment on.
  Activated-Authenticates :
      (dto : SetPasswordDto) (now : ℕ) (salt : String) (s s' : Store) (a : Admin)
      → P.find_unique dto.admin_id s.admins ≡ some a
      → Activated dto now salt s s'
      → Authenticates R a.email dto.password s' dto.admin_id (with_password dto salt a)
  Activated-Authenticates dto now salt s s' a was act =
      let row = act.accounts dto.admin_id in
      record {
        stored = ground (arith, row, eq_refl dto.admin_id);
        named = refl;
        hash = R.bcrypt_hash dto.password bcrypt_rounds salt;
        set = refl;
        nonempty = λ h. ground (
          arith,
          R.hash-IsTruthy dto.password bcrypt_rounds salt,
          eq_iff (R.bcrypt_hash dto.password bcrypt_rounds salt) "",
        );
        matches = R.compare-bcrypt_hash dto.password bcrypt_rounds salt;
      }

  -- After an account that is not deactivated has set its password by the link, a login with its
  -- email and that password is admitted, or stopped by the database alone.
  pub set_password_then_login :
      (dto : SetPasswordDto) (now : ℕ) (salt : String) (c : Client) (s s' : Store) (a : Admin)
      → P.find_unique dto.admin_id s.admins ≡ some a
      → a.is_active ≡ true
      → HasUniqueEmails s'
      → set_password R dto now salt s ≡ (ok tt, s')
      → Admitted R a.email dto.password c s'
  set_password_then_login dto now salt c s s' a was active unique h =
      login_complete R a.email dto.password c s' dto.admin_id (with_password dto salt a) unique
        (Activated-Authenticates dto now salt s s' a was
          (set_password-Activated dto now salt s s' h))
        refl active
