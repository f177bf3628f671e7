-- ===== src/Invites/Resending.antt =====
-- Sending an invitation again: `resendInvite` of the auth service.
use gracon_admin_service.Prelude.{
  ◌+◌, ℕ, String, true, false, not, ◌&&◌, Option, none, some, ◌⊎◌, ◌∙◌, eq_refl, ◌≡◌, ◌≢◌, inl, inr,
  refl, ◌==◌, eq_iff, if◌then◌else◌, option_map, arith, Bool,
}
use gracon_admin_service.Prisma.{Prisma, Query, done, failed}
use gracon_admin_service.Http.{◌>>=◌, ok}
use gracon_admin_service.Models.{Admin, AdminInviteToken, Store}
use gracon_admin_service.Auth.{Runtime}
use gracon_admin_service.Invites.{
  Inviter, announce_resent, announce_resent-OnlyNotifies, resend_invite, new_invite, SetPasswordDto,
  set_password,
}
use gracon_admin_service.Invites.Activation.{set_password-Activated}

abbrev unused_of : String → String → AdminInviteToken → Bool
unused_of id _ t = (t.admin_id == id) && not t.used

abbrev use_up : AdminInviteToken → AdminInviteToken
use_up t = record t { used = true }

module _ ⦃P : Prisma⦄ (R : Runtime) where
  -- What a successful resend leaves: the new invitation under a fresh id, every other invitation
  -- of the account used up, those of other accounts as they were, and no account changed.
  pub record Resent (id : String) (by : Inviter) (s s' : Store) : Type 0 where
    pub token_id : String
    pub fresh : P.find_unique token_id s.admin_invite_tokens ≡ none
    pub new :
        P.find_unique token_id s'.admin_invite_tokens
        ≡ some (record {
          admin_id = id;
          token_hash = R.sha256 by.random_token;
          expires_at = by.now + 172800000;
          used = false;
        })
    pub old :
        (j : String) (t : AdminInviteToken)
        → P.find_unique j s'.admin_invite_tokens ≡ some t
        → t.admin_id ≡ id
        → (j ≡ token_id) ⊎ (t.used ≡ true)
    pub others :
        (j : String) (t : AdminInviteToken)
        → P.find_unique j s.admin_invite_tokens ≡ some t
        → t.admin_id ≢ id
        → P.find_unique j s'.admin_invite_tokens ≡ some t
    pub accounts : s'.admins ≡ s.admins

  -- The two writes of the transaction, in order.
  record Replaced (id : String) (by : Inviter) (s s' : Store) : Type 0 where
    account : Admin
    invited : P.find_unique id s.admins ≡ some account
    unverified : account.is_verified ≡ false
    between : P.Table AdminInviteToken
    token_id : String
    used_up : P.update_many (unused_of id) use_up s.admin_invite_tokens ≡ done between
    created : P.create (new_invite R id by) between ≡ done (token_id, s'.admin_invite_tokens)
    accounts : s'.admins ≡ s.admins

  resent_by :
      (id : String) (by : Inviter) (s s' : Store) (a : Admin) (b : P.Table AdminInviteToken)
      (q : Query (String × P.Table AdminInviteToken))
      → P.find_unique id s.admins ≡ some a
      → a.is_verified ≡ false
      → P.update_many (unused_of id) use_up s.admin_invite_tokens ≡ done b
      → P.create (new_invite R id by) b ≡ q
      → resend_invite R id by s ≡ (ok tt, s')
      → Replaced id by s s'
  unfolding resend_invite ◌>>=◌
  resent_by id by s s' a b (failed e) invited unverified used made h = absurd (ground arith)
  resent_by id by s s' a b (done (k, t)) invited unverified used made h = record {
    account = a;
    invited = invited;
    unverified = unverified;
    between = b;
    token_id = k;
    used_up = used;
    created = rw done_by made;
    accounts = rw done_by;
  }
    where
      mid : Store
      mid = record s { admin_invite_tokens = t }

      done_by : s' ≡ record mid {
        audit_logs = (announce_resent R id a by mid).1.audit_logs;
        mails = (announce_resent R id a by mid).1.mails;
      }
      done_by = ground (arith, announce_resent-OnlyNotifies R id a by mid)

  Replaced-by :
      (id : String) (by : Inviter) (s s' : Store) (found : Option Admin)
      (q : Query (P.Table AdminInviteToken))
      → P.find_unique id s.admins ≡ found
      → P.update_many (unused_of id) use_up s.admin_invite_tokens ≡ q
      → resend_invite R id by s ≡ (ok tt, s')
      → Replaced id by s s'
  unfolding resend_invite ◌>>=◌
  Replaced-by id by s s' none q e made h = absurd (ground arith)
  Replaced-by id by s s' (some a) (failed x) e made h = absurd (ground arith)
  Replaced-by id by s s' (some a) (done b) e made h =
      resent_by id by s s' a b _ e (ground arith) made refl h

  Replaced-Resent :
      (id : String) (by : Inviter) (s s' : Store) → Replaced id by s s' → Resent id by s s'
  Replaced-Resent id by s s' r = record {
    token_id = r.token_id;
    fresh =
        (let f =
            P.create_fresh (new_invite R id by) r.between s'.admin_invite_tokens r.token_id
              r.created in
          ground (
            arith,
            f,
            P.find_unique-update_many (unused_of id) use_up s.admin_invite_tokens r.between
                r.token_id r.used_up,
          ));
    new = ground (arith, after r.token_id, eq_refl r.token_id);
    old = λ j t e o.
        ground (arith, after j, before j, e, o, eq_iff r.token_id j, eq_iff t.admin_id id);
    others = λ j t e o. ground (
      arith,
      after j,
      before j,
      e,
      o,
      eq_iff r.token_id j,
      eq_iff t.admin_id id,
      P.create_fresh (new_invite R id by) r.between s'.admin_invite_tokens r.token_id r.created,
    );
    accounts = r.accounts;
  }
    where
      after :
          (j : String)
          → P.find_unique j s'.admin_invite_tokens
            ≡ (if r.token_id == j then some (new_invite R id by) else P.find_unique j r.between)
      after j =
          P.find_unique-create (new_invite R id by) r.between s'.admin_invite_tokens r.token_id j
            r.created

      before :
          (j : String)
          → P.find_unique j r.between
            ≡ option_map
                (λ t. if unused_of id j t then use_up t else t)
                (P.find_unique j s.admin_invite_tokens)
      before j =
          P.find_unique-update_many (unused_of id) use_up s.admin_invite_tokens r.between j
            r.used_up

  -- An invitation is sent again only to an account that is stored and not verified; afterwards the
  -- new invitation is the only one of the account that is not used up.
  pub resend_invite-Resent :
      (id : String) (by : Inviter) (s s' : Store)
      → resend_invite R id by s ≡ (ok tt, s')
      → ((a : Admin) × (P.find_unique id s.admins ≡ some a) × (a.is_verified ≡ false))
        × Resent id by s s'
  resend_invite-Resent id by s s' h =
      let r = Replaced-by id by s s' _ _ refl refl h in
      ((r.account, r.invited, r.unverified), Replaced-Resent id by s s' r)

  -- After a resend an older link of the account sets no password, whatever its token was, if the
  -- hash of the new token is another one.
  pub resend_invite_revokes :
      (id : String) (by : Inviter) (dto : SetPasswordDto) (now : ℕ) (salt : String)
      (s s' s'' : Store)
      → dto.admin_id ≡ id
      → R.sha256 dto.token ≢ R.sha256 by.random_token
      → resend_invite R id by s ≡ (ok tt, s')
      → ¬ (set_password R dto now salt s' ≡ (ok tt, s''))
  resend_invite_revokes id by dto now salt s s' s'' own differs h k =
      let r = (resend_invite-Resent id by s s' h).1 in
      let a = set_password-Activated R dto now salt s' s'' k in
      let stored = a.stored in
      let live = a.unused in
      let hashed = a.hashed in
      let new = r.new in
      elim (r.old a.token_id a.token a.stored (a.own ∙ own)) [
        | inl same ↦ differs (ground arith)
        | inr used ↦ cc
      ]
