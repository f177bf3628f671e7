-- ===== src/Certificates/Banning/Writes.antt =====
-- The writes of a ban's transaction, and what they leave behind.
use gracon_admin_service.Prelude.{
  ℕ, String, Bool, true, false, Option, none, some, [], ◌∷◌, template, ◌≢◌, ◌⊎◌, inl, inr, ◌≡◌,
  refl, ◌==◌, eq_iff, eq_refl, if◌then◌else◌, arith,
}
use gracon_admin_service.Prisma.{Prisma, Query, done, failed}
use gracon_admin_service.Http.{Handler, ok, ◌>>=◌, ◌>>◌}
use gracon_admin_service.Models.{
  PersonalCertificate, AccessPolicy, banned, CertificateRequest, RequestStatus, pending, approved,
  rejected, cancelled, Store,
}
use gracon_admin_service.Certificates.{revoke_row}
use gracon_admin_service.Certificates.Bans.{
  is_pending, ban_text, banned_policy, ban_policy, policy_of, pending_of, cancel_row,
  revoke_certificate_if_needed, upsert_banned_policy, cancel_pending_requests,
}

module _ ⦃P : Prisma⦄ where
  -- A policy that bans the user, with this reason, administrator and time.
  pub record BanOf (user_id admin_id reason : String) (at : ℕ) (policy : AccessPolicy)
      : Type 0 where
    pub own : policy.user_id ≡ user_id
    pub status : policy.status ≡ banned
    pub ban_reason : policy.ban_reason ≡ some reason
    pub banned_by : policy.banned_by_admin_id ≡ some admin_id
    pub banned_at : policy.banned_at ≡ some at
    pub unlifted : policy.unbanned_at ≡ none

  -- Each pending request of the user is cancelled, with the ban's text and time; every other request
  -- is as it was, and there is no new one.
  pub record CancelledRequests (user_id reason : String) (at : ℕ)
      (before after : P.Table CertificateRequest) : Type 0 where
    pub hit :
        (j : String) (r : CertificateRequest)
        → P.find_unique j before ≡ some r
        → r.user_id ≡ user_id
        → r.status ≡ pending
        → P.find_unique j after
          ≡ some (record r {
            status = cancelled;
            cancelled_at = some at;
            cancellation_reason =
                some (template ("Certificate access banned by admin: " ∷ reason ∷ []));
          })
    pub spared :
        (j : String) (r : CertificateRequest)
        → P.find_unique j before ≡ some r
        → (r.user_id ≢ user_id) ⊎ (r.status ≢ pending)
        → P.find_unique j after ≡ some r
    pub no_more : (j : String) → P.find_unique j before ≡ none → P.find_unique j after ≡ none

  pending_true : (status : RequestStatus) → status ≡ pending → is_pending status ≡ true
  pending_true status e = rw e refl

  true_pending : (status : RequestStatus) → is_pending status ≡ true → status ≡ pending
  true_pending pending h = refl
  true_pending approved h = cc
  true_pending rejected h = cc
  true_pending cancelled h = cc

  spared_row :
      (user_id j : String) (r : CertificateRequest)
      → (r.user_id ≢ user_id) ⊎ (r.status ≢ pending)
      → pending_of user_id j r ≡ false
  spared_row user_id j r (inl apart) = ground (arith, apart, eq_iff r.user_id user_id)
  spared_row user_id j r (inr settled) = ground (arith, settled, true_pending r.status)

  pub update_many-CancelledRequests :
      (user_id reason : String) (at : ℕ) (t u : P.Table CertificateRequest)
      → P.update_many (pending_of user_id) (cancel_row reason at) t ≡ done u
      → CancelledRequests user_id reason at t u
  update_many-CancelledRequests user_id reason at t u made = record {
    hit = λ j r stored own is.
        rw
          (
            P.find_unique-update_many (pending_of user_id) (cancel_row reason at) t u j made,
            stored,
            (eq_iff r.user_id user_id).1 own,
            pending_true r.status is,
          )
          refl;
    spared = λ j r stored other.
        rw
          (
            P.find_unique-update_many (pending_of user_id) (cancel_row reason at) t u j made,
            stored,
            spared_row user_id j r other,
          )
          refl;
    no_more = λ j missing.
        rw
          (
            P.find_unique-update_many (pending_of user_id) (cancel_row reason at) t u j made,
            missing,
          )
          refl;
  }

  -- What a ban leaves behind: a policy that bans the user, no certificate `id` that is not revoked,
  -- and no pending request of the user.
  pub record Banned (id user_id admin_id reason : String) (at : ℕ) (old : PersonalCertificate)
      (s s' : Store) : Type 0 where
    pub policy_id : String
    pub policy : AccessPolicy
    pub ban : P.find_unique policy_id s'.access_policies ≡ some policy
    pub terms : BanOf user_id admin_id reason at policy
    pub others :
        (j : String)
        → (policy_id == j) ≡ false
        → P.find_unique j s'.access_policies ≡ P.find_unique j s.access_policies
    pub certificates :
        (j : String)
        → P.find_unique j s'.certificates ≡ (
            if id == j
            then some (
                if old.is_revoked then old else record old {
                  is_revoked = true;
                  revoked_at = some at;
                  revoked_reason =
                      some (template ("Certificate access banned by admin: " ∷ reason ∷ []));
                })
            else P.find_unique j s.certificates)
    pub requests :
        CancelledRequests user_id reason at s.certificate_requests s'.certificate_requests

  pub policy_by :
      (user_id admin_id reason : String) (at : ℕ) (t t' : P.Table AccessPolicy)
      (found : Option (String × AccessPolicy))
      → P.find_first (policy_of user_id) t ≡ found
      → P.upsert
          (policy_of user_id)
          (banned_policy user_id admin_id reason at)
          (ban_policy admin_id reason at)
          t
        ≡ done t'
      → (k : String) × (p : AccessPolicy) × (P.find_unique k t' ≡ some p)
        × BanOf user_id admin_id reason at p
        × ((j : String) → (k == j) ≡ false → P.find_unique j t' ≡ P.find_unique j t)
  policy_by user_id admin_id reason at t t' none found made =
      let (k, created) = P.upsert_missing _ _ _ t t' found made in
      let law = P.find_unique-create (banned_policy user_id admin_id reason at) t t' k in
      (
        k,
        banned_policy user_id admin_id reason at,
        ground (arith, law k created, eq_refl k),
        record {
          own = refl;
          status = refl;
          ban_reason = refl;
          banned_by = refl;
          banned_at = refl;
          unlifted = refl;
        },
        λ j other. ground (arith, law j created, other),
      )
  policy_by user_id admin_id reason at t t' (some (k, old)) found made =
      let updated =
        P.upsert_found _ (banned_policy user_id admin_id reason at) (ban_policy admin_id reason at)
          t k old found in
      let (stored, own) = P.find_first_sound (policy_of user_id) t k old found in
      let law = P.find_unique-update k (ban_policy admin_id reason at) t t' in
      let write : P.update k (ban_policy admin_id reason at) t ≡ done t' = cc in
      (
        k,
        ban_policy admin_id reason at old,
        ground (arith, law k write, eq_refl k, stored),
        record {
          own = (eq_iff old.user_id user_id).0 own;
          status = refl;
          ban_reason = refl;
          banned_by = refl;
          banned_at = refl;
          unlifted = refl;
        },
        λ j other. ground (arith, law j write, other),
      )

  abbrev pub ban_steps :
      String → PersonalCertificate → String → String → ℕ → Handler Store (Unit {0})
  ban_steps id c admin_id reason at = do
    revoke_certificate_if_needed id c reason at
    upsert_banned_policy c.user_id admin_id reason at
    cancel_pending_requests c.user_id reason at

  -- The three writes of the transaction.
  pub record Steps (id : String) (c : PersonalCertificate) (admin_id reason : String) (at : ℕ)
      (s s' : Store) : Type 0 where
    pub live :
        c.is_revoked ≡ false
        → P.update id (revoke_row at (ban_text reason)) s.certificates ≡ done s'.certificates
    pub dead : c.is_revoked ≡ true → s'.certificates ≡ s.certificates
    pub policies :
        P.upsert
          (policy_of c.user_id)
          (banned_policy c.user_id admin_id reason at)
          (ban_policy admin_id reason at)
          s.access_policies
        ≡ done s'.access_policies
    pub requests :
        P.update_many (pending_of c.user_id) (cancel_row reason at) s.certificate_requests
        ≡ done s'.certificate_requests
    pub rest : s' ≡ record s {
      certificates = s'.certificates;
      access_policies = s'.access_policies;
      certificate_requests = s'.certificate_requests;
    }

  pub Steps-by :
      (id : String) (c : PersonalCertificate) (admin_id reason : String) (at : ℕ) (s s' : Store)
      (r : Bool) (q : Query (P.Table PersonalCertificate)) (p : Query (P.Table AccessPolicy))
      (n : Query (P.Table CertificateRequest))
      → c.is_revoked ≡ r
      → P.update id (revoke_row at (ban_text reason)) s.certificates ≡ q
      → P.upsert
          (policy_of c.user_id)
          (banned_policy c.user_id admin_id reason at)
          (ban_policy admin_id reason at)
          s.access_policies
        ≡ p
      → P.update_many (pending_of c.user_id) (cancel_row reason at) s.certificate_requests ≡ n
      → ban_steps id c admin_id reason at s ≡ (ok tt, s')
      → Steps id c admin_id reason at s s'
  unfolding ◌>>=◌
  Steps-by id c admin_id reason at s s' true q (failed e) n is made policies requests h =
      absurd (ground arith)
  Steps-by id c admin_id reason at s s' true q (done p) (failed e) is made policies requests h =
      absurd (ground arith)
  Steps-by id c admin_id reason at s s' true q (done p) (done n) is made policies requests h =
      let end : s' ≡ record s { access_policies = p; certificate_requests = n } = ground arith in
      record {
        live = λ e. cc;
        dead = λ e. rw end refl;
        policies = rw end policies;
        requests = rw end requests;
        rest = rw end refl;
      }
  Steps-by id c admin_id reason at s s' false (failed e) p n is made policies requests h =
      absurd (ground arith)
  Steps-by id c admin_id reason at s s' false (done q) (failed e) n is made policies requests h =
      absurd (ground arith)
  Steps-by id c admin_id reason at s s' false (done q) (done p) (failed e) is made policies requests
        h =
      absurd (ground arith)
  Steps-by id c admin_id reason at s s' false (done q) (done p) (done n) is made policies requests
        h =
      let end : s' ≡ record s { certificates = q; access_policies = p; certificate_requests = n } =
        ground arith in
      record {
        live = λ e. rw end made;
        dead = λ e. cc;
        policies = rw end policies;
        requests = rw end requests;
        rest = rw end refl;
      }

  pub Banned-of_Steps :
      (id : String) (c : PersonalCertificate) (admin_id reason : String) (at : ℕ) (s s' : Store)
      → P.find_unique id s.certificates ≡ some c
      → Steps id c admin_id reason at s s'
      → Banned id c.user_id admin_id reason at c s s'
  Banned-of_Steps id c admin_id reason at s s' stored steps =
      let (k, p, ban, terms, others) =
        policy_by c.user_id admin_id reason at s.access_policies s'.access_policies _ refl
          steps.policies in
      record {
        policy_id = k;
        policy = p;
        ban = ban;
        terms = terms;
        others = others;
        certificates = λ j.
            (let live = steps.live in
              let dead = steps.dead in
              ground (
                arith,
                live,
                dead,
                stored,
                eq_iff id j,
                P.find_unique-update id (revoke_row at (ban_text reason)) s.certificates
                    s'.certificates j,
              ));
        requests =
            update_many-CancelledRequests c.user_id reason at s.certificate_requests
              s'.certificate_requests steps.requests;
      }
