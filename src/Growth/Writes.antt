-- ===== src/Growth/Writes.antt =====
-- Each kind of query keeps what its table keeps.
use gracon_admin_service.Prelude.{
  ℕ, ◌∷◌, String, Bool, true, some, ◌≡◌, refl, sym, ◌==◌, eq_iff, arith, Bool-cases, inl, inr, ◌∙◌,
}
use gracon_admin_service.Prisma.{Prisma, Query, done, find_first_cases}
use gracon_admin_service.Models.{
  Store, Admin, User, PersonalCertificate, PersonalKeyPair, AccessPolicy, CertificateRequest,
  AdminAuditLog, AdminRefreshToken, AdminInviteToken, RefreshToken, Mail,
}
use gracon_admin_service.Audit.{log}
use gracon_admin_service.Mailer.{send}
use gracon_admin_service.Http.{write, insert}
use gracon_admin_service.Http.Keeps.{Keeps, Keeps-write, Keeps-insert, Keeps-recover}
use gracon_admin_service.Growth.Tables.{
  Grows-elsewhere, Grows-admins, Grows-users, Grows-certificates, Grows-key_pairs, Grows-policies,
  Grows-requests, Grows-audits,
}
use gracon_admin_service.Growth.{
  growth, Fate, TableGrows, admin_fate, user_fate, certificate_fate, key_pair_fate, policy_fate,
  request_fate, audit_fate,
}

module _ ⦃P : Prisma⦄ {Row : Type 0} (F : Fate Row) where
  pub TableGrows-create :
      (row : Row) (t t' : P.Table Row) (id : String)
      → P.create row t ≡ done (id, t')
      → TableGrows F t t'
  TableGrows-create row t t' id made k r stored =
      let fresh = P.create_fresh row t t' id made in
      let law = P.find_unique-create row t t' id k made in
      (r, ground (arith, law, fresh, stored, eq_iff id k), F.same r)

  pub TableGrows-update :
      (id : String) (f : Row → Row) (t t' : P.Table Row)
      → ((r : Row) → P.find_unique id t ≡ some r → F.Later r (f r))
      → P.update id f t ≡ done t'
      → TableGrows F t t'
  TableGrows-update id f t t' later made k r stored = elim (Bool-cases (id == k)) [
    | inl here ↦ (
      f r,
      rw (P.find_unique-update id f t t' k made, here, stored) refl,
      later r (rw ((eq_iff id k).0 here) stored),
    )
    | inr other ↦ (r, rw (P.find_unique-update id f t t' k made, other) stored, F.same r)
  ]

  pub TableGrows-update_many :
      (p : String → Row → Bool) (f : Row → Row) (t t' : P.Table Row)
      → ((k : String) (r : Row) → p k r ≡ true → F.Later r (f r))
      → P.update_many p f t ≡ done t'
      → TableGrows F t t'
  TableGrows-update_many p f t t' later made k r stored = elim (Bool-cases (p k r)) [
    | inl here ↦
        (f r, rw (P.find_unique-update_many p f t t' k made, stored, here) refl, later k r here)
    | inr other ↦ (r, rw (P.find_unique-update_many p f t t' k made, stored, other) refl, F.same r)
  ]

  pub TableGrows-upsert :
      (p : String → Row → Bool) (row : Row) (f : Row → Row) (t t' : P.Table Row)
      → ((r : Row) → F.Later r (f r))
      → P.upsert p row f t ≡ done t'
      → TableGrows F t t'
  TableGrows-upsert p row f t t' later made = elim (find_first_cases p t) [
    | inl missing ↦
        (let (id, created) = P.upsert_missing p row f t t' missing made in
          TableGrows-create row t t' id created)
    | inr (id, old, found, stored, own) ↦
        TableGrows-update id f t t' (λ r h. later r)
          (sym (P.upsert_found p row f t id old found) ∙ made)
  ]

module _ ⦃P : Prisma⦄ where
  pub Keeps-sessions :
      (q : Store → Query (P.Table AdminRefreshToken))
      → Keeps growth (write q (λ s t. record s { admin_refresh_tokens = t }))
  Keeps-sessions q =
      Keeps-write growth q (λ s t. record s { admin_refresh_tokens = t })
        (λ s t made. Grows-elsewhere s t s.admin_invite_tokens s.refresh_tokens s.mails)

  pub Keeps-invites :
      (q : Store → Query (P.Table AdminInviteToken))
      → Keeps growth (write q (λ s t. record s { admin_invite_tokens = t }))
  Keeps-invites q =
      Keeps-write growth q (λ s t. record s { admin_invite_tokens = t })
        (λ s t made. Grows-elsewhere s s.admin_refresh_tokens t s.refresh_tokens s.mails)

  pub Keeps-user_sessions :
      (q : Store → Query (P.Table RefreshToken))
      → Keeps growth (write q (λ s t. record s { refresh_tokens = t }))
  Keeps-user_sessions q =
      Keeps-write growth q (λ s t. record s { refresh_tokens = t })
        (λ s t made. Grows-elsewhere s s.admin_refresh_tokens s.admin_invite_tokens t s.mails)

  pub Keeps-counted_sessions :
      (q : Store → Query (ℕ × P.Table RefreshToken))
      → Keeps growth (insert q (λ s t. record s { refresh_tokens = t }))
  Keeps-counted_sessions q =
      Keeps-insert growth q (λ s t. record s { refresh_tokens = t })
        (λ s n t made. Grows-elsewhere s s.admin_refresh_tokens s.admin_invite_tokens t s.mails)

  pub Keeps-admins :
      (q : Store → Query (P.Table Admin))
      → ((s : Store) (t : P.Table Admin) → q s ≡ done t → TableGrows admin_fate s.admins t)
      → Keeps growth (write q (λ s t. record s { admins = t }))
  Keeps-admins q k =
      Keeps-write growth q (λ s t. record s { admins = t })
        (λ s t made. Grows-admins s t (k s t made))

  pub Keeps-users :
      (q : Store → Query (P.Table User))
      → ((s : Store) (t : P.Table User) → q s ≡ done t → TableGrows user_fate s.users t)
      → Keeps growth (write q (λ s t. record s { users = t }))
  Keeps-users q k =
      Keeps-write growth q (λ s t. record s { users = t })
        (λ s t made. Grows-users s t (k s t made))

  pub Keeps-certificates :
      (q : Store → Query (P.Table PersonalCertificate))
      → ((s : Store) (t : P.Table PersonalCertificate)
          → q s ≡ done t
          → TableGrows certificate_fate s.certificates t)
      → Keeps growth (write q (λ s t. record s { certificates = t }))
  Keeps-certificates q k =
      Keeps-write growth q (λ s t. record s { certificates = t })
        (λ s t made. Grows-certificates s t (k s t made))

  pub Keeps-key_pairs :
      (q : Store → Query (P.Table PersonalKeyPair))
      → ((s : Store) (t : P.Table PersonalKeyPair)
          → q s ≡ done t
          → TableGrows key_pair_fate s.key_pairs t)
      → Keeps growth (write q (λ s t. record s { key_pairs = t }))
  Keeps-key_pairs q k =
      Keeps-write growth q (λ s t. record s { key_pairs = t })
        (λ s t made. Grows-key_pairs s t (k s t made))

  pub Keeps-policies :
      (q : Store → Query (P.Table AccessPolicy))
      → ((s : Store) (t : P.Table AccessPolicy)
          → q s ≡ done t
          → TableGrows policy_fate s.access_policies t)
      → Keeps growth (write q (λ s t. record s { access_policies = t }))
  Keeps-policies q k =
      Keeps-write growth q (λ s t. record s { access_policies = t })
        (λ s t made. Grows-policies s t (k s t made))

  pub Keeps-requests :
      (q : Store → Query (P.Table CertificateRequest))
      → ((s : Store) (t : P.Table CertificateRequest)
          → q s ≡ done t
          → TableGrows request_fate s.certificate_requests t)
      → Keeps growth (write q (λ s t. record s { certificate_requests = t }))
  Keeps-requests q k =
      Keeps-write growth q (λ s t. record s { certificate_requests = t })
        (λ s t made. Grows-requests s t (k s t made))

  pub Keeps-new_admin :
      (row : Admin)
      → Keeps growth (insert (λ s. P.create row s.admins) (λ s t. record s { admins = t }))
  Keeps-new_admin row =
      Keeps-insert growth (λ s. P.create row s.admins) (λ s t. record s { admins = t })
        (λ s id t made. Grows-admins s t (TableGrows-create admin_fate row s.admins t id made))

  pub Keeps-new_invite :
      (row : AdminInviteToken)
      → Keeps growth (
          insert
            (λ s. P.create row s.admin_invite_tokens)
            (λ s t. record s { admin_invite_tokens = t }))
  Keeps-new_invite row =
      Keeps-insert growth (λ s. P.create row s.admin_invite_tokens)
        (λ s t. record s { admin_invite_tokens = t })
        (λ s id t made. Grows-elsewhere s s.admin_refresh_tokens t s.refresh_tokens s.mails)

  pub Keeps-log : (entry : AdminAuditLog) → Keeps growth (log entry)
  unfolding log
  Keeps-log entry =
      Keeps-recover growth tt
        (write (λ s. P.create entry s.audit_logs) (λ s t. record s { audit_logs = t.1 }))
        (Keeps-write growth (λ s. P.create entry s.audit_logs)
          (λ s t. record s { audit_logs = t.1 })
          (λ s t made.
            Grows-audits s t.1 (TableGrows-create audit_fate entry s.audit_logs t.1 t.0 made)))

  pub Keeps-send : (mail : Mail) → Keeps growth (send mail)
  Keeps-send mail = record {
    step = λ s.
        Grows-elsewhere s s.admin_refresh_tokens s.admin_invite_tokens s.refresh_tokens
          (mail ∷ s.mails);
  }

  pub Keeps-new_session :
      (row : AdminRefreshToken)
      → Keeps growth (
          write
            (λ s. P.create row s.admin_refresh_tokens)
            (λ s t. record s { admin_refresh_tokens = t.1 }))
  Keeps-new_session row =
      Keeps-write growth (λ s. P.create row s.admin_refresh_tokens)
        (λ s t. record s { admin_refresh_tokens = t.1 })
        (λ s t made. Grows-elsewhere s t.1 s.admin_invite_tokens s.refresh_tokens s.mails)
