-- ===== src/Growth/Tables.antt =====
-- One table that grows, and the others as they were.
use gracon_admin_service.Prelude.{List}
use gracon_admin_service.Prisma.{Prisma}
use gracon_admin_service.Models.{
  Store, Admin, User, PersonalCertificate, PersonalKeyPair, AccessPolicy, CertificateRequest,
  AdminAuditLog, AdminRefreshToken, AdminInviteToken, RefreshToken, Mail,
}
use gracon_admin_service.Growth.{
  TableGrows, Grows, Grows-same, admin_fate, user_fate, certificate_fate, key_pair_fate,
  policy_fate, request_fate, audit_fate,
}

module _ ⦃P : Prisma⦄ where
  -- The tables of sessions and invitations, and the mails, are under no such promise.
  pub Grows-elsewhere :
      (s : Store) (a : P.Table AdminRefreshToken) (b : P.Table AdminInviteToken)
      (c : P.Table RefreshToken) (m : List Mail)
      → Grows s (record s {
        admin_refresh_tokens = a;
        admin_invite_tokens = b;
        refresh_tokens = c;
        mails = m;
      })
  Grows-elsewhere s a b c m =
      let old = Grows-same s in
      record {
        admins = old.admins;
        users = old.users;
        certificates = old.certificates;
        key_pairs = old.key_pairs;
        policies = old.policies;
        requests = old.requests;
        audits = old.audits;
      }

  pub Grows-admins :
      (s : Store) (t : P.Table Admin)
      → TableGrows admin_fate s.admins t
      → Grows s (record s { admins = t })
  Grows-admins s t g =
      let old = Grows-same s in
      record {
        admins = g;
        users = old.users;
        certificates = old.certificates;
        key_pairs = old.key_pairs;
        policies = old.policies;
        requests = old.requests;
        audits = old.audits;
      }

  pub Grows-users :
      (s : Store) (t : P.Table User)
      → TableGrows user_fate s.users t
      → Grows s (record s { users = t })
  Grows-users s t g =
      let old = Grows-same s in
      record {
        admins = old.admins;
        users = g;
        certificates = old.certificates;
        key_pairs = old.key_pairs;
        policies = old.policies;
        requests = old.requests;
        audits = old.audits;
      }

  pub Grows-certificates :
      (s : Store) (t : P.Table PersonalCertificate)
      → TableGrows certificate_fate s.certificates t
      → Grows s (record s { certificates = t })
  Grows-certificates s t g =
      let old = Grows-same s in
      record {
        admins = old.admins;
        users = old.users;
        certificates = g;
        key_pairs = old.key_pairs;
        policies = old.policies;
        requests = old.requests;
        audits = old.audits;
      }

  pub Grows-key_pairs :
      (s : Store) (t : P.Table PersonalKeyPair)
      → TableGrows key_pair_fate s.key_pairs t
      → Grows s (record s { key_pairs = t })
  Grows-key_pairs s t g =
      let old = Grows-same s in
      record {
        admins = old.admins;
        users = old.users;
        certificates = old.certificates;
        key_pairs = g;
        policies = old.policies;
        requests = old.requests;
        audits = old.audits;
      }

  pub Grows-policies :
      (s : Store) (t : P.Table AccessPolicy)
      → TableGrows policy_fate s.access_policies t
      → Grows s (record s { access_policies = t })
  Grows-policies s t g =
      let old = Grows-same s in
      record {
        admins = old.admins;
        users = old.users;
        certificates = old.certificates;
        key_pairs = old.key_pairs;
        policies = g;
        requests = old.requests;
        audits = old.audits;
      }

  pub Grows-requests :
      (s : Store) (t : P.Table CertificateRequest)
      → TableGrows request_fate s.certificate_requests t
      → Grows s (record s { certificate_requests = t })
  Grows-requests s t g =
      let old = Grows-same s in
      record {
        admins = old.admins;
        users = old.users;
        certificates = old.certificates;
        key_pairs = old.key_pairs;
        policies = old.policies;
        requests = g;
        audits = old.audits;
      }

  pub Grows-audits :
      (s : Store) (t : P.Table AdminAuditLog)
      → TableGrows audit_fate s.audit_logs t
      → Grows s (record s { audit_logs = t })
  Grows-audits s t g =
      let old = Grows-same s in
      record {
        admins = old.admins;
        users = old.users;
        certificates = old.certificates;
        key_pairs = old.key_pairs;
        policies = old.policies;
        requests = old.requests;
        audits = g;
      }
