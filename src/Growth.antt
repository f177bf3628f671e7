-- ===== src/Growth.antt =====
-- What every operation of the service leaves standing, table by table: rows that are never lost,
-- columns that never change, and marks that are never taken back.
pub mod Tables
pub mod Writes
pub mod Sessions
pub mod Accounts
pub mod Sanctions
pub mod Reviews
use gracon_admin_service.Prelude.{String, true, false, some, ◌≡◌, ◌≢◌, refl, sym, ◌∙◌}
use gracon_admin_service.Prisma.{Prisma}
use gracon_admin_service.Http.Keeps.{History}
use gracon_admin_service.Models.{
  Admin, User, PersonalCertificate, PersonalKeyPair, AccessPolicy, CertificateRequest, pending,
  AdminAuditLog, Store,
}

-- What may become of a row: a reflexive and transitive relation.
pub record Fate (Row : Type 0) : Type 1 where
  pub Later : Row → Row → Type 0
  pub same : (r : Row) → Later r r
  pub chain : (r q p : Row) → Later r q → Later q p → Later r p

-- An account keeps its email and its role, and stays verified.
abbrev pub admin_fate : Fate Admin
admin_fate = record {
  Later = λ a b.
      (b.email ≡ a.email) × (b.role ≡ a.role) × (a.is_verified ≡ true → b.is_verified ≡ true);
  same = λ a. (refl, refl, λ h. h);
  chain = λ a b c h k. (k.0 ∙ h.0, k.1 ∙ h.1, λ v. k.2 (h.2 v));
}

abbrev pub user_fate : Fate User
user_fate = record {
  Later = λ a b. b.email ≡ a.email;
  same = λ a. refl;
  chain = λ a b c h k. k ∙ h;
}

-- A certificate keeps its owner, key pair and dates, and stays revoked.
abbrev pub certificate_fate : Fate PersonalCertificate
certificate_fate = record {
  Later = λ a b.
      (b.user_id ≡ a.user_id)
      × (b.key_pair_id ≡ a.key_pair_id)
      × (b.not_after ≡ a.not_after)
      × (a.is_revoked ≡ true → b.is_revoked ≡ true);
  same = λ a. (refl, refl, refl, λ h. h);
  chain = λ a b c h k. (k.0 ∙ h.0, k.1 ∙ h.1, k.2 ∙ h.2, λ v. k.3 (h.3 v));
}

-- A key pair stays inactive.
abbrev pub key_pair_fate : Fate PersonalKeyPair
key_pair_fate = record {
  Later = λ a b. a.is_active ≡ false → b.is_active ≡ false;
  same = λ a h. h;
  chain = λ a b c h k v. k (h v);
}

abbrev pub policy_fate : Fate AccessPolicy
policy_fate = record {
  Later = λ a b. b.user_id ≡ a.user_id;
  same = λ a. refl;
  chain = λ a b c h k. k ∙ h;
}

-- A request keeps its user, and one that is not pending keeps its status.
abbrev pub request_fate : Fate CertificateRequest
request_fate = record {
  Later = λ a b. (b.user_id ≡ a.user_id) × (a.status ≢ pending → b.status ≡ a.status);
  same = λ a. (refl, λ h. refl);
  chain = λ a b c h k. (k.0 ∙ h.0, λ v. k.1 (λ e. v (sym (h.1 v) ∙ e)) ∙ h.1 v);
}

-- An audit entry stays as it is.
abbrev pub audit_fate : Fate AdminAuditLog
audit_fate = record { Later = λ a b. b ≡ a; same = λ a. refl; chain = λ a b c h k. k ∙ h }

module _ ⦃P : Prisma⦄ where
  -- No row is lost, and none meets another fate.
  abbrev pub TableGrows : {Row : Type 0} → Fate Row → P.Table Row → P.Table Row → Type 0
  TableGrows {Row} F t t' =
      (k : String) (r : Row)
      → P.find_unique k t ≡ some r
      → (r' : Row) × (P.find_unique k t' ≡ some r') × F.Later r r'

  pub TableGrows-same : {Row : Type 0} (F : Fate Row) (t : P.Table Row) → TableGrows F t t
  TableGrows-same F t k r h = (r, h, F.same r)

  pub TableGrows-chain :
      {Row : Type 0} (F : Fate Row) (t u v : P.Table Row)
      → TableGrows F t u
      → TableGrows F u v
      → TableGrows F t v
  TableGrows-chain F t u v g h k r stored =
      let (q, at, first) = g k r stored in
      let (p, end, second) = h k q at in (p, end, F.chain r q p first second)

  pub record Grows (s s' : Store) : Type 0 where
    pub admins : TableGrows admin_fate s.admins s'.admins
    pub users : TableGrows user_fate s.users s'.users
    pub certificates : TableGrows certificate_fate s.certificates s'.certificates
    pub key_pairs : TableGrows key_pair_fate s.key_pairs s'.key_pairs
    pub policies : TableGrows policy_fate s.access_policies s'.access_policies
    pub requests : TableGrows request_fate s.certificate_requests s'.certificate_requests
    pub audits : TableGrows audit_fate s.audit_logs s'.audit_logs

  pub Grows-same : (s : Store) → Grows s s
  Grows-same s = record {
    admins = TableGrows-same admin_fate s.admins;
    users = TableGrows-same user_fate s.users;
    certificates = TableGrows-same certificate_fate s.certificates;
    key_pairs = TableGrows-same key_pair_fate s.key_pairs;
    policies = TableGrows-same policy_fate s.access_policies;
    requests = TableGrows-same request_fate s.certificate_requests;
    audits = TableGrows-same audit_fate s.audit_logs;
  }

  pub Grows-chain : (s t u : Store) → Grows s t → Grows t u → Grows s u
  Grows-chain s t u g h = record {
    admins = TableGrows-chain admin_fate s.admins t.admins u.admins g.admins h.admins;
    users = TableGrows-chain user_fate s.users t.users u.users g.users h.users;
    certificates =
        TableGrows-chain certificate_fate s.certificates t.certificates u.certificates
          g.certificates h.certificates;
    key_pairs =
        TableGrows-chain key_pair_fate s.key_pairs t.key_pairs u.key_pairs g.key_pairs h.key_pairs;
    policies =
        TableGrows-chain policy_fate s.access_policies t.access_policies u.access_policies
          g.policies h.policies;
    requests =
        TableGrows-chain request_fate s.certificate_requests t.certificate_requests
          u.certificate_requests g.requests h.requests;
    audits = TableGrows-chain audit_fate s.audit_logs t.audit_logs u.audit_logs g.audits h.audits;
  }

  abbrev pub growth : History Store
  growth = record { Rel = Grows; same = Grows-same; chain = Grows-chain }
