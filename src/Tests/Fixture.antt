-- ===== src/Tests/Fixture.antt =====
-- A toy runtime and a small state that the tests share.
use gracon_admin_service.Prelude.{
  String, true, false, none, some, [], ◌∷◌, ◌≡◌, ◌==◌, eq_iff, eq_refl, Bool-cases, inl, inr,
}
use text.Mathlib.TextLemmas.{cons-ne-nil}
use gracon_admin_service.Prisma.ListTable.{list_tables}
use gracon_admin_service.Models.{
  Admin, AdminRefreshToken, AdminInviteToken, super_admin, admin, Store, User, RefreshToken,
  CitizenIdentity, nid, PersonalCertificate, CertificateRequest, pending,
}
use gracon_admin_service.Auth.{Runtime, Client}

abbrev salted : String → String
salted password = String.◌∷◌ "$" password

salted-ne-empty : (password : String) → (salted password == "") ≡ false
salted-ne-empty password = elim (Bool-cases (salted password == "")) [
  | inl same ↦ absurd (cons-ne-nil _ _ ((eq_iff (salted password) "").0 same))
  | inr differs ↦ differs
]

unfoldable pub runtime : Runtime
unfolding salted-ne-empty
runtime = record {
  sha256 = λ s. String.◌∷◌ "#" s;
  bcrypt_compare = λ password hash. hash == salted password;
  bcrypt_hash = λ password rounds salt. salted password;
  compare-bcrypt_hash = λ password rounds salt. eq_refl (salted password);
  hash-IsTruthy = λ password rounds salt. salted-ne-empty password;
  sign = λ payload expiry secret. payload.sub;
  encode_uri_component = λ s. s;
  admin_jwt_secret = "secret";
  access_token_expiry = "8h";
  refresh_token_expiry_ms = 1000;
  frontend_url = "https://admin";
}

-- An administrator with the password "pw".
abbrev pub root : Admin
root = record {
  first_name = "Ada";
  last_name = "Root";
  email = "ada@x";
  phone_number = none;
  password_hash = some "$pw";
  role = super_admin;
  is_verified = true;
  is_active = true;
  created_at = 1;
  created_by_id = none;
}

-- One who has not accepted the invitation "link".
abbrev pub newcomer : Admin
newcomer = record root { email = "new@x"; password_hash = none; role = admin; is_verified = false }

abbrev pub session : AdminRefreshToken
session = record {
  admin_id = "a1";
  token_hash = "#old";
  expires_at = 500;
  revoked = false;
  ip_address = "10.0.0.1";
  user_agent = none;
}

abbrev pub invitation : AdminInviteToken
invitation = record { admin_id = "a2"; token_hash = "#link"; expires_at = 900; used = false }

abbrev pub user : User
user = record {
  email = "bob@x";
  phone_number = none;
  is_active = true;
  is_verified = true;
  is_id_verified = true;
  id_verified_at = some 7;
  created_at = 5;
}

abbrev pub user_session : RefreshToken
user_session = record { user_id = "u1"; expires_at = 800; revoked = false }

abbrev pub identity : CitizenIdentity
identity = record {
  user_id = "u1";
  nid_encrypted = some "ab:1199";
  identity_type = nid;
  sur_name = "Doe";
  post_names = "Bob";
}

abbrev pub certificate : PersonalCertificate
certificate = record {
  user_id = "u1";
  key_pair_id = "k1";
  serial_number = "01";
  subject_cn = "Bob Doe";
  subject_o = "Gracon";
  subject_c = "RW";
  subject_user_id = "1199";
  not_before = 10;
  not_after = 400;
  certificate_pem = "AAAA";
  is_revoked = false;
  revoked_at = none;
  revoked_reason = none;
  created_at = 10;
}

abbrev pub request : CertificateRequest
request = record {
  user_id = "u1";
  key_pair_id = "k1";
  status = pending;
  cancelled_at = none;
  cancellation_reason = none;
  issued_certificate_id = none;
}

unfoldable pub start : Store
unfolding list_tables
start = record {
  admins = ("a1", root) ∷ ("a2", newcomer) ∷ [];
  admin_refresh_tokens = ("t1", session) ∷ [];
  admin_invite_tokens = ("i1", invitation) ∷ [];
  users = ("u1", user) ∷ [];
  refresh_tokens = ("r1", user_session) ∷ [];
  citizen_identities = ("c1", identity) ∷ [];
  platform_ids = [];
  key_pairs = ("k1", record { algorithm = "ED25519"; is_active = true }) ∷ [];
  certificates = ("x1", certificate) ∷ [];
  access_policies = [];
  certificate_requests = ("q1", request) ∷ [];
  audit_logs = [];
  mails = [];
}

abbrev pub client : Client
client = record { ip_address = "10.0.0.2"; user_agent = none; now = 100; random_token = "fresh" }
