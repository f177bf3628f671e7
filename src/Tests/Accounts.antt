-- ===== src/Tests/Accounts.antt =====
-- The management of users on the sample state.
use Prim.Native.Char.{char, IsScalar}
use gracon_admin_service.Prelude.{
  String, ℕ, Char, ◌≢◌, ap, sym, subst, code, ◌==◌, Option, if◌then◌else◌, Bool-cases, inl, inr,
  eq_iff, some, none, true, false, [], ◌∷◌, ◌≡◌, refl, arith,
}
use gracon_admin_service.Prisma.ListTable.{list_tables}
use gracon_admin_service.Prisma.Search.ListSearch.{list_search}
use gracon_admin_service.Http.{◌>>=◌}
use gracon_admin_service.Users.Detail.{AdminUserDetail, masked, opened, get_user_detail}
use gracon_admin_service.Users.Detail.Viewing.{Viewed, get_user_detail-Viewed}
use gracon_admin_service.Models.{Store, super_admin, nid}
use gracon_admin_service.Audit.{log}
use gracon_admin_service.Crypto.{Cipher, decrypt, encrypt, mask_value, NoColon}
use gracon_admin_service.Users.{
  Actor, UpdateUserStatusDto, UpdateIdVerificationDto, update_user_status, update_id_verification,
  revoke_user_sessions, decrypt_nid,
}
use gracon_admin_service.Users.Status.{
  StatusChanged, SessionsRevoked, update_user_status-StatusChanged, revoke_user_sessions-SignedOut,
}
use gracon_admin_service.Users.Verification.{Overridden, update_id_verification-Overridden}
use gracon_admin_service.Users.Identifiers.{Revealed, decrypt_nid-Revealed}
use gracon_admin_service.Crypto.Laws.{decrypt-encrypt}
use gracon_admin_service.Tests.Fixture.{start, identity}

abbrev actor : Actor
actor = record { admin_id = "a1"; ip_address = "10.0.0.1" }

abbrev off : UpdateUserStatusDto
off = record { is_active = false; reason = none }

deactivated : Store
deactivated = (update_user_status "u1" off actor start).1

update_user_status-StatusChanged_example : StatusChanged "u1" off actor start deactivated
unfolding deactivated update_user_status log start list_tables ◌>>=◌
update_user_status-StatusChanged_example =
    update_user_status-StatusChanged "u1" off actor start deactivated refl

signed_out : Store
signed_out = (revoke_user_sessions "u1" actor start).1

revoke_user_sessions-SignedOut_example : SessionsRevoked "u1" actor 1 start signed_out
unfolding signed_out revoke_user_sessions log start list_tables ◌>>=◌
revoke_user_sessions-SignedOut_example =
    revoke_user_sessions-SignedOut "u1" actor 1 start signed_out refl

abbrev unverify : UpdateIdVerificationDto
unverify = record { is_id_verified = false; reason = some "fraud" }

overridden : Store
overridden = (update_id_verification "u1" unverify actor 77 start).1

update_id_verification-Overridden_example : Overridden "u1" unverify actor 77 start overridden
unfolding overridden update_id_verification log start list_tables ◌>>=◌
update_id_verification-Overridden_example =
    update_id_verification-Overridden "u1" unverify actor 77 start overridden refl

-- A cipher that keeps the text but for its colons, which it escapes.
escape : String → String
escape String.[] = ""
escape (String.◌∷◌ c s) =
    let rest = escape s in
    if String.◌∷◌ c "" == ":"
    then String.◌∷◌ "~" (String.◌∷◌ "a" rest)
    else if String.◌∷◌ c "" == "~"
    then String.◌∷◌ "~" (String.◌∷◌ "~" rest)
    else String.◌∷◌ c rest

abbrev push : Char → Option String → Option String
push c none = none
push c (some s) = some (String.◌∷◌ c s)

mutual
  unescape : String → Option String
  unescape String.[] = some ""
  unescape (String.◌∷◌ c s) =
      let plain = unescape s in
      let marked = escaped s in if String.◌∷◌ c "" == "~" then marked else push c plain

  escaped : String → Option String
  escaped String.[] = none
  escaped (String.◌∷◌ c s) =
      let rest = unescape s in push (if String.◌∷◌ c "" == "a" then ":" else "~") rest

head_of : (c d : Char) → String.◌∷◌ c "" ≡ String.◌∷◌ d "" → c ≡ d
head_of c d e = cc

unescape-escape : (s : String) → unescape (escape s) ≡ some s
unfolding escape unescape
unescape-escape String.[] = refl
unescape-escape (String.◌∷◌ c s) = elim (Bool-cases (String.◌∷◌ c "" == ":")) [
  | inl colon ↦
      rw (colon, unescape-escape s)
        (ap (λ d. some (String.◌∷◌ d s))
          (sym (head_of c ":" ((eq_iff (String.◌∷◌ c "") ":").0 colon))))
  | inr plain ↦ elim (Bool-cases (String.◌∷◌ c "" == "~")) [
    | inl tilde ↦
        rw (plain, tilde, unescape-escape s)
          (ap (λ d. some (String.◌∷◌ d s))
            (sym (head_of c "~" ((eq_iff (String.◌∷◌ c "") "~").0 tilde))))
    | inr other ↦ rw (plain, other, other, unescape-escape s) refl
  ]
]

colon_char : (c : Char) → code c ≡ b':' → String.◌∷◌ c "" == ":" ≡ true
colon_char (char n p) e =
    subst (λ m. (q : IsScalar m) → String.◌∷◌ (char m q) "" == ":" ≡ true) (sym e) (λ q. refl) p

is_other : (c : Char) → String.◌∷◌ c "" == ":" ≡ false → code c ≢ b':'
is_other c plain e = (let colon = colon_char c e in cc)

not_colon_tilde : let tilde : ℕ = b'~' in tilde ≢ b':'
not_colon_tilde e = omega (arith, e)

escape-NoColon : (s : String) → NoColon (escape s)
unfolding escape
escape-NoColon String.[] = tt
escape-NoColon (String.◌∷◌ c s) = elim (Bool-cases (String.◌∷◌ c "" == ":")) [
  | inl colon ↦ rw colon (not_colon_tilde, ((λ e. omega (arith, e)), escape-NoColon s))
  | inr plain ↦ elim (Bool-cases (String.◌∷◌ c "" == "~")) [
    | inl tilde ↦ rw (plain, tilde) (not_colon_tilde, (not_colon_tilde, escape-NoColon s))
    | inr other ↦ rw (plain, other) (is_other c plain, escape-NoColon s)
  ]
]

unfoldable plain_cipher : Cipher
plain_cipher = record {
  encipher = λ iv plain. escape plain;
  decipher = λ iv encrypted. unescape encrypted;
  decipher-encipher = λ iv plain. unescape-escape plain;
  encipher-NoColon = λ iv plain. escape-NoColon plain;
}

-- The same, for the tests that never look inside.
pub sealed_cipher : Cipher
sealed_cipher = plain_cipher

abbrev id_card : String
id_card = "1199:8~7"

with_card : Store
unfolding start plain_cipher escape list_tables
with_card = record start {
  citizen_identities = ("c1", record identity { nid_encrypted = some "ab12:1199~a8~~7" }) ∷ [];
}

revealed : Store
revealed = (decrypt_nid plain_cipher "u1" actor 55 "court order" with_card).1

decrypt_nid-Revealed_example :
    Revealed plain_cipher "u1" actor 55 "court order" id_card with_card revealed
unfolding revealed with_card decrypt_nid decrypt log plain_cipher escape unescape start list_tables
    ◌>>=◌
decrypt_nid-Revealed_example =
    decrypt_nid-Revealed plain_cipher "u1" actor 55 "court order" id_card with_card revealed refl

decrypt-encrypt_example : decrypt plain_cipher (encrypt plain_cipher "ab12" id_card) ≡ some id_card
decrypt-encrypt_example = decrypt-encrypt plain_cipher "ab12" id_card (
  λ e. omega (arith, e),
  (λ e. omega (arith, e), (λ e. omega (arith, e), (λ e. omega (arith, e), tt))),
)

viewed : Store
viewed =
    (get_user_detail ⦃Q = list_search⦄ plain_cipher (λ id. 0) "u1" actor super_admin 55 with_card).1

abbrev seen : AdminUserDetail
seen = record {
  user_id = "u1";
  first_name = "Bob";
  last_name = "Doe";
  email = "bob@x";
  phone_number = none;
  masked_nid = "••••:8~7";
  masked_pid = "—";
  nid_decrypted = false;
  identity_type = some nid;
  is_active = true;
  is_verified = true;
  is_id_verified = true;
  id_verified_at = some 7;
  created_at = 5;
  sessions_truncated = false;
  sessions = record { id = "r1"; expires_at = 800; created_at = 0 } ∷ [];
  audit_history = [];
}

get_user_detail-Viewed_example :
    Viewed ⦃Q = list_search⦄ plain_cipher "u1" actor super_admin 55 seen with_card viewed
unfolding viewed with_card get_user_detail opened masked mask_value decrypt log plain_cipher escape
    unescape start list_tables list_search ◌>>=◌
get_user_detail-Viewed_example =
    get_user_detail-Viewed ⦃Q = list_search⦄ plain_cipher (λ id. 0) "u1" actor super_admin 55 seen
      with_card viewed refl
