-- ===== src/Auth/Login.antt =====
-- Login: who gets in, and what a failure tells.
use gracon_admin_service.Prelude.{
  String, true, Option, none, some, ◌≡◌, ◌≢◌, ◌⊎◌, inl, inr, refl, sym, ◌∙◌, ◌==◌, eq_iff,
  Bool-cases, arith,
}
use gracon_admin_service.Prisma.{Prisma, DbError, Query, done, failed, find_first_cases}
use gracon_admin_service.Http.{◌>>=◌, ok, throw, unauthorized, database}
use gracon_admin_service.Models.{Admin, AdminRefreshToken, Store}
use gracon_admin_service.Auth.{
  Runtime, Client, admin_payload, new_refresh_token, AdminLoginResult, build_safe_profile,
  invalid_login, login, password_valid, credentials,
}
use gracon_admin_service.Auth.Issuing.{Issued, issue_tokens-Issued}

module _ ⦃P : Prisma⦄ where
  -- No two stored accounts have one email (`email` is a unique column).
  abbrev pub HasUniqueEmails : Store → Type 0
  HasUniqueEmails s =
      (i j : String) (a b : Admin)
      → P.find_unique i s.admins ≡ some a
      → P.find_unique j s.admins ≡ some b
      → a.email ≡ b.email
      → i ≡ j

module _ ⦃P : Prisma⦄ (R : Runtime) where
  -- The stored account `a` has this email, and this password opens it.
  pub record Authenticates (email password : String) (s : Store) (id : String) (a : Admin)
      : Type 0 where
    pub stored : P.find_unique id s.admins ≡ some a
    pub named : a.email ≡ email
    pub hash : String
    pub set : a.password_hash ≡ some hash
    pub nonempty : hash ≢ ""
    pub matches : R.bcrypt_compare password hash ≡ true

  -- Gate 1 on an account with the email: it is passed exactly where the account authenticates.
  credentials_cases :
      (email password : String) (s : Store) (id : String) (a : Admin) (hash : Option String)
      → P.find_unique id s.admins ≡ some a
      → (a.email == email) ≡ true
      → a.password_hash ≡ hash
      → (credentials (some (id, a)) (password_valid R (some (id, a)) password) ≡ none)
        ⊎ (Authenticates email password s id a
            × (credentials (some (id, a)) (password_valid R (some (id, a)) password)
                ≡ some (id, a)))
  unfolding password_valid
  credentials_cases email password s id a none stored named e = inl (ground arith)
  credentials_cases email password s id a (some hash) stored named e =
      elim (Bool-cases (R.bcrypt_compare password hash)) [
        | inl matches ↦ elim (Bool-cases (hash == "")) [
          | inl empty ↦ inl (ground arith)
          | inr set ↦ inr (
            record {
              stored = stored;
              named = (eq_iff a.email email).0 named;
              hash = hash;
              set = e;
              nonempty = λ h. ground (arith, eq_iff hash "");
              matches = matches;
            },
            ground arith,
          )
        ]
        | inr differs ↦ inl (ground arith)
      ]

  refused_not_fitting :
      (id : String) (a : Admin) (hash password : String)
      → credentials (some (id, a)) (password_valid R (some (id, a)) password) ≡ none
      → a.password_hash ≡ some hash
      → hash ≢ ""
      → R.bcrypt_compare password hash ≡ true
      → ⊥
  unfolding password_valid
  refused_not_fitting id a hash password refused set full fit = ground (arith, eq_iff hash "")

  -- The same failure, and no write, whether the email is unknown, the invitation was never
  -- accepted or the password is wrong: whenever no stored account authenticates.
  pub login_uniform :
      (email password : String) (c : Client) (s : Store)
      → ((id : String) (a : Admin) → ¬ Authenticates email password s id a)
      → login R email password c s ≡ (throw (unauthorized invalid_login), s)
  unfolding login ◌>>=◌
  login_uniform email password c s none_fits =
      elim (find_first_cases (λ _ a. a.email == email) s.admins) [
        | inl e ↦ rw e
        | inr (id, a, e, stored, named) ↦
            elim (credentials_cases email password s id a _ stored named refl) [
              | inl refused ↦ rw (e, refused)
              | inr (fits, _) ↦ absurd (none_fits id a fits)
            ]
      ]

  -- What a successful login shows and does.
  pub record LoggedIn (email password : String) (c : Client) (s : Store) (r : AdminLoginResult)
      (s' : Store) : Type 0 where
    pub id : String
    pub account : Admin
    pub authenticates : Authenticates email password s id account
    pub verified : account.is_verified ≡ true
    pub active : account.is_active ≡ true
    pub profile : r.admin ≡ record {
      admin_id = id;
      first_name = account.first_name;
      last_name = account.last_name;
      email = account.email;
      phone_number = account.phone_number;
      role = account.role;
      created_at = account.created_at;
    }
    pub issued : Issued R id account c s r.tokens s'

  -- A login that succeeds passed the three gates, and stored one fresh refresh token, under the
  -- hash of the returned one, and nothing else.
  pub login-LoggedIn :
      (email password : String) (c : Client) (s s' : Store) (r : AdminLoginResult)
      → login R email password c s ≡ (ok r, s')
      → LoggedIn email password c s r s'
  unfolding login ◌>>=◌
  login-LoggedIn email password c s s' r h =
      elim (find_first_cases (λ _ a. a.email == email) s.admins) [
        | inl e ↦ absurd (ground arith)
        | inr (id, a, e, stored, named) ↦
            elim (credentials_cases email password s id a _ stored named refl) [
              | inl refused ↦ absurd (ground arith)
              | inr (fits, passed) ↦
                  (let h' = rw (e, passed) at h in
                    record {
                      id = id;
                      account = a;
                      authenticates = fits;
                      verified = ground arith;
                      active = ground arith;
                      profile = ground arith;
                      issued = issue_tokens-Issued R id a c s s' r.tokens (ground arith);
                    })
            ]
      ]

  -- A login is admitted, or stopped by the database alone, which changes nothing.
  abbrev pub Admitted : String → String → Client → Store → Type 0
  Admitted email password c s =
      ((r : AdminLoginResult) × (s' : Store) × (login R email password c s ≡ (ok r, s')))
      ⊎ ((e : DbError) × (login R email password c s ≡ (throw (database e), s)))

  Admitted-by :
      (email password : String) (c : Client) (s : Store) (id : String) (a : Admin)
      (q : Query (String × P.Table AdminRefreshToken))
      → P.find_first (λ _ b. b.email == email) s.admins ≡ some (id, a)
      → credentials (some (id, a)) (password_valid R (some (id, a)) password) ≡ some (id, a)
      → a.is_verified ≡ true
      → a.is_active ≡ true
      → P.create (new_refresh_token R id c) s.admin_refresh_tokens ≡ q
      → Admitted email password c s
  unfolding login ◌>>=◌
  Admitted-by email password c s id a (failed e) found passed verified active made =
      inr (e, ground arith)
  Admitted-by email password c s id a (done (k, t)) found passed verified active made = inl (
    record {
      tokens = record {
        access_token = R.sign (admin_payload id a) R.access_token_expiry R.admin_jwt_secret;
        refresh_token = c.random_token;
      };
      admin = build_safe_profile id a;
    },
    record s { admin_refresh_tokens = t },
    ground arith,
  )

  -- A verified and active account with the email and the password is admitted.
  pub login_complete :
      (email password : String) (c : Client) (s : Store) (id : String) (a : Admin)
      → HasUniqueEmails s
      → Authenticates email password s id a
      → a.is_verified ≡ true
      → a.is_active ≡ true
      → Admitted email password c s
  login_complete email password c s id a unique fits verified active =
      elim (find_first_cases (λ _ b. b.email == email) s.admins) [
        | inl e ↦
            (let missed = P.find_first_none (λ _ b. b.email == email) s.admins id a e fits.stored in
              let named = fits.named in
              absurd (ground (arith, missed, named, eq_iff a.email email)))
        | inr (j, b, e, stored, named) ↦
            (let same : j ≡ id =
                unique j id b a stored fits.stored ((eq_iff _ _).0 named ∙ sym fits.named) in
              let row : b ≡ a = (let was = fits.stored in ground (arith, same, was)) in
              elim (credentials_cases email password s j b _ stored named refl) [
                | inl refused ↦
                    (let set = fits.set in
                      let full = fits.nonempty in
                      let fit = fits.matches in
                      absurd
                        (refused_not_fitting j b fits.hash password refused (rw row set) full fit))
                | inr (_, passed) ↦
                    Admitted-by email password c s j b _ e passed (rw row verified) (rw row active)
                      refl
              ])
      ]
