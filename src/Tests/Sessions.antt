-- ===== src/Tests/Sessions.antt =====
-- Login, refresh and logout on the sample state.
use gracon_admin_service.Prelude.{
  String, true, none, some, [], ◌∷◌, ◌≡◌, refl, ◌==◌, ◌⊎◌, eq_iff, arith, Bool-cases, inl, inr,
  if◌then◌else◌,
}
use gracon_admin_service.Prisma.{DbError}
use gracon_admin_service.Prisma.ListTable.{list_tables}
use gracon_admin_service.Http.{ok, throw, unauthorized, database, ◌>>=◌}
use gracon_admin_service.Models.{Admin, Store}
use gracon_admin_service.Auth.{
  AdminLoginResult, AdminAuthTokens, login, refresh_tokens, logout, invalid_login, revoked_token,
  build_safe_profile,
}
use gracon_admin_service.Auth.Login.{LoggedIn, login-LoggedIn, login_uniform, Authenticates}
use gracon_admin_service.Auth.Rotation.{
  Rotated, refresh_tokens-Rotated, HasUniqueHashes, refresh_no_replay, logout_ends_session,
}
use gracon_admin_service.Auth.Spent.{here, next, refreshed}
use gracon_admin_service.Auth.Reuse.{Wiped, refresh_reuse_wipes}
use gracon_admin_service.Tests.Fixture.{runtime, start, client, root, newcomer, session}

abbrev tokens : AdminAuthTokens
tokens = record { access_token = "a1"; refresh_token = "fresh" }

abbrev logged_in : AdminLoginResult
logged_in = record { tokens = tokens; admin = build_safe_profile "a1" root }

login-LoggedIn_example :
    LoggedIn runtime "ada@x" "pw" client start logged_in (login runtime "ada@x" "pw" client start).1
unfolding login start runtime list_tables ◌>>=◌
login-LoggedIn_example =
    login-LoggedIn runtime "ada@x" "pw" client start (login runtime "ada@x" "pw" client start).1
      logged_in refl

nobody : (id : String) (a : Admin) → ¬ Authenticates runtime "ada@x" "bad" start id a
unfolding start runtime list_tables
nobody id a fits =
    let stored = fits.stored in
    let named = fits.named in
    let set = fits.set in
    let e = (eq_iff fits.hash "$bad").0 fits.matches in
    let rows : (if "a1" == id then some root else if "a2" == id then some newcomer else none)
        ≡ some a =
      stored in
    elim (Bool-cases ("a1" == id)) [
      | inl h ↦ (let row : some root ≡ some a = rw h at rows in cc)
      | inr h ↦ elim (Bool-cases ("a2" == id)) [
        | inl k ↦ (let row : some newcomer ≡ some a = rw (h, k) at rows in cc)
        | inr k ↦ (let row : none ≡ some a = rw (h, k) at rows in cc)
      ]
    ]

login_uniform_example :
    login runtime "ada@x" "bad" client start ≡ (throw (unauthorized invalid_login), start)
login_uniform_example = login_uniform runtime "ada@x" "bad" client start nobody

refresh_tokens-Rotated_example :
    Rotated runtime "old" 200 client start tokens (refresh_tokens runtime "old" 200 client start).1
unfolding refresh_tokens start runtime list_tables ◌>>=◌
refresh_tokens-Rotated_example =
    refresh_tokens-Rotated runtime "old" 200 client start
      (refresh_tokens runtime "old" 200 client start).1 tokens refl

start-HasUniqueHashes : HasUniqueHashes start
unfolding start list_tables
start-HasUniqueHashes i j t u a b same = ground (arith, a, b, eq_iff "t1" i, eq_iff "t1" j)

-- The token is presented again in between.
replayed : Store
replayed =
    (refresh_tokens runtime "old" 205 client (refresh_tokens runtime "old" 200 client start).1).1

refresh_no_replay_example :
    ¬ (refresh_tokens runtime "old" 210 client replayed ≡ (ok tokens, start))
unfolding replayed refresh_tokens start runtime list_tables ◌>>=◌
refresh_no_replay_example =
    refresh_no_replay runtime "old" 200 210 client client start
      (refresh_tokens runtime "old" 200 client start).1 replayed start tokens tokens
      start-HasUniqueHashes (λ e. cc) refl (next here (refreshed "old" 205 client (λ e. cc) refl))

spent : Store
unfolding start list_tables
spent = record start { admin_refresh_tokens = ("t1", record session { revoked = true }) ∷ [] }

spent-HasUniqueHashes : HasUniqueHashes spent
unfolding spent start list_tables
spent-HasUniqueHashes i j t u a b same = ground (arith, a, b, eq_iff "t1" i, eq_iff "t1" j)

refresh_reuse_wipes_example :
    ((e : DbError) × ((refresh_tokens runtime "old" 200 client spent).0 ≡ throw (database e))
      × ((refresh_tokens runtime "old" 200 client spent).1 ≡ spent))
    ⊎ (((refresh_tokens runtime "old" 200 client spent).0 ≡ throw (unauthorized revoked_token))
        × Wiped "a1" spent (refresh_tokens runtime "old" 200 client spent).1)
unfolding spent start runtime list_tables
refresh_reuse_wipes_example =
    refresh_reuse_wipes runtime "old" 200 client spent
      (refresh_tokens runtime "old" 200 client spent).1
      (refresh_tokens runtime "old" 200 client spent).0 "t1" (record session { revoked = true })
      root spent-HasUniqueHashes refl refl refl refl refl

logged_in_again : Store
logged_in_again = (login runtime "ada@x" "pw" client (logout runtime "old" start).1).1

logout_ends_session_example :
    ¬ (refresh_tokens runtime "old" 200 client logged_in_again ≡ (ok tokens, start))
unfolding logged_in_again login logout start runtime list_tables ◌>>=◌
logout_ends_session_example =
    logout_ends_session runtime "old" 200 client start (logout runtime "old" start).1
      logged_in_again start tokens refl
      (next here (gracon_admin_service.Auth.Spent.logged_in "ada@x" "pw" client (λ e. cc) refl))
