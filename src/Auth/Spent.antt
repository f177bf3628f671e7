-- ===== src/Auth/Spent.antt =====
-- A token whose hash is revoked stays so, whatever the auth service does next.
use gracon_admin_service.Prelude.{ℕ, String, Bool, true, ◌≡◌, ◌≢◌, refl}
use gracon_admin_service.Prisma.{Prisma}
use gracon_admin_service.Http.{write}
use gracon_admin_service.Http.Keeps.{
  History, Keeps, Keeps-pure, Keeps-raise, Keeps-gets, Keeps-require, Keeps-reject_if, Keeps-if,
  Keeps-write, Keeps-recover, Keeps-bind,
}
use gracon_admin_service.Prisma.Marked.{
  IsMarked, create-IsMarked, update-IsMarked, update_many-IsMarked, delete_many-IsMarked,
}
use gracon_admin_service.Models.{Admin, AdminRefreshToken, Store}
use gracon_admin_service.Maintenance.{cleanup_expired_tokens, is_dead}
use gracon_admin_service.Auth.{
  Runtime, Client, issue_tokens, new_refresh_token, login, refresh_tokens, logout,
  revoke_all_admin_tokens,
}

abbrev end_token : AdminRefreshToken → AdminRefreshToken
end_token t = record t { revoked = true }

module _ ⦃P : Prisma⦄ (hash : String) where
  -- Every stored token with this hash is revoked.
  abbrev pub IsSpentHash : Store → Type 0
  IsSpentHash s =
      IsMarked (λ (t : AdminRefreshToken). t.token_hash) (λ (t : AdminRefreshToken). t.revoked) hash
        s.admin_refresh_tokens

  abbrev spending : History Store
  spending = record {
    Rel = λ s s'. IsSpentHash s → IsSpentHash s';
    same = λ s h. h;
    chain = λ s t u g k h. k (g h);
  }

  module _ (R : Runtime) where
    issue_tokens-Keeps :
        (id : String) (a : Admin) (c : Client)
        → R.sha256 c.random_token ≢ hash
        → Keeps spending (issue_tokens R id a c)
    unfolding issue_tokens
    issue_tokens-Keeps id a c other =
        Keeps-bind spending _ _
          (Keeps-write spending _ _ (λ s t made.
            create-IsMarked _ _ hash (new_refresh_token R id c) s.admin_refresh_tokens t.1 t.0 other
              made))
          (λ x. Keeps-pure spending _)

    login-Keeps :
        (email password : String) (c : Client)
        → R.sha256 c.random_token ≢ hash
        → Keeps spending (login R email password c)
    unfolding login
    login-Keeps email password c other = Keeps-bind spending _ _ (Keeps-gets spending _) (λ found.
        Keeps-bind spending _ _ (Keeps-require spending _ _) (λ row.
          Keeps-bind spending _ _ (Keeps-reject_if spending _ _) (λ x.
            Keeps-bind spending _ _ (Keeps-reject_if spending _ _) (λ y.
              Keeps-bind spending _ _ (issue_tokens-Keeps row.0 row.1 c other)
                (λ tokens. Keeps-pure spending _)))))

    ended-Keeps :
        (p : String → AdminRefreshToken → Bool)
        → Keeps spending (
            write
              (λ s. P.update_many p end_token s.admin_refresh_tokens)
              (λ s t. record s { admin_refresh_tokens = t }))
    ended-Keeps p = Keeps-write spending _ _ (λ s t made.
        update_many-IsMarked _ _ hash end_token (λ r. refl) (λ r. refl) p s.admin_refresh_tokens t
          made)

    reuse-Keeps : (id : String) → Keeps spending (revoke_all_admin_tokens R id)
    unfolding revoke_all_admin_tokens
    reuse-Keeps id = ended-Keeps _

    refresh_tokens-Keeps :
        (raw : String) (checked : ℕ) (c : Client)
        → R.sha256 c.random_token ≢ hash
        → Keeps spending (refresh_tokens R raw checked c)
    unfolding refresh_tokens
    refresh_tokens-Keeps raw checked c other =
        Keeps-bind spending _ _ (Keeps-gets spending _) (λ found.
          Keeps-bind spending _ _ (Keeps-require spending _ _) (λ row.
            Keeps-bind spending _ _ (Keeps-gets spending _) (λ owner.
              Keeps-bind spending _ _ (Keeps-require spending _ _) (λ a.
                Keeps-bind spending _ _
                  (Keeps-if spending row.1.revoked _ _
                    (Keeps-bind spending _ _ (reuse-Keeps row.1.admin_id)
                      (λ x. Keeps-raise spending _))
                    (Keeps-pure spending _))
                  (λ x. Keeps-bind spending _ _ (Keeps-reject_if spending _ _) (λ y.
                    Keeps-bind spending _ _ (Keeps-reject_if spending _ _) (λ z.
                      Keeps-bind spending _ _
                        (Keeps-write spending _ _ (λ s t made.
                          update-IsMarked _ _ hash end_token (λ r. refl) (λ r. refl) row.0
                            s.admin_refresh_tokens t made))
                        (λ w. issue_tokens-Keeps row.1.admin_id a c other))))))))

    logout-Keeps : (raw : String) → Keeps spending (logout R raw)
    unfolding logout
    logout-Keeps raw = ended-Keeps _

  cleanup-Keeps : (now : ℕ) → Keeps spending (cleanup_expired_tokens now)
  unfolding cleanup_expired_tokens
  cleanup-Keeps now = Keeps-recover spending tt _ (
      Keeps-write spending _ _
        (λ s t made. delete_many-IsMarked _ _ hash (is_dead now) s.admin_refresh_tokens t made))

-- What happens to the sessions: a login, a refresh, a logout or the cleanup, whatever it answers, and
-- anything that leaves their table alone. No token drawn on the way has the hash.
pub data SessionStep ⦃P : Prisma⦄ (R : Runtime) (hash : String) (s s' : Store) : Type 0 where
  logged_in :
      (email password : String) (c : Client)
      → R.sha256 c.random_token ≢ hash
      → s' ≡ (login R email password c s).1
      → SessionStep R hash s s'
  refreshed :
      (raw : String) (checked : ℕ) (c : Client)
      → R.sha256 c.random_token ≢ hash
      → s' ≡ (refresh_tokens R raw checked c s).1
      → SessionStep R hash s s'
  logged_out : (raw : String) → s' ≡ (logout R raw s).1 → SessionStep R hash s s'
  cleaned_up : (now : ℕ) → s' ≡ (cleanup_expired_tokens now s).1 → SessionStep R hash s s'
  elsewhere : s'.admin_refresh_tokens ≡ s.admin_refresh_tokens → SessionStep R hash s s'

pub data Sessions ⦃P : Prisma⦄ (R : Runtime) (hash : String) (s : Store) : Store → Type 0 where
  here : Sessions R hash s s
  next : {t u : Store} → Sessions R hash s t → SessionStep R hash t u → Sessions R hash s u

module _ ⦃P : Prisma⦄ (R : Runtime) (hash : String) where
  step-IsSpentHash :
      (s t : Store) → SessionStep R hash s t → IsSpentHash hash s → IsSpentHash hash t
  step-IsSpentHash s t (logged_in email password c other e) =
      rw e ((login-Keeps hash R email password c other).step s)
  step-IsSpentHash s t (refreshed raw checked c other e) =
      rw e ((refresh_tokens-Keeps hash R raw checked c other).step s)
  step-IsSpentHash s t (logged_out raw e) = rw e ((logout-Keeps hash R raw).step s)
  step-IsSpentHash s t (cleaned_up now e) = rw e ((cleanup-Keeps hash now).step s)
  step-IsSpentHash s t (elsewhere e) = λ h. rw e h

  pub Sessions-IsSpentHash :
      {s t : Store} → Sessions R hash s t → IsSpentHash hash s → IsSpentHash hash t
  Sessions-IsSpentHash here h = h
  Sessions-IsSpentHash (next {t = t} {u = u} before st) h =
      step-IsSpentHash t u st (Sessions-IsSpentHash before h)
