-- ===== src/Invites/UsedUp.antt =====
-- An invitation that is used up stays so, whatever the auth service does next.
use gracon_admin_service.Prelude.{ℕ, String, true, ◌≡◌, ◌≢◌, refl}
use gracon_admin_service.Prisma.{Prisma}
use gracon_admin_service.Prisma.Marked.{
  IsMarked, create-IsMarked, update-IsMarked, update_many-IsMarked,
}
use gracon_admin_service.Http.{Handler}
use gracon_admin_service.Http.Keeps.{
  History, Keeps, Keeps-pure, Keeps-raise, Keeps-gets, Keeps-require, Keeps-reject_if,
  Keeps-transaction, Keeps-rethrow, Keeps-write, Keeps-insert, Keeps-bind,
}
use gracon_admin_service.Models.{AdminInviteToken, Store}
use gracon_admin_service.Audit.{OnlyNotifies}
use gracon_admin_service.Auth.{Runtime}
use gracon_admin_service.Invites.{
  CreateAdminDto, Inviter, SetPasswordDto, InviteCheck, invalid, valid, new_invite, create_admin,
  set_password, resend_invite, activate_if, announce_created-OnlyNotifies,
  announce_resent-OnlyNotifies,
}

abbrev use_invite : AdminInviteToken → AdminInviteToken
use_invite t = record t { used = true }

module _ ⦃P : Prisma⦄ (hash : String) where
  -- Every stored invitation with this hash is used up.
  abbrev pub IsUsedHash : Store → Type 0
  IsUsedHash s =
      IsMarked (λ (t : AdminInviteToken). t.token_hash) (λ (t : AdminInviteToken). t.used) hash
        s.admin_invite_tokens

  abbrev using : History Store
  using = record {
    Rel = λ s s'. IsUsedHash s → IsUsedHash s';
    same = λ s h. h;
    chain = λ s t u g k h. k (g h);
  }

  notifies-Keeps : (m : Handler Store (Unit {0})) → OnlyNotifies m → Keeps using m
  notifies-Keeps m n = record { step = λ s h. rw (n s) h }

  module _ (R : Runtime) where
    create_admin-Keeps :
        (dto : CreateAdminDto) (by : Inviter)
        → R.sha256 by.random_token ≢ hash
        → Keeps using (create_admin R dto by)
    unfolding create_admin
    create_admin-Keeps dto by other = Keeps-bind using _ _ (Keeps-gets using _) (λ creator.
        Keeps-bind using _ _ (Keeps-gets using _) (λ existing.
          Keeps-bind using _ _ (Keeps-reject_if using _ _) (λ x.
            Keeps-bind using _ _
              (Keeps-rethrow using _ _ (
                Keeps-transaction using _ (
                  Keeps-bind using _ _ (Keeps-insert using _ _ (λ s id t made h. h)) (λ id.
                    Keeps-bind using _ _
                      (Keeps-insert using _ _ (λ s k t made.
                        create-IsMarked _ _ hash (new_invite R id by) s.admin_invite_tokens t k
                          other made))
                      (λ y. Keeps-pure using _)))))
              (λ id.
                Keeps-bind using _ _
                  (notifies-Keeps _ (announce_created-OnlyNotifies R creator dto by id))
                  (λ z. Keeps-pure using _)))))

    activate_if-Keeps :
        (dto : SetPasswordDto) (salt : String) (check : InviteCheck)
        → Keeps using (activate_if R dto salt check)
    activate_if-Keeps dto salt (invalid reason) = Keeps-raise using _
    activate_if-Keeps dto salt (valid token) = Keeps-transaction using _ (
        Keeps-bind using _ _ (Keeps-write using _ _ (λ s t made h. h)) (λ x.
          Keeps-write using _ _ (λ s t made.
            update-IsMarked _ _ hash use_invite (λ r. refl) (λ r. refl) token s.admin_invite_tokens
              t made)))

    set_password-Keeps :
        (dto : SetPasswordDto) (now : ℕ) (salt : String) → Keeps using (set_password R dto now salt)
    unfolding set_password
    set_password-Keeps dto now salt =
        Keeps-bind using _ _ (Keeps-gets using _) (λ check. activate_if-Keeps dto salt check)

    resend_invite-Keeps :
        (id : String) (by : Inviter)
        → R.sha256 by.random_token ≢ hash
        → Keeps using (resend_invite R id by)
    unfolding resend_invite
    resend_invite-Keeps id by other = Keeps-bind using _ _ (Keeps-gets using _) (λ found.
        Keeps-bind using _ _ (Keeps-require using _ _) (λ a.
          Keeps-bind using _ _ (Keeps-reject_if using _ _) (λ x.
            Keeps-bind using _ _
              (Keeps-transaction using _ (
                Keeps-bind using _ _
                  (Keeps-write using _ _ (λ s t made.
                    update_many-IsMarked _ _ hash use_invite (λ r. refl) (λ r. refl) _
                      s.admin_invite_tokens t made))
                  (λ y.
                    Keeps-bind using _ _
                      (Keeps-insert using _ _ (λ s k t made.
                        create-IsMarked _ _ hash (new_invite R id by) s.admin_invite_tokens t k
                          other made))
                      (λ z. Keeps-pure using _))))
              (λ w. notifies-Keeps _ (announce_resent-OnlyNotifies R id a by)))))

-- What happens to the invitations: a new account, an invitation sent again or accepted, whatever it
-- answers, and anything that leaves their table alone. No token drawn on the way has the hash.
pub data InviteStep ⦃P : Prisma⦄ (R : Runtime) (hash : String) (s s' : Store) : Type 0 where
  created :
      (dto : CreateAdminDto) (by : Inviter)
      → R.sha256 by.random_token ≢ hash
      → s' ≡ (create_admin R dto by s).1
      → InviteStep R hash s s'
  resent :
      (id : String) (by : Inviter)
      → R.sha256 by.random_token ≢ hash
      → s' ≡ (resend_invite R id by s).1
      → InviteStep R hash s s'
  accepted :
      (dto : SetPasswordDto) (now : ℕ) (salt : String)
      → s' ≡ (set_password R dto now salt s).1
      → InviteStep R hash s s'
  elsewhere : s'.admin_invite_tokens ≡ s.admin_invite_tokens → InviteStep R hash s s'

pub data Invitations ⦃P : Prisma⦄ (R : Runtime) (hash : String) (s : Store) : Store → Type 0 where
  here : Invitations R hash s s
  next : {t u : Store} → Invitations R hash s t → InviteStep R hash t u → Invitations R hash s u

module _ ⦃P : Prisma⦄ (R : Runtime) (hash : String) where
  step-IsUsedHash : (s t : Store) → InviteStep R hash s t → IsUsedHash hash s → IsUsedHash hash t
  step-IsUsedHash s t (created dto by other e) =
      rw e ((create_admin-Keeps hash R dto by other).step s)
  step-IsUsedHash s t (resent id by other e) =
      rw e ((resend_invite-Keeps hash R id by other).step s)
  step-IsUsedHash s t (accepted dto now salt e) =
      rw e ((set_password-Keeps hash R dto now salt).step s)
  step-IsUsedHash s t (elsewhere e) = λ h. rw e h

  pub Invitations-IsUsedHash :
      {s t : Store} → Invitations R hash s t → IsUsedHash hash s → IsUsedHash hash t
  Invitations-IsUsedHash here h = h
  Invitations-IsUsedHash (next {t = t} {u = u} before st) h =
      step-IsUsedHash t u st (Invitations-IsUsedHash before h)
