-- ===== src/Users/Identifiers.antt =====
-- Reading a full identifier: nothing is revealed without an attempt to record it.
use gracon_admin_service.Prelude.{
  ℕ, String, true, Option, none, some, [], ◌∷◌, ◌≡◌, refl, ◌==◌, eq_iff, arith, inl, inr,
}
use gracon_admin_service.Prisma.{Prisma, find_first_cases}
use gracon_admin_service.Http.{◌>>=◌, ok}
use gracon_admin_service.Models.{CitizenIdentity, nid_decrypted, number, text, Store}
use gracon_admin_service.Audit.{log, log_lem, Audited, log-Audited}
use gracon_admin_service.Crypto.{Cipher, decrypt}
use gracon_admin_service.Users.{Actor, decrypt_nid, decrypted_entry}

module _ ⦃P : Prisma⦄ (C : Cipher) where
  -- The revealed text is the decryption of what is stored for the user, and its reading stands in
  -- the trail, unless the trail's write failed; nothing else changes.
  pub record Revealed (id : String) (by : Actor) (now : ℕ) (reason nid : String) (s s' : Store)
      : Type 0 where
    pub identity : CitizenIdentity
    pub identity_id : String
    pub stored : P.find_unique identity_id s.citizen_identities ≡ some identity
    pub own : identity.user_id ≡ id
    pub encrypted : String
    pub held : identity.nid_encrypted ≡ some encrypted
    pub opened : decrypt C encrypted ≡ some nid
    pub audited :
        Audited
          (record {
            admin_id = by.admin_id;
            action = nid_decrypted;
            target_user_id = some id;
            ip_address = some by.ip_address;
            metadata = ("accessedAt", number now) ∷ ("reason", text reason) ∷ [];
          })
          s.audit_logs
          s'.audit_logs
    pub rest : s' ≡ record s { audit_logs = s'.audit_logs }

  Revealed-by :
      (id : String) (by : Actor) (now : ℕ) (reason nid : String) (s s' : Store) (k : String)
      (i : CitizenIdentity) (held : Option String)
      → P.find_first (λ _ i. i.user_id == id) s.citizen_identities ≡ some (k, i)
      → P.find_unique k s.citizen_identities ≡ some i
      → (i.user_id == id) ≡ true
      → i.nid_encrypted ≡ held
      → decrypt_nid C id by now reason s ≡ (ok nid, s')
      → Revealed id by now reason nid s s'
  unfolding decrypt_nid ◌>>=◌
  Revealed-by id by now reason nid s s' k i none found stored own held h = absurd (ground arith)
  Revealed-by id by now reason nid s s' k i (some c) found stored own held h = record {
    identity = i;
    identity_id = k;
    stored = stored;
    own = (eq_iff i.user_id id).0 own;
    encrypted = c;
    held = held;
    opened = ground (arith, log_lem (decrypted_entry by nid_decrypted id now reason) s);
    audited = rw done_by (log-Audited (decrypted_entry by nid_decrypted id now reason) s);
    rest = rw done_by;
  }
    where
      done_by : s' ≡ record s {
        audit_logs = (log (decrypted_entry by nid_decrypted id now reason) s).1.audit_logs;
      }
      done_by = ground (arith, log_lem (decrypted_entry by nid_decrypted id now reason) s)

  -- A national identifier is revealed only to one who is recorded, with the reason, unless the
  -- trail's write fails; it is the decryption of the stored one, and nothing else changes.
  pub decrypt_nid-Revealed :
      (id : String) (by : Actor) (now : ℕ) (reason nid : String) (s s' : Store)
      → decrypt_nid C id by now reason s ≡ (ok nid, s')
      → Revealed id by now reason nid s s'
  unfolding decrypt_nid ◌>>=◌
  decrypt_nid-Revealed id by now reason nid s s' h =
      elim (find_first_cases (λ _ i. i.user_id == id) s.citizen_identities) [
        | inl e ↦ absurd (ground arith)
        | inr (k, i, e, stored, own) ↦
            Revealed-by id by now reason nid s s' k i _ e stored own refl h
      ]
