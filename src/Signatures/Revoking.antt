-- ===== src/Signatures/Revoking.antt =====
-- Revoking a signature: the certificate and its key pair together, and once.
use gracon_admin_service.Prelude.{
  ◌⊎◌, String, true, false, Option, none, some, ◌≡◌, refl, ◌==◌, eq_iff, eq_refl, if◌then◌else◌,
  arith, trim, inl, inr, Option-cases,
}
use gracon_admin_service.Prisma.{Prisma, Query, done, failed}
use gracon_admin_service.Http.{Reply, ok, throw, conflict, ◌>>=◌}
use gracon_admin_service.Models.{PersonalCertificate, PersonalKeyPair, Store}
use gracon_admin_service.Audit.{log, log_lem}
use gracon_admin_service.Certificates.{Reviewer, revoke_row}
use gracon_admin_service.Signatures.{
  SignatureRow, active, derive_signature_status, find_signature_or_throw, revoke_signature,
  signature_entry,
}

-- A signature is REVOKED just when its certificate is revoked or its key pair is not active.
pub derive_signature_status_iff :
    (row : SignatureRow)
    → ((derive_signature_status row ≡ active)
        → (row.certificate.is_revoked ≡ false) × (row.key_pair.is_active ≡ true))
      × ((row.certificate.is_revoked ≡ false)
          → (row.key_pair.is_active ≡ true)
          → derive_signature_status row ≡ active)
unfolding derive_signature_status
derive_signature_status_iff row = (λ h. ground arith, λ a b. ground arith)

module _ ⦃P : Prisma⦄ where
  record Joined (id : String) (s : Store) (row : SignatureRow) : Type 0 where
    same_id : row.id ≡ id
    stored : P.find_unique id s.certificates ≡ some row.certificate
    pair : P.find_unique row.certificate.key_pair_id s.key_pairs ≡ some row.key_pair

  Joined-by :
      (id : String) (s : Store) (c : Option PersonalCertificate) (k : Option PersonalKeyPair)
      → P.find_unique id s.certificates ≡ c
      → ((x : PersonalCertificate) → c ≡ some x → P.find_unique x.key_pair_id s.key_pairs ≡ k)
      → (find_signature_or_throw id s ≡ ((find_signature_or_throw id s).0, s))
        × ((row : SignatureRow) → (find_signature_or_throw id s).0 ≡ ok row → Joined id s row)
  unfolding find_signature_or_throw ◌>>=◌
  Joined-by id s none k stored pair = (ground arith, λ row e. ground arith)
  Joined-by id s (some c) none stored pair =
      (ground (arith, pair c refl), λ row e. ground (arith, pair c refl))
  Joined-by id s (some c) (some k) stored pair =
      let own = pair c refl in
      (
        ground arith,
        λ row e. record { same_id = ground arith; stored = ground arith; pair = ground arith },
      )

  join_cases :
      (id : String) (s : Store)
      → (find_signature_or_throw id s ≡ ((find_signature_or_throw id s).0, s))
        × ((row : SignatureRow) → (find_signature_or_throw id s).0 ≡ ok row → Joined id s row)
  join_cases id s = elim (Option-cases (P.find_unique id s.certificates)) [
    | inl missing ↦ Joined-by id s none none missing (λ x e. cc)
    | inr (c, stored) ↦
        Joined-by id s (some c) (P.find_unique c.key_pair_id s.key_pairs) stored
          (λ x e. (let same : c ≡ x = cc in rw same))
  ]

  -- What a revocation shows and does.
  pub record Disabled (id : String) (by : Reviewer) (reason : String) (s s' : Store) : Type 0 where
    pub old : PersonalCertificate
    pub stored : P.find_unique id s.certificates ≡ some old
    pub unrevoked : old.is_revoked ≡ false
    pub pair : PersonalKeyPair
    pub paired : P.find_unique old.key_pair_id s.key_pairs ≡ some pair
    pub was_active : pair.is_active ≡ true
    pub certificates :
        (j : String)
        → P.find_unique j s'.certificates ≡ (
            if id == j
            then some (record old {
              is_revoked = true;
              revoked_at = some by.now;
              revoked_reason = some reason;
            })
            else P.find_unique j s.certificates)
    pub key_pairs :
        (j : String)
        → P.find_unique j s'.key_pairs ≡ (
            if old.key_pair_id == j
            then some (record pair { is_active = false })
            else P.find_unique j s.key_pairs)
    pub rest : s' ≡ record s {
      certificates = s'.certificates;
      key_pairs = s'.key_pairs;
      audit_logs = s'.audit_logs;
    }

  -- The checks and the two writes of a revocation that succeeds.
  record Committed (id : String) (by : Reviewer) (reason : String) (s s' : Store)
      (old : SignatureRow) : Type 0 where
    live : (old.certificate.is_revoked ≡ false) × (old.key_pair.is_active ≡ true)
    marked : P.update id (revoke_row by.now reason) s.certificates ≡ done s'.certificates
    silenced :
        P.update old.certificate.key_pair_id (λ k. record k { is_active = false }) s.key_pairs
        ≡ done s'.key_pairs
    rest : s' ≡ record s {
      certificates = s'.certificates;
      key_pairs = s'.key_pairs;
      audit_logs = s'.audit_logs;
    }

  Committed-by :
      (id : String) (by : Reviewer) (raw : String) (s s' : Store) (row old : SignatureRow)
      (q : Query (P.Table PersonalCertificate)) (p : Query (P.Table PersonalKeyPair))
      → find_signature_or_throw id s ≡ (ok old, s)
      → old.id ≡ id
      → P.update old.id (revoke_row by.now (trim raw)) s.certificates ≡ q
      → P.update old.certificate.key_pair_id (λ k. record k { is_active = false }) s.key_pairs ≡ p
      → revoke_signature id by raw s ≡ (ok row, s')
      → Committed id by (trim raw) s s' old
  unfolding revoke_signature derive_signature_status ◌>>=◌
  Committed-by id by raw s s' row old (failed e) p found same made off h = absurd (ground arith)
  Committed-by id by raw s s' row old (done t) (failed e) found same made off h =
      absurd (ground arith)
  Committed-by id by raw s s' row old (done t) (done u) found same made off h =
      let mid : Store = record s { certificates = t; key_pairs = u } in
      let entry = signature_entry by old.id old.certificate (trim raw) in
      let told = log_lem entry mid in
      let after : Store = (log entry mid).1 in
      let reread = (join_cases id after).0 in
      let end : s' ≡ after = ground (arith, told, reread) in
      let notified : s' ≡ record mid { audit_logs = s'.audit_logs } =
        rw end (ground (arith, told)) in
      record {
        live = ground arith;
        marked = rw notified (ground (arith, same));
        silenced = rw notified off;
        rest = rw notified refl;
      }

  Disabled-by :
      (id : String) (by : Reviewer) (raw : String) (s s' : Store) (row : SignatureRow)
      (r : Reply SignatureRow)
      → (find_signature_or_throw id s).0 ≡ r
      → revoke_signature id by raw s ≡ (ok row, s')
      → Disabled id by (trim raw) s s'
  unfolding revoke_signature ◌>>=◌
  Disabled-by id by raw s s' row (throw e) found h = absurd (ground (arith, (join_cases id s).0))
  Disabled-by id by raw s s' row (ok old) found h =
      let (kept, joined) = join_cases id s in
      let j = joined old found in
      let made =
        Committed-by id by raw s s' row old _ _ (ground (arith, kept)) j.same_id refl refl h in
      let stored = j.stored in
      let paired = j.pair in
      record {
        old = old.certificate;
        stored = stored;
        unrevoked = made.live.0;
        pair = old.key_pair;
        paired = paired;
        was_active = made.live.1;
        certificates = λ i.
            (let law =
                P.find_unique-update id (revoke_row by.now (trim raw)) s.certificates
                  s'.certificates i made.marked in
              ground (arith, law, stored, eq_iff id i));
        key_pairs = λ i.
            (let law =
                P.find_unique-update old.certificate.key_pair_id
                  (λ k. record k { is_active = false }) s.key_pairs s'.key_pairs i made.silenced in
              ground (arith, law, paired, eq_iff old.certificate.key_pair_id i));
        rest = made.rest;
      }

  -- A revocation succeeds only for a signature whose certificate is stored and not revoked and
  -- whose key pair is active. It marks the certificate with the time and the trimmed reason and
  -- deactivates that key pair; but for the trail nothing else changes.
  pub revoke_signature-Disabled :
      (id : String) (by : Reviewer) (raw : String) (s s' : Store) (row : SignatureRow)
      → revoke_signature id by raw s ≡ (ok row, s')
      → Disabled id by (trim raw) s s'
  revoke_signature-Disabled id by raw s s' row h = Disabled-by id by raw s s' row _ refl h

  refused_on :
      (id : String) (by : Reviewer) (raw : String) (s : Store) (c : PersonalCertificate)
      (k : PersonalKeyPair)
      → P.find_unique id s.certificates ≡ some c
      → P.find_unique c.key_pair_id s.key_pairs ≡ some k
      → (c.is_revoked ≡ true) ⊎ (k.is_active ≡ false)
      → revoke_signature id by raw s ≡ (throw (conflict "Signature is already revoked."), s)
  unfolding revoke_signature find_signature_or_throw derive_signature_status ◌>>=◌
  refused_on id by raw s c k stored paired (inl gone) = ground arith
  refused_on id by raw s c k stored paired (inr off) = ground arith

  -- Two certificates of one key pair go together: after a revocation, every further revocation of
  -- a signature whose certificate has the same key pair, the same signature included, answers 409
  -- and changes nothing.
  pub revoke_signature_final :
      (id other : String) (by again : Reviewer) (raw more : String) (s s' : Store)
      (row : SignatureRow) (old c : PersonalCertificate)
      → revoke_signature id by raw s ≡ (ok row, s')
      → P.find_unique id s.certificates ≡ some old
      → P.find_unique other s'.certificates ≡ some c
      → c.key_pair_id ≡ old.key_pair_id
      → revoke_signature other again more s'
        ≡ (throw (conflict "Signature is already revoked."), s')
  revoke_signature_final id other by again raw more s s' row old c h was stored same =
      let d = revoke_signature-Disabled id by raw s s' row h in
      let known = d.stored in
      let pairs = d.key_pairs c.key_pair_id in
      refused_on other again more s' c (record d.pair { is_active = false }) stored
        (ground (arith, known, pairs, eq_refl c.key_pair_id)) (inr refl)
