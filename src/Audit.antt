-- ===== src/Audit.antt =====
-- src/common/audit/audit.service.ts: the audit trail. A failed write is logged by the server and
-- swallowed; the server's own log lines are not modelled.
pub mod Listing
use gracon_admin_service.Prelude.{
  String, none, some, ◌≡◌, refl, ◌⊎◌, inl, inr, ◌==◌, if◌then◌else◌, arith,
}
use gracon_admin_service.Prisma.{Prisma, DbError, Query, done, failed}
use gracon_admin_service.Http.{Reply, ok, Handler, write, recover, ◌>>◌, continue, ◌>>=◌}
use gracon_admin_service.Http.Atomic.{IsTotal}
use gracon_admin_service.Models.{AdminAuditLog, Store}

module _ ⦃P : Prisma⦄ where
  unfoldable pub log : AdminAuditLog → Handler Store (Unit {0})
  log entry =
      recover tt (write (λ s. P.create entry s.audit_logs) (λ s t. record s { audit_logs = t.1 }))

  -- The handler succeeds, and writes nothing but audit entries and mails.
  abbrev pub OnlyNotifies : Handler Store (Unit {0}) → Type 0
  OnlyNotifies m =
      (s : Store)
      → m s ≡ (ok tt, record s { audit_logs = (m s).1.audit_logs; mails = (m s).1.mails })

  -- The trail gained the entry under a fresh id, or the database refused this very entry and the
  -- trail is as before.
  abbrev pub Audited : AdminAuditLog → P.Table AdminAuditLog → P.Table AdminAuditLog → Type 0
  Audited entry before after =
      ((k : String) × (P.find_unique k before ≡ none)
        × ((j : String)
            → P.find_unique j after ≡ (if k == j then some entry else P.find_unique j before)))
      ⊎ ((e : DbError) × (P.create entry before ≡ failed e) × (after ≡ before))

  logged_by :
      (entry : AdminAuditLog) (s : Store) (q : Query (String × P.Table AdminAuditLog))
      → P.create entry s.audit_logs ≡ q
      → Audited entry s.audit_logs (log entry s).1.audit_logs
        × (log entry s ≡ (ok tt, record s { audit_logs = (log entry s).1.audit_logs }))
  unfolding log ◌>>=◌
  logged_by entry s (failed e) made = (inr (e, made, ground arith), ground arith)
  logged_by entry s (done (k, t)) made = (
    inl (
      k,
      P.create_fresh entry s.audit_logs t k made,
      λ j. ground (arith, P.find_unique-create entry s.audit_logs t k j),
    ),
    ground arith,
  )

  pub log-Audited :
      (entry : AdminAuditLog) (s : Store) → Audited entry s.audit_logs (log entry s).1.audit_logs
  log-Audited entry s = (logged_by entry s _ refl).0

  -- Logging succeeds and touches the trail alone.
  pub log_lem :
      (entry : AdminAuditLog) (s : Store)
      → log entry s ≡ (ok tt, record s { audit_logs = (log entry s).1.audit_logs })
  log_lem entry s = (logged_by entry s _ refl).1

  pub log-OnlyNotifies : (entry : AdminAuditLog) → OnlyNotifies (log entry)
  log-OnlyNotifies entry s = ground (arith, log_lem entry s)

  then_notifies :
      (n : Handler Store (Unit {0})) (s : Store) (r : Reply (Unit {0}) × Store)
      → OnlyNotifies n
      → r ≡ (ok tt, record s { audit_logs = r.1.audit_logs; mails = r.1.mails })
      → continue r (λ _. n) ≡ (
        ok tt,
        record s {
          audit_logs = (continue r (λ _. n)).1.audit_logs;
          mails = (continue r (λ _. n)).1.mails;
        },
      )
  then_notifies n s r hn e = ground (arith, hn r.1)

  pub OnlyNotifies-bind :
      (m n : Handler Store (Unit {0})) → OnlyNotifies m → OnlyNotifies n → OnlyNotifies (m >> n)
  unfolding ◌>>=◌
  OnlyNotifies-bind m n hm hn s = then_notifies n s (m s) hn (hm s)

  pub log-IsTotal : (entry : AdminAuditLog) → IsTotal (log entry)
  log-IsTotal entry = record { returns = λ s s' e h. cc (log_lem entry s) }

  pub IsTotal-of_OnlyNotifies : (m : Handler Store (Unit {0})) → OnlyNotifies m → IsTotal m
  IsTotal-of_OnlyNotifies m n = record { returns = λ s s' e h. cc (n s) }
