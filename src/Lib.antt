-- ===== src/Lib.antt =====
-- The admin service of the platform (src/app.module.ts): a NestJS API by which administrators
-- manage users, certificates and signatures over a PostgreSQL database that it shares with the
-- other services. Its handlers are modelled over one state, the tables and the mails sent.
--
-- Parts, and the files that model them:
-- - Prisma.antt: the database client as an interface, with the documented behaviour of each query
--   as laws; Prisma/ListTable.antt is an implementation in memory that the tests run on. A write
--   may fail at any time.
-- - Http.antt, Http/Atomic.antt: exceptions as values, handlers as a state monad in which writes
--   before an exception stay, `$transaction`, try/catch, and the rules for atomic handlers.
-- - Models.antt: the rows, with the columns that the queries name. The schema is that of the
--   package @gracon/database, which is not in the repository.
-- - Auth.antt and its children: src/modules/auth/admin-auth.service.ts, sessions: `login`,
--   `refresh_tokens` (refreshTokens), `logout`. `Runtime` holds SHA-256, bcrypt and JWT signing as
--   parameters with the laws that the code relies on; `Client` holds the clock and the random token.
--   Spent.antt: the sequences of steps in which a revoked token stays revoked.
-- - Invites.antt and its children: the same file, invitations: `create_admin`,
--   `validate_invite_token`, `set_password`, `resend_invite`. UsedUp.antt: the sequences of steps in
--   which a used invitation stays used; Prisma/Marked.antt: both, for one table.
-- - Access.antt, Access/Rules.antt: src/modules/auth/strategies/admin-jwt.strategy.ts and
--   src/common/guards/admin-auth.guard.ts. Passport's check of signature and expiry is a parameter.
-- - Users.antt and its children: src/modules/users/admin-users.service.ts, the operations that
--   change users and those that reveal identifiers.
-- - Certificates.antt and its children: src/modules/certificates/admin-certificates.service.ts,
--   helpers/admin-certificates.helper.ts and signature-service.client.ts: status, revocation,
--   reissue, bans (Bans, Banning, UserBanning, Lifting) and the review of requests (Review,
--   Reviewing), where the signature service is a parameter that may change the shared database.
-- - Signatures.antt, Signatures/Revoking.antt: src/modules/signatures/admin-signatures.service.ts.
-- - Audit.antt, Mailer.antt, Crypto.antt, Docs.antt, Maintenance.antt: src/common/audit,
--   src/common/mailer, src/common/crypto, src/common/security/docs-auth.middleware.ts,
--   src/common/tasks and src/common/pagination. AES and base64 are parameters.
-- - Prisma/Search.antt, Listing.antt and its children: findMany, optional filters and pages. Rows of
--   one sorting key may stand in another order in every query.
-- - Users/Listing.antt, Users/Detail.antt, Certificates/Listing.antt, Signatures/Listing.antt,
--   Signatures/Documents.antt, Audit/Listing.antt, Verifications.antt with their children: the
--   listings and pages of the same services, of src/modules/audit, src/modules/security-events and
--   src/modules/verifications. What is a table of another service there is an argument.
-- - Stats.antt and its children: src/modules/stats/admin-stats.service.ts, with the rows of the raw
--   SQL queries and the server's time zone (`LocalClock`) as arguments; Cors.antt: src/common/security/cors.config.ts.
-- - Api.antt and its children: the controllers of src/modules and the guard of src/app.module.ts:
--   the methods that may change the state (Context, AccountMethods, CertificateMethods, Controllers),
--   what the guard means for them (Guarding), and whole lives of the service (Lifetime, Finality).
-- - Growth.antt and its children, Http/Keeps.antt: what one operation leaves standing, and how that
--   is carried through a handler.
-- - Prelude.antt and its children: tests, texts and lists; Tests.antt: runs on a small state.
--
-- Time is a number of milliseconds, read once per handler unless the handler says otherwise. The one
-- loop of the code, over the days of a chart, has a round for every millisecond up to its end,
-- which is enough, since each moves on; the other loops are inside the database. Handlers run one at a time; the interleaving of
-- two requests is not modelled. Reads do not fail. Not modelled: the detail page of a certificate
-- with its fingerprint and its downloads, the listings of administrators and of certificate
-- requests, rate limits and the validation of bodies by the framework, the mail templates, and the
-- server's own log lines. Floating-point numbers, number formats and the database's search in texts
-- are parameters.
mod Prelude
pub mod Prisma
pub mod Http
pub mod Models
pub mod Audit
pub mod Crypto
pub mod Access
pub mod Docs
pub mod Maintenance
pub mod Auth
pub mod Mailer
pub mod Invites
pub mod Users
pub mod Certificates
pub mod Signatures
pub mod Growth
pub mod Api
mod Tests
pub mod Listing
pub mod Stats
pub mod Cors
pub mod Verifications
