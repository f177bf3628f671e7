-- ===== src/Http.antt =====
-- Nest's exceptions as values, and the monad of the request handlers: a handler runs over the
-- state of the service, and what it wrote before it throws stays written.
pub mod Atomic
pub mod Keeps
use gracon_admin_service.Prelude.{
  String, Bool, true, false, Option, none, some, ◌≡◌, refl, ◌⊎◌, inl, inr,
}
use gracon_admin_service.Prisma.{DbError, Query, done, failed}

-- The exceptions that the handlers throw, with their messages; `database` is an error of the
-- database client that no handler catches, which Nest answers with a bare 500.
pub data HttpException : Type 0 where
  bad_request unauthorized forbidden not_found conflict internal unavailable :
      String → HttpException
  database : DbError → HttpException

pub data Reply {ℓ} (A : Type ℓ) : Type ℓ where
  ok : A → Reply A
  throw : HttpException → Reply A

pub Reply-cases :
    {A : Type 0} (r : Reply A) → ((e : HttpException) × (r ≡ throw e)) ⊎ ((a : A) × (r ≡ ok a))
Reply-cases (ok a) = inr (a, refl)
Reply-cases (throw e) = inl (e, refl)

abbrev pub Handler : Type 0 → Type 0 → Type 0
Handler S A = S → Reply A × S

module _ {S A : Type 0} where
  unfoldable pub pure : A → Handler S A
  pure a s = (ok a, s)

  unfoldable pub raise : HttpException → Handler S A
  raise e s = (throw e, s)

  -- Reads the state.
  unfoldable pub gets : (S → A) → Handler S A
  gets f s = (ok (f s), s)

  -- `x ?? throw e`
  unfoldable pub require : Option A → HttpException → Handler S A
  require none e s = (throw e, s)
  require (some a) e s = (ok a, s)

  abbrev rolled_back : S → Reply A × S → Reply A × S
  rolled_back s (ok a, s') = (ok a, s')
  rolled_back s (throw e, s') = (throw e, s)

  -- `prisma.$transaction`: all of its writes, or none.
  unfoldable pub transaction : Handler S A → Handler S A
  transaction m s = rolled_back s (m s)

  abbrev swallowed : A → Reply A × S → Reply A × S
  swallowed a (ok b, s) = (ok b, s)
  swallowed a (throw e, s) = (ok a, s)

  -- `try { … } catch { log }`.
  unfoldable pub recover : A → Handler S A → Handler S A
  recover a m s = swallowed a (m s)

module _ {S T : Type 0} where
  abbrev stored : Query T → (T → S) → S → Reply (Unit {0}) × S
  stored (done t) put s = (ok tt, put t)
  stored (failed e) put s = (throw (database e), s)

  -- A write to one table; its failure is the handler's, unless a `recover` stands round it.
  unfoldable pub write : (S → Query T) → (S → T → S) → Handler S (Unit {0})
  write q put s = stored (q s) (put s) s

module _ {S T A : Type 0} where
  abbrev inserted : Query (A × T) → (T → S) → S → Reply A × S
  inserted (done (a, t)) put s = (ok a, put t)
  inserted (failed e) put s = (throw (database e), s)

  -- A write with a result: the id of the row that it creates, or the number of those it changes.
  unfoldable pub insert : (S → Query (A × T)) → (S → T → S) → Handler S A
  insert q put s = inserted (q s) (put s) s

module _ {S A : Type 0} where
  abbrev translated : (HttpException → HttpException) → Reply A × S → Reply A × S
  translated f (ok a, s) = (ok a, s)
  translated f (throw e, s) = (throw (f e), s)

  -- `try { … } catch (e) { throw f(e); }`.
  unfoldable pub rethrow : (HttpException → HttpException) → Handler S A → Handler S A
  rethrow f m s = translated f (m s)

module _ {S : Type 0} where
  -- `if (b) throw e;`
  unfoldable pub reject_if : Bool → HttpException → Handler S (Unit {0})
  reject_if true e s = (throw e, s)
  reject_if false e s = (ok tt, s)

  unfoldable pub when : Bool → Handler S (Unit {0}) → Handler S (Unit {0})
  when true m s = m s
  when false m s = (ok tt, s)

module _ {S A B : Type 0} where
  abbrev pub continue : Reply A × S → (A → Handler S B) → Reply B × S
  continue (ok a, s) f = f a s
  continue (throw e, s) f = (throw e, s)

  infixl 5 ◌>>=◌ ◌>>◌
  -- Opening this opens the other ways to build a handler too.
  unfoldable pub ◌>>=◌ : Handler S A → (A → Handler S B) → Handler S B
  unfolding pure raise gets require transaction recover write insert rethrow reject_if when
  ◌>>=◌ m f s = continue (m s) f

  abbrev pub ◌>>◌ : Handler S A → Handler S B → Handler S B
  m >> n = m >>= λ _. n
