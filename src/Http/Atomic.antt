-- ===== src/Http/Atomic.antt =====
-- Handlers that change nothing when they throw: one rule for each way to build a handler.
use gracon_admin_service.Prelude.{Bool, true, false, Option, none, some, ◌≡◌, refl}
use gracon_admin_service.Prisma.{Query, done, failed}
use gracon_admin_service.Http.{
  HttpException, Handler, Reply, ok, throw, pure, gets, require, reject_if, write, transaction,
  rethrow, continue, ◌>>=◌, ◌>>◌,
}

-- When the handler throws, the state is as before.
pub record IsAtomic {S A : Type 0} (m : Handler S A) : Type 0 where
  pub unchanged : (s s' : S) (e : HttpException) → m s ≡ (throw e, s') → s' ≡ s

-- The handler never throws.
pub record IsTotal {S A : Type 0} (m : Handler S A) : Type 0 where
  pub returns : (s s' : S) (e : HttpException) → ¬ (m s ≡ (throw e, s'))

module _ {S A : Type 0} where
  pub IsTotal-pure : (a : A) → IsTotal {S = S} (pure a)
  unfolding ◌>>=◌
  IsTotal-pure a = record { returns = λ s s' e h. cc }

  pub IsAtomic-of_IsTotal : (m : Handler S A) → IsTotal m → IsAtomic m
  IsAtomic-of_IsTotal m t = record { unchanged = λ s s' e h. absurd (t.returns s s' e h) }

  rolled_back_lem :
      (m : Handler S A) (s s' : S) (e : HttpException) (r : Reply A × S)
      → m s ≡ r
      → transaction m s ≡ (throw e, s')
      → s' ≡ s
  unfolding ◌>>=◌
  rolled_back_lem m s s' e (ok a, t) q h = cc (rw q at h)
  rolled_back_lem m s s' e (throw x, t) q h = cc (rw q at h)

  pub IsAtomic-transaction : (m : Handler S A) → IsAtomic (transaction m)
  unfolding ◌>>=◌
  IsAtomic-transaction m = record { unchanged = λ s s' e h. rolled_back_lem m s s' e (m s) refl h }

  rethrown :
      (f : HttpException → HttpException) (m : Handler S A) (s s' : S) (e : HttpException)
      (r : Reply A × S)
      → IsAtomic m
      → m s ≡ r
      → rethrow f m s ≡ (throw e, s')
      → s' ≡ s
  unfolding ◌>>=◌
  rethrown f m s s' e (ok a, t) am q h = cc (rw q at h)
  rethrown f m s s' e (throw x, t) am q h = cc (rw q at h, am.unchanged s t x q)

  pub IsAtomic-rethrow :
      (f : HttpException → HttpException) (m : Handler S A) → IsAtomic m → IsAtomic (rethrow f m)
  unfolding ◌>>=◌
  IsAtomic-rethrow f m am = record { unchanged = λ s s' e h. rethrown f m s s' e (m s) am refl h }

module _ {S T : Type 0} where
  written :
      (q : S → Query T) (put : S → T → S) (s s' : S) (e : HttpException) (r : Query T)
      → q s ≡ r
      → write q put s ≡ (throw e, s')
      → s' ≡ s
  unfolding ◌>>=◌
  written q put s s' e (done t) p h = cc (rw p at h)
  written q put s s' e (failed x) p h = cc (rw p at h)

  pub IsAtomic-write : (q : S → Query T) (put : S → T → S) → IsAtomic (write q put)
  unfolding ◌>>=◌
  IsAtomic-write q put = record { unchanged = λ s s' e h. written q put s s' e (q s) refl h }

module _ {S A B : Type 0} where
  pub IsAtomic-gets :
      (f : S → A) (k : A → Handler S B) → ((a : A) → IsAtomic (k a)) → IsAtomic (gets f >>= k)
  unfolding ◌>>=◌
  IsAtomic-gets f k ak = record { unchanged = λ s s' e h. (ak (f s)).unchanged s s' e h }

  pub IsAtomic-require :
      (o : Option A) (x : HttpException) (k : A → Handler S B)
      → ((a : A) → IsAtomic (k a))
      → IsAtomic (require o x >>= k)
  unfolding ◌>>=◌
  IsAtomic-require none x k ak = record { unchanged = λ s s' e h. cc }
  IsAtomic-require (some a) x k ak = record { unchanged = λ s s' e h. (ak a).unchanged s s' e h }

  continued :
      (m : Handler S A) (k : A → Handler S B) (s s' : S) (e : HttpException) (r : Reply A × S)
      → IsAtomic m
      → ((a : A) → IsTotal (k a))
      → m s ≡ r
      → continue r k ≡ (throw e, s')
      → s' ≡ s
  unfolding ◌>>=◌
  continued m k s s' e (ok a, t) am tk q h = absurd ((tk a).returns t s' e h)
  continued m k s s' e (throw x, t) am tk q h = cc (h, am.unchanged s t x q)

  -- Only what never throws may follow a write.
  pub IsAtomic-bind :
      (m : Handler S A) (k : A → Handler S B)
      → IsAtomic m
      → ((a : A) → IsTotal (k a))
      → IsAtomic (m >>= k)
  unfolding ◌>>=◌
  IsAtomic-bind m k am tk = record {
    unchanged = λ s s' e h. continued m k s s' e (m s) am tk refl h;
  }

  continued_total :
      (k : A → Handler S B) (s' : S) (e : HttpException) (r : Reply A × S)
      → ((x : HttpException) (t : S) → ¬ (r ≡ (throw x, t)))
      → ((a : A) → IsTotal (k a))
      → ¬ (continue r k ≡ (throw e, s'))
  unfolding ◌>>=◌
  continued_total k s' e (ok a, t) tm tk h = (tk a).returns t s' e h
  continued_total k s' e (throw x, t) tm tk h = tm x t refl

  pub IsTotal-bind :
      (m : Handler S A) (k : A → Handler S B)
      → IsTotal m
      → ((a : A) → IsTotal (k a))
      → IsTotal (m >>= k)
  unfolding ◌>>=◌
  IsTotal-bind m k tm tk = record {
    returns = λ s s' e h. continued_total k s' e (m s) (λ x t q. tm.returns s t x q) tk h;
  }

module _ {S B : Type 0} where
  pub IsAtomic-reject_if :
      (b : Bool) (x : HttpException) (m : Handler S B) → IsAtomic m → IsAtomic (reject_if b x >> m)
  unfolding ◌>>=◌
  IsAtomic-reject_if true x m am = record { unchanged = λ s s' e h. cc }
  IsAtomic-reject_if false x m am = record { unchanged = λ s s' e h. am.unchanged s s' e h }
