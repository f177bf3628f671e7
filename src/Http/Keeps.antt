-- ===== src/Http/Keeps.antt =====
-- Handlers that carry a relation from the state before to the state after, however they end.
use gracon_admin_service.Prelude.{Bool, true, false, Option, none, some, ◌≡◌, refl, if◌then◌else◌}
use gracon_admin_service.Prisma.{Query, done, failed}
use gracon_admin_service.Http.{
  HttpException, Handler, Reply, ok, throw, pure, raise, gets, require, reject_if, when, write,
  insert, recover, transaction, rethrow, ◌>>=◌,
}

-- A relation between the states that a handler starts and ends in, closed under sequences.
pub record History (S : Type 0) : Type 1 where
  pub Rel : S → S → Type 0
  pub same : (s : S) → Rel s s
  pub chain : (s t u : S) → Rel s t → Rel t u → Rel s u

module _ {S : Type 0} (H : History S) where
  pub record Keeps {A : Type 0} (m : Handler S A) : Type 0 where
    pub step : (s : S) → H.Rel s (m s).1

  module _ {A : Type 0} where
    pub Keeps-pure : (a : A) → Keeps (pure a)
    unfolding ◌>>=◌
    Keeps-pure a = record { step = λ s. H.same s }

    pub Keeps-raise : (e : HttpException) → Keeps (raise {A = A} e)
    unfolding ◌>>=◌
    Keeps-raise e = record { step = λ s. H.same s }

    pub Keeps-gets : (f : S → A) → Keeps (gets f)
    unfolding ◌>>=◌
    Keeps-gets f = record { step = λ s. H.same s }

    pub Keeps-require : (o : Option A) (e : HttpException) → Keeps (require o e)
    unfolding ◌>>=◌
    Keeps-require none e = record { step = λ s. H.same s }
    Keeps-require (some a) e = record { step = λ s. H.same s }

    pub Keeps-if : (b : Bool) (m n : Handler S A) → Keeps m → Keeps n → Keeps (if b then m else n)
    Keeps-if true m n km kn = km
    Keeps-if false m n km kn = kn

    rolled_back_keeps :
        (m : Handler S A) (s : S) (r : Reply A × S)
        → m s ≡ r
        → H.Rel s r.1
        → H.Rel s (transaction m s).1
    unfolding ◌>>=◌
    rolled_back_keeps m s (ok a, t) e k = rw e k
    rolled_back_keeps m s (throw x, t) e k = rw e (H.same s)

    pub Keeps-transaction : (m : Handler S A) → Keeps m → Keeps (transaction m)
    Keeps-transaction m k = record { step = λ s. rolled_back_keeps m s (m s) refl (k.step s) }

    recovered_keeps :
        (a : A) (m : Handler S A) (s : S) (r : Reply A × S)
        → m s ≡ r
        → H.Rel s r.1
        → H.Rel s (recover a m s).1
    unfolding ◌>>=◌
    recovered_keeps a m s (ok b, t) e k = rw e k
    recovered_keeps a m s (throw x, t) e k = rw e k

    pub Keeps-recover : (a : A) (m : Handler S A) → Keeps m → Keeps (recover a m)
    Keeps-recover a m k = record { step = λ s. recovered_keeps a m s (m s) refl (k.step s) }

    rethrown_keeps :
        (f : HttpException → HttpException) (m : Handler S A) (s : S) (r : Reply A × S)
        → m s ≡ r
        → H.Rel s r.1
        → H.Rel s (rethrow f m s).1
    unfolding ◌>>=◌
    rethrown_keeps f m s (ok b, t) e k = rw e k
    rethrown_keeps f m s (throw x, t) e k = rw e k

    pub Keeps-rethrow :
        (f : HttpException → HttpException) (m : Handler S A) → Keeps m → Keeps (rethrow f m)
    Keeps-rethrow f m k = record { step = λ s. rethrown_keeps f m s (m s) refl (k.step s) }

  pub Keeps-reject_if : (b : Bool) (e : HttpException) → Keeps (reject_if b e)
  unfolding ◌>>=◌
  Keeps-reject_if true e = record { step = λ s. H.same s }
  Keeps-reject_if false e = record { step = λ s. H.same s }

  pub Keeps-when : (b : Bool) (m : Handler S (Unit {0})) → Keeps m → Keeps (when b m)
  unfolding ◌>>=◌
  Keeps-when true m k = record { step = λ s. k.step s }
  Keeps-when false m k = record { step = λ s. H.same s }

  module _ {T : Type 0} where
    written_keeps :
        (q : S → Query T) (put : S → T → S) (s : S) (r : Query T)
        → q s ≡ r
        → ((t : T) → q s ≡ done t → H.Rel s (put s t))
        → H.Rel s (write q put s).1
    unfolding ◌>>=◌
    written_keeps q put s (done t) e k = rw e (k t e)
    written_keeps q put s (failed x) e k = rw e (H.same s)

    pub Keeps-write :
        (q : S → Query T) (put : S → T → S)
        → ((s : S) (t : T) → q s ≡ done t → H.Rel s (put s t))
        → Keeps (write q put)
    Keeps-write q put k = record { step = λ s. written_keeps q put s (q s) refl (k s) }

  module _ {A T : Type 0} where
    inserted_keeps :
        (q : S → Query (A × T)) (put : S → T → S) (s : S) (r : Query (A × T))
        → q s ≡ r
        → ((id : A) (t : T) → q s ≡ done (id, t) → H.Rel s (put s t))
        → H.Rel s (insert q put s).1
    unfolding ◌>>=◌
    inserted_keeps q put s (done (id, t)) e k = rw e (k id t e)
    inserted_keeps q put s (failed x) e k = rw e (H.same s)

    pub Keeps-insert :
        (q : S → Query (A × T)) (put : S → T → S)
        → ((s : S) (id : A) (t : T) → q s ≡ done (id, t) → H.Rel s (put s t))
        → Keeps (insert q put)
    Keeps-insert q put k = record { step = λ s. inserted_keeps q put s (q s) refl (k s) }

  module _ {A B : Type 0} where
    continued_keeps :
        (m : Handler S A) (f : A → Handler S B) (s : S) (r : Reply A × S)
        → m s ≡ r
        → H.Rel s r.1
        → ((a : A) → Keeps (f a))
        → H.Rel s ((m >>= f) s).1
    unfolding ◌>>=◌
    continued_keeps m f s (ok a, t) e k kf = rw e (H.chain s t (f a t).1 k ((kf a).step t))
    continued_keeps m f s (throw x, t) e k kf = rw e k

    pub Keeps-bind :
        (m : Handler S A) (f : A → Handler S B)
        → Keeps m
        → ((a : A) → Keeps (f a))
        → Keeps (m >>= f)
    Keeps-bind m f k kf = record { step = λ s. continued_keeps m f s (m s) refl (k.step s) kf }
