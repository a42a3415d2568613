-- ===== src/Session/Rules.antt =====
-- Invariants of requests: one rule for each way in which an endpoint is put together.
use python_vs_go_pos_benchma.Schema.{Db}
use python_vs_go_pos_benchma.Errors.{Error, Result, ok, err}
use python_vs_go_pos_benchma.Session.{
  Session, Action, pure, raise, read, serve, close, begin, ◌>>=◌,
}

-- A request that begins in a database with P leaves one with P.
pub record Keeps {A : Type 0} (P : Db → Type 0) (m : Action A) : Type 0 where
  pub at : (db : Db) → P db → P (serve m db).1

module _ {A B : Type 0} where
  end_by_read :
      (P : Db → Type 0) (r : Result A × Session) (g : A → Session → Result B)
      → P (close r.1)
      → P (close (◌>>=◌ (λ s. r) (λ a s. (g a s, s)) r.1).1)
  end_by_read P (ok a, s) g h = h
  end_by_read P (err e, s) g h = h

module _ {A B : Type 0} {P : Db → Type 0} where
  after_read :
      (r : Result A) (m : A → Action B) (db : Db)
      → ((a : A) → Keeps P (m a))
      → P db
      → P (close (◌>>=◌ (λ s. (r, s)) m (begin db)).1)
  after_read (ok a) m db keep h = (keep a).at db h
  after_read (err e) m db keep h = h

  pub Keeps-read-bind :
      (f : Db → Result A) (m : A → Action B) → ((a : A) → Keeps P (m a)) → Keeps P (read f >>= m)
  Keeps-read-bind f m keep = record { at = λ db h. after_read (f db) m db keep h }

  -- What a request computes from its result leaves the database alone.
  pub Keeps-bind-read :
      (m : Action A) (g : A → Db → Result B) → Keeps P m → Keeps P (m >>= λ a. read (g a))
  Keeps-bind-read m g keep = record {
    at = λ db h. end_by_read P (m (begin db)) (λ a s. g a s.current) (keep.at db h);
  }

  pub Keeps-bind-pure : (m : Action A) (g : A → B) → Keeps P m → Keeps P (m >>= λ a. pure (g a))
  Keeps-bind-pure m g keep = record {
    at = λ db h. end_by_read P (m (begin db)) (λ a s. ok (g a)) (keep.at db h);
  }

module _ {A : Type 0} {P : Db → Type 0} where
  pub Keeps-read : (f : Db → Result A) → Keeps P (read f)
  Keeps-read f = record { at = λ db h. h }

  pub Keeps-pure : (a : A) → Keeps P (pure a)
  Keeps-pure a = record { at = λ db h. h }

  pub Keeps-raise : (e : Error) → Keeps P (raise {A = A} e)
  Keeps-raise e = record { at = λ db h. h }
