-- ===== src/Session.antt =====
-- The database session of a request (python/app/db.py).
-- A request is an action on a session, which holds the tables as they were last committed and as
-- the open transaction sees them. Requests follow one another: no other request runs between two
-- statements of one. What an action has written before it raises stays written until the session
-- ends.
pub mod Rules
use python_vs_go_pos_benchma.Prelude.{Bool, if◌then◌else◌}
use python_vs_go_pos_benchma.Schema.{Db}
use python_vs_go_pos_benchma.Errors.{Error, Result, ok, err}

pub record Session : Type 0 where
  pub committed : Db
  pub current : Db

abbrev pub Action : Type 0 → Type 0
Action A = Session → Result A × Session

module _ {A : Type 0} where
  abbrev pub pure : A → Action A
  pure a s = (ok a, s)

  abbrev pub raise : Error → Action A
  raise e s = (err e, s)

  -- Statements that only read, and what is computed from them.
  abbrev pub read : (Db → Result A) → Action A
  read f s = (f s.current, s)

-- The rest of an action, unless what stands before it has raised.
abbrev pub after : {A B : Type 0} → Result A × Session → (A → Action B) → Result B × Session
after (ok a, s) f = f a s
after (err e, s) f = (err e, s)

infixl 5 ◌>>=◌ ◌>>◌
abbrev pub ◌>>=◌ : {A B : Type 0} → Action A → (A → Action B) → Action B
◌>>=◌ m f s = after (m s) f

abbrev pub ◌>>◌ : {B : Type 0} → Action (Unit {0}) → Action B → Action B
m >> k = m >>= λ _. k

-- A statement that writes.
abbrev pub execute : (Db → Db) → Action (Unit {0})
execute f s = (ok tt, record s { current = f s.current })

-- A write that a constraint refuses.
abbrev pub require : Bool → Error → Action (Unit {0})
require c e s = (if c then ok tt else err e, s)

-- session.commit()
abbrev pub commit : Action (Unit {0})
commit s = (ok tt, record s { committed = s.current })

abbrev pub begin : Db → Session
begin db = record { committed = db; current = db }

-- What is left of a session when its request ends: `get_session` rolls back on an exception, and a
-- session that is closed drops what was not committed. A sequence never goes back.
abbrev pub close : Session → Db
close s = record s.committed { sequences = s.current.sequences }

-- A request on its own session: its result or exception, and the database after it.
abbrev pub serve : {A : Type 0} → Action A → Db → Result A × Db
serve m db = let (r, s) = m (begin db) in (r, close s)
