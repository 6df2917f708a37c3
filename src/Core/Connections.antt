-- ===== src/Core/Connections.antt =====
-- Sessions and clients of jenezis/core/connections.py. A session of SQLAlchemy is the state that the
-- database has committed beside the one that the session sees.
pub mod Atomic
use jenezis.Prelude.{Option, none, some, Result, ok, raise, Error, runtime_error, ◌>=>◌}

pub record Session (S : Type 0) : Type 0 where
  pub committed : S
  pub pending : S

-- A client that was not made raises RuntimeError: `get_s3_client`, `get_neo4j_driver`,
-- `get_redis_client`.
unfoldable pub get_client : {C : Type 0} → Option C → Result C
get_client none = raise runtime_error
get_client (some client) = ok client

module _ {S : Type 0} where
  -- `session.commit()`, where the database may refuse the state that the session has reached.
  unfoldable pub commit : (S → Result (Unit {0})) → Session S → Result (Unit {0}) × Session S
  commit check session = elim (check session.pending) [
    | ok _ ↦ (ok tt, record session { committed = session.pending })
    | raise error ↦ (raise error, session)
  ]

  unfoldable pub rollback : Session S → Session S
  rollback session = record session { pending = session.committed }

  -- `except Exception: await session.rollback(); raise`
  abbrev pub or_rollback : {A : Type 0} → Result A × Session S → Result A × Session S
  or_rollback (ok a, session) = (ok a, session)
  or_rollback (raise error, session) = (raise error, rollback session)

  -- `get_db_session` and `get_db_session_dep` around a body; a factory that was not made raises.
  unfoldable pub get_db_session :
      {A F : Type 0}
      → (S → Result (Unit {0}))
      → Option F
      → (Session S → Result A × Session S)
      → S
      → Result A × S
  unfolding commit rollback
  get_db_session check none body s = (raise runtime_error, s)
  get_db_session check (some factory) body s =
      let (result, session) = or_rollback (
        body (record { committed = s; pending = s }) >=> λ a session'.
        (commit check session' >=> λ _ session''. (ok a, session''))) in
      (result, session.committed)
