-- ===== src/Core/Connections/Atomic.antt =====
-- A session writes all or nothing.
use jenezis.Prelude.{◌≡◌, refl, ap, ◌⊎◌, inl, inr, some, Result, ok, raise, Error, Result-cases}
use jenezis.Core.Connections.{Session, commit, get_db_session}

module _ {S A F : Type 0} (check : S → Result (Unit {0})) (factory : F)
    (body : Session S → Result A × Session S) (s : S)
    (whole : (body (record { committed = s; pending = s })).1.committed ≡ s) where
  -- A body that does not commit by itself: where the session returns, the body returned this value, and
  -- the database has the state that the body reached, which the commit accepted; where it raises, the
  -- database is as it was.
  pub get_db_session_atomic :
      ((a : A) × (get_db_session check (some factory) body s
          ≡ (ok a, (body (record { committed = s; pending = s })).1.pending))
        × ((body (record { committed = s; pending = s })).0 ≡ ok a)
        × (check (body (record { committed = s; pending = s })).1.pending ≡ ok tt))
      ⊎ ((error : Error) × (get_db_session check (some factory) body s ≡ (raise error, s)))
  unfolding get_db_session
  get_db_session_atomic = go (body (record { committed = s; pending = s })) refl whole
    where
      go :
          (m : Result A × Session S)
          → body (record { committed = s; pending = s }) ≡ m
          → m.1.committed ≡ s
          → ((a : A) × (get_db_session check (some factory) body s ≡ (ok a, m.1.pending))
              × (m.0 ≡ ok a)
              × (check m.1.pending ≡ ok tt))
            ⊎ ((error : Error) × (get_db_session check (some factory) body s ≡ (raise error, s)))
      go (raise error, session) e w =
          inr (error, rw (get_db_session, e) (ap (λ (x : S). (raise error, x)) w))
      go (ok a, session) e w = elim (Result-cases (check session.pending)) [
        | inl (_, accepted) ↦ inl (a, rw (get_db_session, e, commit, accepted) refl, refl, accepted)
        | inr (error, refused) ↦
            inr
              (error, rw (get_db_session, e, commit, refused) (ap (λ (x : S). (raise error, x)) w))
      ]
