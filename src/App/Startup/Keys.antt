-- ===== src/App/Startup/Keys.antt =====
-- Who is let in after the start.
use jenezis.Prelude.{
  ℕ, suc, ◌≡◌, refl, true, false, [], ◌∷◌, ◌++◌, is_empty, Option, some, Text, Text_eq, text_eq,
  text_eq_iff, codes, ok, arith,
}
use jenezis.Core.Unicode.{Unicode}
use jenezis.Core.Security.{partition, get_api_key}
use jenezis.Storage.Metadata.{get_api_key_by_hash}
use jenezis.App.Api.{Server}
use jenezis.App.Startup.{is_unset, first_key, provision}

module _ (u : Unicode) (get_key_hash : Text → Text)
    (lower_bearer : u.lower (codes "Bearer") ≡ codes "bearer") where
  admitted :
      (key : Text) (id : ℕ)
      → is_empty key ≡ false
      → get_api_key u get_key_hash
          (some (codes "Bearer " ++ key))
          (record { id = id; key_hash = get_key_hash key; is_active = true } ∷ [])
        ≡ ok id
  unfolding get_api_key get_api_key_by_hash text_eq partition
  admitted key id given =
      rw (lower_bearer, given, (text_eq_iff (get_key_hash key) (get_key_hash key)).1 refl) refl

  -- The start of a server without keys that is given one other than the placeholder returns, and then a
  -- request with this key as its bearer token gets through as the first key. A later start, whatever it
  -- is given, returns and leaves the keys.
  pub provision-admits :
      {B O : Type 0} (key : Text) (s : Server B O)
      → s.api_keys ≡ []
      → is_unset (some key) ≡ false
      → (s' : Server B O) × (provision get_key_hash (some key) s ≡ (ok tt, s'))
        × (get_api_key u get_key_hash (some (codes "Bearer " ++ key)) s'.api_keys
            ≡ ok s.api_key_ids)
        × ((initial : Option Text) → provision get_key_hash initial s' ≡ (ok tt, s'))
  unfolding provision
  provision-admits key s none' set = (
    record s {
      api_keys = first_key get_key_hash s.api_key_ids key ∷ [];
      api_key_ids = suc s.api_key_ids;
    },
    rw (provision, none', set) refl,
    admitted key s.api_key_ids given,
    λ initial. refl,
  )
    where
      given : is_empty key ≡ false
      given = ground arith
