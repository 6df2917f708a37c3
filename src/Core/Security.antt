-- ===== src/Core/Security.antt =====
-- jenezis/core/security.py. SHA-256 and FastAPI's injection of the header and the session are
-- parameters.
pub mod Access
use jenezis.Prelude.{
  ℕ, Bool, true, false, not, ◌||◌, List, [], ◌∷◌, nat_eq, is_empty, Option, none, some, Text,
  Text_eq, codes, ◌==◌, Result, ok, raise, Error, http_error, if◌then◌else◌,
}
use jenezis.Core.Unicode.{Unicode}
use jenezis.Storage.Metadata.{ApiKey, get_api_key_by_hash}

-- `s.partition(' ')` without its middle: what stands before and behind the first space.
unfoldable pub partition : Text → Text × Text
partition [] = ([], [])
partition (c ∷ s) =
    let (before, behind) = partition s in if nat_eq c b' ' then ([], s) else (c ∷ before, behind)

abbrev pub forbidden : Error
forbidden = http_error 403

module _ (u : Unicode) (get_key_hash : Text → Text) where
  -- The identifier of the key that the header names.
  unfoldable pub get_api_key : Option Text → List ApiKey → Result ℕ
  unfolding partition
  get_api_key none db = raise forbidden
  get_api_key (some api_key_header) db =
      let (scheme, api_key) = partition api_key_header in
      if is_empty api_key_header
      then raise forbidden
      else if not (u.lower scheme == codes "bearer") || is_empty api_key
      then raise forbidden
      else elim (get_api_key_by_hash db (get_key_hash api_key)) [
        | none ↦ raise forbidden
        | some db_api_key ↦ ok db_api_key.id
      ]
