-- ===== src/Core/Security/Access.antt =====
-- Who is let in.
use jenezis.Prelude.{
  ℕ, ◌≡◌, ◌≢◌, refl, ap, true, false, not, ◌||◌, List, [], ◌∷◌, ◌++◌, nat_eq, nat_eq_iff, is_empty,
  Option, none, some, Option-cases, Bool-cases, inl, inr, ◌⊎◌, Text, Text_eq, text_eq, text_eq_iff,
  codes, In, ok, raise, http_error, arith,
}
use jenezis.Core.Unicode.{Unicode}
use jenezis.Storage.Metadata.{ApiKey, get_api_key_by_hash}
use jenezis.Core.Security.{partition, get_api_key}

-- The header names an active key: `<scheme> <key>` with the scheme `bearer` in any case.
pub record Grants (u : Unicode) (digest : Text → Text) (header : Text) (db : List ApiKey) (id : ℕ)
    : Type 0 where
  pub scheme : Text
  pub key : Text
  pub row : ApiKey
  pub split : header ≡ scheme ++ b' ' ∷ key
  pub bearer : u.lower scheme ≡ codes "bearer"
  pub given : key ≢ []
  pub stored : In row db
  pub hashed : row.key_hash ≡ digest key
  pub active : row.is_active ≡ true
  pub named : row.id ≡ id

partition_split :
    (s : Text) → is_empty (partition s).1 ≡ false → s ≡ (partition s).0 ++ b' ' ∷ (partition s).1
unfolding partition
partition_split [] h = cc
partition_split (c ∷ s) h = elim (Bool-cases (nat_eq c b' ')) [
  | inl space ↦ rw space (ground (arith, nat_eq_iff c b' '))
  | inr other ↦ rw other (ap (◌∷◌ c) (partition_split s (rw other at h)))
]

nonempty : (s : Text) → is_empty s ≡ false → s ≢ []
nonempty [] h = cc
nonempty (c ∷ s) h = λ e. cc

get_api_key_by_hash-In :
    (db : List ApiKey) (h : Text) (k : ApiKey)
    → get_api_key_by_hash db h ≡ some k
    → In k db × (k.key_hash ≡ h) × (k.is_active ≡ true)
unfolding get_api_key_by_hash
get_api_key_by_hash-In [] h k e = cc
get_api_key_by_hash-In (j ∷ db) h k e =
    ground (arith, text_eq_iff j.key_hash h, get_api_key_by_hash-In db h k)

module _ (u : Unicode) (digest : Text → Text) (db : List ApiKey) where
  -- A request that gets through has a bearer token whose hash is that of an active key, and what
  -- comes back is the identifier of such a key.
  pub get_api_key-Grants :
      (header : Option Text) (id : ℕ)
      → get_api_key u digest header db ≡ ok id
      → (h : Text) × (header ≡ some h) × Grants u digest h db id
  unfolding get_api_key
  get_api_key-Grants none id e = cc
  get_api_key-Grants (some h) id e =
      let (scheme, key) = partition h in
      let given : is_empty key ≡ false = ground arith in
      let bearer : text_eq (u.lower scheme) (codes "bearer") ≡ true = ground arith in
      elim (Option-cases (get_api_key_by_hash db (digest key))) [
        | inl absent ↦ absurd (ground arith)
        | inr (row, found) ↦
            let (stored, hashed, active) = get_api_key_by_hash-In db (digest key) row found in
            (
              h,
              refl,
              record {
                scheme = scheme;
                key = key;
                row = row;
                split = partition_split h given;
                bearer = (text_eq_iff (u.lower scheme) (codes "bearer")).0 bearer;
                given = nonempty key given;
                stored = stored;
                hashed = hashed;
                active = active;
                named = ground arith;
              },
            )
      ]

  -- Every refusal is the status 403, whatever the reason.
  pub get_api_key_refusal :
      (header : Option Text)
      → ((id : ℕ) × (get_api_key u digest header db ≡ ok id))
        ⊎ (get_api_key u digest header db ≡ raise (http_error 403))
  unfolding get_api_key
  get_api_key_refusal none = inr refl
  get_api_key_refusal (some h) =
      elim (Option-cases (get_api_key_by_hash db (digest (partition h).1))) [
        | inl absent ↦ inr (ground arith)
        | inr (row, found) ↦ elim (Bool-cases (is_empty h)) [
          | inl empty ↦ inr (ground arith)
          | inr full ↦
              elim (Bool-cases (
                not (text_eq (u.lower (partition h).0) (codes "bearer"))
                || is_empty (partition h).1)) [
                  | inl bad ↦ inr (ground arith)
                  | inr good ↦ inl (row.id, ground arith)
                ]
        ]
      ]
