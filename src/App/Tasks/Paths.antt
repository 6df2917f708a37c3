-- ===== src/App/Tasks/Paths.antt =====
-- `s3_path.split('/', 1)` in examples/fastapi_app/tasks.py, with the unpacking into a bucket and a key.
use jenezis.Prelude.{
  ◌≡◌, ◌≢◌, refl, Bool-cases, inl, inr, [], ◌∷◌, ◌++◌, All, nat_eq, nat_eq_iff, Text, Result, ok,
  raise, ◌>>=◌, value_error, if◌then◌else◌,
}

-- Without a slash the unpacking raises ValueError.
unfoldable pub split_path : Text → Result (Text × Text)
split_path [] = raise value_error
split_path (c ∷ s) =
    let rest = (do (bucket, key) ← split_path s; ok (c ∷ bucket, key)) in
    if nat_eq c b'/' then ok ([], s) else rest

-- The bucket and the key come back from the path of an object, where the bucket has no slash.
pub split_path-append :
    (bucket key : Text)
    → All (λ c. c ≢ b'/') bucket
    → split_path (bucket ++ b'/' ∷ key) ≡ ok (bucket, key)
unfolding split_path
split_path-append [] key h = refl
split_path-append (c ∷ bucket) key h = elim (Bool-cases (nat_eq c b'/')) [
  | inl slash ↦ absurd (h.0 ((nat_eq_iff c b'/').0 slash))
  | inr other ↦ rw (other, split_path-append bucket key h.1) refl
]
