-- ===== src/Storage/Rows.antt =====
-- The dicts that jenezis/storage/falkor_engine.py receives as rows, their values, and
-- `_sanitize_document`.
pub mod Sanitized
use jenezis.Prelude.{
  ℕ, ◌≡◌, refl, ap, subst, ◌↔◌, Bool, true, false, ◌&&◌, List, [], ◌∷◌, Option, none, some, Text,
  Text_eq, text_eq, text_eq_iff, nat_eq, nat_eq_iff, delete_char, lookup, insert, Eq, ◌==◌,
  eq_of_==, ==_refl, arith, Result, ok, raise, ◌>>=◌, ◌>>◌, value_error, if◌then◌else◌,
}

-- `O` is the type of the values that are neither None, text nor whole number: floats and lists.
pub data Value (O : Type 0) : Type 0 where
  none_value : Value O
  text : Text → Value O
  number : ℕ → Value O
  other : O → Value O

module _ {O : Type 0} ⦃e : Eq O⦄ where
  abbrev pub value_eq : Value O → Value O → Bool
  value_eq none_value none_value = true
  value_eq (text s) (text t) = text_eq s t
  value_eq (number m) (number n) = nat_eq m n
  value_eq (other x) (other y) = x == y
  value_eq _ _ = false

  value_eq_refl : (v : Value O) → value_eq v v ≡ true
  value_eq_refl none_value = refl
  value_eq_refl (text s) = (text_eq_iff s s).1 refl
  value_eq_refl (number n) = (nat_eq_iff n n).1 refl
  value_eq_refl (other x) = ==_refl x

  value_eq_sound : (v w : Value O) → value_eq v w ≡ true → v ≡ w
  value_eq_sound none_value none_value h = refl
  value_eq_sound none_value (text t) h = cc h
  value_eq_sound none_value (number n) h = cc h
  value_eq_sound none_value (other y) h = cc h
  value_eq_sound (text s) none_value h = cc h
  value_eq_sound (text s) (text t) h = ap text ((text_eq_iff s t).0 h)
  value_eq_sound (text s) (number n) h = cc h
  value_eq_sound (text s) (other y) h = cc h
  value_eq_sound (number m) none_value h = cc h
  value_eq_sound (number m) (text t) h = cc h
  value_eq_sound (number m) (number n) h = ap number ((nat_eq_iff m n).0 h)
  value_eq_sound (number m) (other y) h = cc h
  value_eq_sound (other x) none_value h = cc h
  value_eq_sound (other x) (text t) h = cc h
  value_eq_sound (other x) (number n) h = cc h
  value_eq_sound (other x) (other y) h = ap other (eq_of_== x y h)

  pub value_eq_iff : (v w : Value O) → (value_eq v w ≡ true) ↔ (v ≡ w)
  value_eq_iff v w = (value_eq_sound v w, λ p. subst (λ z. value_eq v z ≡ true) p (value_eq_refl v))

  instance abbrev pub Value_eq : Eq (Value O)
  Value_eq = record { beq = value_eq; beq_iff = value_eq_iff }

-- A key of a dict: a text, or an object of another type.
pub data Key : Type 0 where
  text_key : Text → Key
  other_key : Key

-- What the engine's `row.name` reads, and `doc.get(key)`: null where the key is missing.
abbrev pub get : {O : Type 0} → Text → List (Text × Value O) → Value O
get key row = elim (lookup key row) [ none ↦ none_value | some v ↦ v ]

-- `value is None`.
abbrev pub is_none : {O : Type 0} → Value O → Bool
is_none none_value = true
is_none _ = false

-- `is_invalid` is the test for a float that is NaN or infinite.
module _ {O : Type 0} (is_invalid : O → Bool) where
  -- The values that the loop over the items skips.
  abbrev pub is_skipped : Value O → Bool
  is_skipped (other x) = is_invalid x
  is_skipped _ = false

  -- `value.replace("\x00", "")` on a text.
  abbrev pub strip_nulls : Value O → Value O
  strip_nulls (text s) = text (delete_char 0 s)
  strip_nulls v = v

  -- The loop over the items, with the dict built so far.
  unfoldable pub sanitize_items :
      List (Text × Value O) → List (Key × Value O) → List (Text × Value O)
  sanitize_items sanitized [] = sanitized
  sanitize_items sanitized ((other_key, value) ∷ doc) = sanitize_items sanitized doc
  sanitize_items sanitized ((text_key key, value) ∷ doc) =
      sanitize_items
        (if is_skipped value then sanitized else insert key (strip_nulls value) sanitized) doc

  -- The loop over the required keys.
  unfoldable pub check_required : List Text → List (Text × Value O) → Result (Unit {0})
  check_required [] sanitized = ok tt
  check_required (key ∷ required_keys) sanitized =
      if is_none (get key sanitized)
      then raise value_error
      else check_required required_keys sanitized

  unfoldable pub sanitize_document :
      List Text → List (Key × Value O) → Result (List (Text × Value O))
  unfolding sanitize_items check_required
  sanitize_document required_keys doc = do
    let sanitized = sanitize_items [] doc
    check_required required_keys sanitized
    ok sanitized
