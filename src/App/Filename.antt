-- ===== src/App/Filename.antt =====
-- `sanitize_filename` of examples/fastapi_app/main.py. `unquote` is urllib's.
pub mod Collapse
pub mod Limit
pub mod Safety
use jenezis.Prelude.{
  ℕ, ◌+◌, ◌-◌, Bool, true, false, not, ◌&&◌, ◌||◌, List, [], ◌∷◌, ◌++◌, map, filter, nat_eq, leb,
  ltb, length, take, is_empty, Option, none, some, Text, Text_eq, codes, delete_char, starts_with,
  is_letter, is_digit, ◌==◌, Result, ok, raise, Error, http_error, if◌then◌else◌,
}
use jenezis.Core.Unicode.{Unicode}

abbrev pub bad_request : Error
bad_request = http_error 400

-- `[a-zA-Z]` under `re.IGNORECASE`, which has four more letters.
unfoldable pub is_scheme_letter : ℕ → Bool
is_scheme_letter c =
    is_letter c || (nat_eq c 0x130 || (nat_eq c 0x131 || (nat_eq c 0x17f || nat_eq c 0x212a)))

-- `[a-zA-Z0-9+.-]*://`
unfoldable pub scheme_ahead : Text → Bool
unfolding is_scheme_letter
scheme_ahead [] = false
scheme_ahead (c ∷ s) =
    let rest = scheme_ahead s in
    if is_scheme_letter c || (is_digit c || (nat_eq c b'+' || (nat_eq c b'.' || nat_eq c b'-')))
    then rest
    else starts_with (codes "://") (c ∷ s)

-- `protocol_pattern.match(s)`
unfoldable pub has_protocol : Text → Bool
unfolding scheme_ahead
has_protocol [] = false
has_protocol (c ∷ s) = is_scheme_letter c && scheme_ahead s

abbrev pub add_char : ℕ → List Text → List Text
add_char c [] = []
add_char c (t ∷ ts) = if nat_eq c b'/' then [] ∷ t ∷ ts else (c ∷ t) ∷ ts

-- The components of a path between its slashes.
unfoldable pub split_slash : Text → List Text
split_slash [] = [] ∷ []
split_slash (c ∷ s) = add_char c (split_slash s)

-- The last component that is neither empty nor `.`, and the empty text if there is none.
unfoldable pub last_name : List Text → Text
last_name [] = []
last_name (t ∷ ts) =
    let rest = last_name ts in if is_empty rest then if t == codes "." then [] else t else rest

-- `PurePosixPath(s.replace('\\', '/')).name`
unfoldable pub basename : Text → Text
unfolding split_slash last_name
basename s = last_name (split_slash (map (λ c. if nat_eq c 92 then b'/' else c) s))

-- `[_.]`
abbrev pub is_mark : ℕ → Bool
is_mark c = nat_eq c b'_' || nat_eq c b'.'

abbrev pub starts_marked : Text → Bool
starts_marked [] = false
starts_marked (c ∷ s) = is_mark c

-- `re.sub(r'[_.]{2,}', '_', s)`: a run of two or more marks becomes one underscore. `inside` says
-- that the character before is a mark.
unfoldable pub collapse : Bool → Text → Text
collapse inside [] = []
collapse inside (c ∷ s) =
    let rest = collapse (is_mark c) s in
    if is_mark c
    then if inside then rest else (if starts_marked s then b'_' else c) ∷ rest
    else c ∷ rest

-- `s.rsplit('.', 1)` where a dot is in `s`.
unfoldable pub rsplit_dot : Text → Option (Text × Text)
rsplit_dot [] = none
rsplit_dot (c ∷ s) = elim (rsplit_dot s) [
  | some (name, ext) ↦ some (c ∷ name, ext)
  | none ↦ if nat_eq c b'.' then some ([], s) else none
]

-- `name[:255 - len(ext) - 1]`: a negative bound counts from the end.
unfoldable pub cut_name : Text → Text → Text
cut_name name ext =
    if leb (length ext + 1) 255
    then take (255 - length ext - 1) name
    else take (length name - (length ext + 1 - 255)) name

unfoldable pub limit_length : Text → Text
unfolding rsplit_dot cut_name
limit_length sanitized =
    if ltb 255 (length sanitized)
    then elim (rsplit_dot sanitized) [
      | none ↦ take 255 sanitized
      | some (name, ext) ↦ if is_empty ext then take 255 name else cut_name name ext ++ (b'.' ∷ ext)
    ]
    else sanitized

module _ (u : Unicode) where
  -- `[\w\-. ]`
  abbrev pub is_safe : ℕ → Bool
  is_safe c = u.is_word c || (nat_eq c b'-' || (nat_eq c b'.' || nat_eq c b' '))

  -- `re.sub(r'[^\w\-. ]', '_', s)`
  abbrev pub replace_unsafe : Text → Text
  replace_unsafe = map (λ c. if is_safe c then c else b'_')

module _ (u : Unicode) (unquote : Text → Text) where
  unfoldable pub sanitize_filename : Text → Result Text
  unfolding basename has_protocol collapse limit_length
  sanitize_filename filename =
      let sanitized = unquote (unquote (delete_char 0 filename)) in
      let name = basename sanitized in
      if is_empty filename
      then raise bad_request
      else if has_protocol sanitized
      then raise bad_request
      else if is_empty name || (name == codes "." || name == codes "..")
      then raise bad_request
      else ok (limit_length (collapse false (replace_unsafe u name)))
