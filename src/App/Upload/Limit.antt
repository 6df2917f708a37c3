-- ===== src/App/Upload/Limit.antt =====
-- What is let through, and what is refused with the status 413.
use jenezis.Prelude.{
  ℕ, ◌+◌, ◌≤◌, ◌<◌, ◌≡◌, refl, List, [], ◌∷◌, ◌++◌, ltb, length, length-append, is_empty, Option,
  none, some, Option-cases, Text, arith, Bool, true, false, Bool-cases, inl, inr, ◌⊎◌, ◌≢◌, Result,
  ok, raise, Error, http_error, if◌then◌else◌,
}
use jenezis.App.Upload.{
  max_upload_size_bytes, ParseInt, too_large, check_declared, read_loop, validate_upload_size,
}

-- The bytes before the first empty read.
pub body {ℓ} : {B : Type ℓ} → List (List B) → List B
body [] = []
body (chunk ∷ reads) = let rest = body reads in if is_empty chunk then [] else chunk ++ rest

-- The header is there and not empty, and `int` reads it as a number above 52428800.
pub record DeclaresTooMuch (int : ParseInt) (header : Option Text) : Type 0 where
  pub value : Text
  pub size : ℕ
  pub given : header ≡ some value
  pub full : is_empty value ≡ false
  pub read : int value ≡ some (false, size)
  pub above : 52428800 < size

declares-raise :
    (int : ParseInt) (header : Option Text)
    → DeclaresTooMuch int header
    → check_declared int header ≡ raise too_large
unfolding check_declared
declares-raise int header d =
    let above = d.above in
    let over : ltb 52428800 d.size ≡ true = ground arith in
    rw (d.given, check_declared, d.full, d.read, over) refl

declares_some :
    (int : ParseInt) (t : Text) (number : Bool × ℕ)
    → is_empty t ≡ false
    → int t ≡ some number
    → (check_declared int (some t) ≡ ok tt) ⊎ DeclaresTooMuch int (some t)
unfolding check_declared
declares_some int t (true, size) full read = inl (rw (check_declared, full, read) refl)
declares_some int t (false, size) full read = elim (Bool-cases (ltb 52428800 size)) [
  | inl over ↦ inr (record {
    value = t;
    size = size;
    given = refl;
    full = full;
    read = read;
    above = ground arith;
  })
  | inr fits ↦ inl (rw (check_declared, full, read, fits) refl)
]

declares_cases :
    (int : ParseInt) (header : Option Text)
    → (check_declared int header ≡ ok tt) ⊎ DeclaresTooMuch int header
unfolding check_declared
declares_cases int none = inl refl
declares_cases int (some t) = elim (Bool-cases (is_empty t)) [
  | inl empty ↦ inl (rw empty refl)
  | inr full ↦ elim (Option-cases (int t)) [
    | inl none' ↦ inl (rw (full, none') refl)
    | inr (number, read) ↦ declares_some int t number full read
  ]
]

ok-ne-raise : (m : Result (Unit {0})) (error : Error) → m ≡ ok tt → m ≢ raise error
ok-ne-raise m error h k = cc

module _ {B : Type 0} where
  read_loop_cases :
      (total : ℕ) (reads : List (List B))
      → total ≤ max_upload_size_bytes
      → (total + length (body reads) ≤ max_upload_size_bytes)
          × (read_loop total reads ≡ ok (body reads))
        ⊎ (max_upload_size_bytes < total + length (body reads))
          × (read_loop total reads ≡ raise too_large)
  unfolding read_loop body
  read_loop_cases total [] h = inl (omega arith, refl)
  read_loop_cases total (chunk ∷ reads) h = elim (Bool-cases (is_empty chunk)) [
    | inl last ↦ inl (rw last (omega arith), rw last)
    | inr more ↦ elim (Bool-cases (ltb max_upload_size_bytes (total + length chunk))) [
      | inl over ↦ inr (rw more (ground (arith, length-append chunk (body reads))), rw (more, over))
      | inr fits ↦ elim (read_loop_cases (total + length chunk) reads (ground arith)) [
        | inl (short, e) ↦
            inl (rw more (omega (arith, length-append chunk (body reads))), rw (more, fits, e))
        | inr (long, e) ↦
            inr (rw more (omega (arith, length-append chunk (body reads))), rw (more, fits, e))
      ]
    ]
  ]

  -- A body is returned whole where it has at most 52428800 bytes and its header does not declare more:
  -- it is missing or empty, or `int` reads no number, a negative one, or one of at most 52428800. Every
  -- other body is refused with the status 413.
  pub validate_upload_size_iff :
      (int : ParseInt) (header : Option Text) (reads : List (List B))
      → (¬ DeclaresTooMuch int header)
          × (length (body reads) ≤ 52428800)
          × (validate_upload_size int header reads ≡ ok (body reads))
        ⊎ (DeclaresTooMuch int header ⊎ (52428800 < length (body reads)))
          × (validate_upload_size int header reads ≡ raise (http_error 413))
  unfolding validate_upload_size
  validate_upload_size_iff int header reads = elim (declares_cases int header) [
    | inr bad ↦ inr (inl bad, rw (declares-raise int header bad))
    | inl good ↦ elim (read_loop_cases 0 reads (omega arith)) [
      | inl (short, e) ↦ inl (
        λ d. ok-ne-raise (check_declared int header) too_large good (declares-raise int header d),
        omega arith,
        rw (good, e),
      )
      | inr (long, e) ↦ inr (inr (omega arith), rw (good, e))
    ]
  ]
