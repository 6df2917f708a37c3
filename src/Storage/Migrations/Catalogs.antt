-- ===== src/Storage/Migrations/Catalogs.antt =====
-- The lists of a catalogue, where a table or an index is created and dropped.
use jenezis.Prelude.{
  ◌≡◌, refl, ap, subst, ◌∙◌, Bool, true, false, not, ◌&&◌, ◌||◌, Bool-cases, inl, inr, List, [],
  ◌∷◌, ◌++◌, map, filter, elem, All, Text, Text_eq, text_eq_iff, ◌==◌, ==_refl, arith,
}
use jenezis.Storage.Migrations.{Catalog, Table, Index, table_names, refers_to, is_referred, any}

-- A name that is last in a list and nowhere else is taken off by the filter.
pub filter-last :
    {A : Type 0} (f : A → Text) (name : Text) (xs : List A) (x : A)
    → elem name (map f xs) ≡ false
    → f x ≡ name
    → filter (λ y. not (f y == name)) (xs ++ x ∷ []) ≡ xs
filter-last f name [] x h e = rw (e, ==_refl name) refl
filter-last f name (y ∷ xs) x h e =
    let other : (f y == name) ≡ false =
      ground (arith, text_eq_iff (f y) name, text_eq_iff name (f y)) in
    rw other (ap (◌∷◌ y) (filter-last f name xs x (ground arith) e))

pub elem-last :
    {A : Type 0} (f : A → Text) (name : Text) (xs : List A) (x : A)
    → f x ≡ name
    → elem name (map f (xs ++ x ∷ [])) ≡ true
elem-last f name [] x e = rw (e, ==_refl name) refl
elem-last f name (y ∷ xs) x e = ground (arith, elem-last f name xs x e)

-- Indexes stand on tables that are there, and foreign keys refer to such.
pub record IsClosed (s : Catalog) : Type 0 where
  pub indexed : All (λ i. elem i.table (table_names s.tables) ≡ true) s.indexes
  pub referred :
      (name : Text) → elem name (table_names s.tables) ≡ false → is_referred name s.tables ≡ false

pub filter_kept :
    (name : Text) (names : List Text) (indexes : List Index)
    → elem name names ≡ false
    → All (λ i. elem i.table names ≡ true) indexes
    → filter (λ i. not (i.table == name)) indexes ≡ indexes
filter_kept name names [] h known = refl
filter_kept name names (i ∷ indexes) h known = elim (Bool-cases (i.table == name)) [
  | inl same ↦
      let e : i.table ≡ name = (text_eq_iff i.table name).0 same in
      let known' : elem name names ≡ true = subst (λ t. elem t names ≡ true) e known.0 in
      absurd (cc (known', h))
  | inr other ↦ rw other (ap (◌∷◌ i) (filter_kept name names indexes h known.1))
]

any-append :
    {A : Type 0} (p : A → Bool) (xs ys : List A) → any p (xs ++ ys) ≡ (any p xs || any p ys)
any-append p [] ys = refl
any-append p (x ∷ xs) ys = ground (arith, any-append p xs ys)

pub referred-last :
    (name : Text) (tables : List Table) (t : Table)
    → any (refers_to name) t.constraints ≡ false
    → is_referred name tables ≡ false
    → is_referred name (tables ++ t ∷ []) ≡ false
referred-last name tables t plain h =
    any-append (λ u. not (u.name == name) && any (refers_to name) u.constraints) tables (t ∷ [])
    ∙ rw h (single (not (t.name == name)) plain)
  where
    single :
        (b : Bool)
        → any (refers_to name) t.constraints ≡ false
        → any (λ u. not (u.name == name) && any (refers_to name) u.constraints) (t ∷ []) ≡ false
    single b p = elim (Bool-cases (t.name == name)) [
      | inl same ↦ rw same refl
      | inr other ↦ rw (other, p) refl
    ]

table_names-snoc :
    (name : Text) (tables : List Table) (t : Table)
    → elem name (table_names (tables ++ t ∷ []))
      ≡ (elem name (table_names tables) || name == t.name)
table_names-snoc name [] t = ground arith
table_names-snoc name (u ∷ tables) t = ground (arith, table_names-snoc name tables t)

pub elem-more :
    (name : Text) (tables : List Table) (t : Table)
    → elem name (table_names tables) ≡ true
    → elem name (table_names (tables ++ t ∷ [])) ≡ true
elem-more name tables t h = table_names-snoc name tables t ∙ ground arith

pub elem-less :
    (name : Text) (tables : List Table) (t : Table)
    → elem name (table_names (tables ++ t ∷ [])) ≡ false
    → elem name (table_names tables) ≡ false
elem-less name tables t h = ground (arith, table_names-snoc name tables t)
