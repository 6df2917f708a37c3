-- ===== src/Storage/Canonical/Races.antt =====
-- `get_or_create_canonical_node` keeps the names of the canonical nodes unique, also in a race.
use jenezis.Prelude.{
  ℕ, ◌≡◌, refl, ap, Bool, true, false, List, [], ◌∷◌, ◌++◌, append-nil, none, some, inl, inr, arith,
  In, In-append_left, In-append_right, elem, elem-append, Distinct, Distinct-snoc, Text,
  text_eq_iff, Text_eq, Option-cases, Bool-cases, ok,
}
use jenezis.Storage.Canonical.{CanonicalNode, names, find_node, get_or_create_canonical_node}

module _ {E : Type 0} where
  find_node-some :
      (name : Text) (db : List (CanonicalNode E)) (n : CanonicalNode E)
      → find_node name db ≡ some n
      → (n.name ≡ name) × In n db
  unfolding find_node
  find_node-some name [] n h = cc
  find_node-some name (m ∷ db) n h =
      ground (arith, text_eq_iff m.name name, find_node-some name db n)

  find_node-none :
      (name : Text) (db : List (CanonicalNode E))
      → find_node name db ≡ none
      → elem name (names db) ≡ false
  unfolding find_node
  find_node-none name [] h = refl
  find_node-none name (m ∷ db) h =
      ground (arith, text_eq_iff m.name name, text_eq_iff name m.name, find_node-none name db)

  find_node-elem :
      (name : Text) (db : List (CanonicalNode E))
      → elem name (names db) ≡ true
      → (n : CanonicalNode E) × (find_node name db ≡ some n)
  find_node-elem name db h = elim (Option-cases (find_node name db)) [
    | inl absent ↦ cc (find_node-none name db absent)
    | inr found ↦ found
  ]

  names-append : (xs ys : List (CanonicalNode E)) → names (xs ++ ys) ≡ names xs ++ names ys
  names-append [] ys = refl
  names-append (x ∷ xs) ys = ap (◌∷◌ x.name) (names-append xs ys)

  -- What a call promises about the table that other sessions have left.
  pub record Provides (before : List (CanonicalNode E)) (name : Text) (node : CanonicalNode E)
      (after : List (CanonicalNode E)) : Type 0 where
    pub named : node.name ≡ name
    pub stored : In node after
    pub unique : Distinct (names after)
    pub kept : (m : CanonicalNode E) → In m before → In m after

  -- Where the names are unique with what other sessions commit in between, a call never raises: it
  -- returns a stored node of that name, the names stay unique, and no node that this session had
  -- seen is lost.
  pub get_or_create_canonical_node-Provides :
      (seen others : List (CanonicalNode E)) (fresh : ℕ) (name node_type : Text) (embedding : E)
      → Distinct (names seen)
      → Distinct (names (seen ++ others))
      → (node : CanonicalNode E) × (created : Bool) × (after : List (CanonicalNode E))
        × (get_or_create_canonical_node seen others fresh name node_type embedding
            ≡ ok (node, created, after))
        × Provides seen name node after
  unfolding get_or_create_canonical_node
  get_or_create_canonical_node-Provides seen others fresh name node_type embedding d d' =
      elim (Option-cases (find_node name seen)) [
        | inr (n, found) ↦ (
          n,
          false,
          seen,
          ground arith,
          record {
            named = (find_node-some name seen n found).0;
            stored = (find_node-some name seen n found).1;
            unique = d;
            kept = λ m h. h;
          },
        )
        | inl absent ↦ elim (Bool-cases (elem name (names (seen ++ others)))) [
          | inl taken ↦
              let (n, found) = find_node-elem name (seen ++ others) taken in
              (
                n,
                false,
                seen ++ others,
                ground arith,
                record {
                  named = (find_node-some name (seen ++ others) n found).0;
                  stored = (find_node-some name (seen ++ others) n found).1;
                  unique = d';
                  kept = λ m h. In-append_left m seen others h;
                },
              )
          | inr free ↦
              let new_node : CanonicalNode E = record {
                id = fresh;
                node_type = node_type;
                name = name;
                embedding = embedding;
              } in
              (
                new_node,
                true,
                (seen ++ others) ++ new_node ∷ [],
                ground arith,
                record {
                  named = refl;
                  stored = In-append_right new_node (seen ++ others) (new_node ∷ []) (inl refl);
                  unique = rw names-append (Distinct-snoc (names (seen ++ others)) name d' free);
                  kept = λ m h.
                      In-append_left m (seen ++ others) (new_node ∷ [])
                        (In-append_left m seen others h);
                },
              )
        ]
      ]

  find_node-append :
      (name : Text) (xs ys : List (CanonicalNode E))
      → find_node name xs ≡ none
      → find_node name (xs ++ ys) ≡ find_node name ys
  unfolding find_node
  find_node-append name [] ys h = refl
  find_node-append name (x ∷ xs) ys h = ground (arith, find_node-append name xs ys)

  find_node_self : (node : CanonicalNode E) → find_node node.name (node ∷ []) ≡ some node
  unfolding find_node
  find_node_self node = ground (arith, text_eq_iff node.name node.name)

  -- Of two calls for one new name that both miss it in the SELECT, the first to flush creates the
  -- node, and the second returns that node and adds none.
  pub get_or_create_canonical_node_race :
      (seen : List (CanonicalNode E)) (fresh fresh' : ℕ) (name type type' : Text)
      (embedding embedding' : E)
      → find_node name seen ≡ none
      → (node : CanonicalNode E) × (get_or_create_canonical_node seen [] fresh name type embedding
          ≡ ok (node, true, seen ++ node ∷ []))
        × (get_or_create_canonical_node seen (node ∷ []) fresh' name type' embedding'
            ≡ ok (node, false, seen ++ node ∷ []))
  unfolding get_or_create_canonical_node
  get_or_create_canonical_node_race seen fresh fresh' name type type' embedding embedding' absent =
      let node : CanonicalNode E = record {
        id = fresh;
        node_type = type;
        name = name;
        embedding = embedding;
      } in
      (
        node,
        ground (arith, append-nil seen, find_node-none name seen absent),
        ground (
          arith,
          find_node-append name seen (node ∷ []) absent,
          find_node_self node,
          find_node-none name seen absent,
          elem-append name (names seen) (name ∷ []),
          names-append seen (node ∷ []),
          text_eq_iff name name,
        ),
      )
