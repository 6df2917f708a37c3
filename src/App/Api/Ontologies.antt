-- ===== src/App/Api/Ontologies.antt =====
-- The endpoints for ontologies of examples/fastapi_app/main.py.
use jenezis.Prelude.{
  ◌>=>◌, pure, ℕ, suc, List, [], ◌∷◌, ◌++◌, map, elem, none, some, Text, Text_eq, Json, Result, ok,
  raise, integrity_error, http_error, if◌then◌else◌,
}
use jenezis.App.Api.{Server, Ontology, find_ontology}

module _ {B O : Type 0} where
  -- `db.add(new_ontology); await db.commit()`: `name` is unique. A refused INSERT uses up its identifier
  -- too.
  unfoldable pub insert_ontology : Text → Json → Server B O → Result Ontology × Server B O
  insert_ontology name schema_json s =
      let drawn = record s { ontology_ids = suc s.ontology_ids } in
      let new_ontology : Ontology = record {
        id = s.ontology_ids;
        name = name;
        schema_json = schema_json;
      } in
      if elem name (map (λ o. o.name) s.ontologies)
      then (raise integrity_error, drawn)
      else (ok new_ontology, record drawn { ontologies = s.ontologies ++ new_ontology ∷ [] })

  -- `refresh` is the SELECT of `db.refresh`: where it raises, the row stays, as it is committed.
  unfoldable pub create_ontology :
      (ℕ → Result (Unit {0})) → Text → Json → Server B O → Result Ontology × Server B O
  unfolding insert_ontology
  create_ontology refresh name schema_json s =
      insert_ontology name schema_json s >=> λ new_ontology s'.
      pure (refresh new_ontology.id) s' >=> λ _ s''. (ok new_ontology, s'')

  unfoldable pub list_ontologies : Server B O → List Ontology
  list_ontologies s = s.ontologies

  unfoldable pub get_ontology : ℕ → Server B O → Result Ontology
  unfolding find_ontology
  get_ontology ontology_id s = elim (find_ontology ontology_id s.ontologies) [
    | none ↦ raise (http_error 404)
    | some ontology ↦ ok ontology
  ]
