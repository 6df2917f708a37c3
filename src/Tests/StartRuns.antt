-- ===== src/Tests/StartRuns.antt =====
-- The start of the application on concrete inputs.
use jenezis.Prelude.{
  ℕ, ◌≡◌, ◌⊎◌, ◌↔◌, refl, Bool, true, false, ◌&&◌, inl, inr, List, [], ◌∷◌, ◌++◌, All, In,
  In-of_elem, elem_of_In, elem, Bool-cases, some, Option, Text, text_eq, text_eq_iff, nat_eq,
  nat_eq_iff, codes, contains, subst, ok, raise, runtime_error, Eq, is_identifier_char, is_letter,
  arith, if◌then◌else◌,
}
use jenezis.Tests.Samples.{ascii}
use jenezis.Tests.ApiRuns.{fresh}
use jenezis.Core.Security.{get_api_key}
use jenezis.Ingestion.Embedder
use jenezis.Ingestion.Extractor
use jenezis.Rag.Generator
use jenezis.Storage.Identifiers.{validate_identifier, matches_pattern}
use jenezis.Storage.Graph.Schema.{
  Kind, vector, property, Index, Database, run_create, create_index, initialize_schema,
}
use jenezis.Storage.Graph.Schema.Idempotent.{schema, IsDocumented, initialize_schema_twice}
use jenezis.App.Api.{Server}
use jenezis.App.Startup.{provision, startup}
use jenezis.App.Startup.Keys.{provision-admits}
use jenezis.App.Startup.Provider.{startup-provider}

abbrev kind_eq : Kind → Kind → Bool
kind_eq (vector m s) (vector n t) = nat_eq m n && text_eq s t
kind_eq property property = true
kind_eq (vector m s) property = false
kind_eq property (vector n t) = false

kind_eq_iff : (k l : Kind) → (kind_eq k l ≡ true) ↔ (k ≡ l)
kind_eq_iff (vector m s) (vector n t) = ground (arith, nat_eq_iff m n, text_eq_iff s t)
kind_eq_iff property property = (λ h. refl, λ h. refl)
kind_eq_iff (vector m s) property = (λ h. cc, λ h. cc)
kind_eq_iff property (vector n t) = (λ h. cc, λ h. cc)

abbrev index_eq : Index → Index → Bool
index_eq i j =
    kind_eq i.kind j.kind && text_eq i.label j.label && text_eq i.property_name j.property_name

index_eq_iff : (i j : Index) → (index_eq i j ≡ true) ↔ (i ≡ j)
index_eq_iff i j = (
  λ h.
      same i j ((kind_eq_iff i.kind j.kind).0 (ground arith))
        ((text_eq_iff i.label j.label).0 (ground arith))
        ((text_eq_iff i.property_name j.property_name).0 (ground arith)),
  λ e. subst (λ k. index_eq i k ≡ true) e (reflexive i),
)
  where
    same :
        (i j : Index)
        → i.kind ≡ j.kind
        → i.label ≡ j.label
        → i.property_name ≡ j.property_name
        → i ≡ j
    same i j e f g x = record { kind = e x; label = f x; property_name = g x }

    reflexive : (i : Index) → index_eq i i ≡ true
    reflexive i =
        rw
          (
            (kind_eq_iff i.kind i.kind).1 refl,
            (text_eq_iff i.label i.label).1 refl,
            (text_eq_iff i.property_name i.property_name).1 refl,
          )
          refl

instance abbrev Index_eq : Eq Index
Index_eq = record { beq = index_eq; beq_iff = index_eq_iff }

-- A database whose errors say that the attribute is indexed.
abbrev falkor : Database
falkor = record {
  create =
      λ index indexes. if elem index indexes then raise runtime_error else ok (index ∷ indexes);
  message = λ error. codes "Attribute 'id' is already indexed";
  lower = λ t. t;
}

falkor-IsDocumented : IsDocumented falkor
unfolding text_eq contains
falkor-IsDocumented = record {
  adds = λ index indexes. elim (Bool-cases (elem index indexes)) [
    | inl present ↦ inr (In-of_elem index indexes present, runtime_error, rw present refl, refl)
    | inr absent ↦ inl (rw absent refl)
  ];
  refuses =
      λ index indexes present. (runtime_error, rw (elem_of_In index indexes present) refl, refl);
}

initialize_schema_twice_example :
    (out : List Index) × (initialize_schema falkor [] ≡ (ok tt, out))
    × All (λ i. In i out) schema
    × ((i : Index) → In i [] → In i out)
    × (initialize_schema falkor out ≡ (ok tt, out))
initialize_schema_twice_example = initialize_schema_twice falkor falkor-IsDocumented []

abbrev hash : Text → Text
hash key = codes "sha:" ++ key

-- `Bearer` in lower case.
abbrev lower_bearer : Text → Text
lower_bearer t = if text_eq t (codes "Bearer") then codes "bearer" else t

provision-admits_example :
    (s' : Server ℕ ℕ) × (provision hash (some (codes "k-1")) fresh ≡ (ok tt, s'))
    × (get_api_key
          (record ascii { lower = lower_bearer })
          hash
          (some (codes "Bearer " ++ codes "k-1"))
          s'.api_keys
        ≡ ok 1)
    × ((initial : Option Text) → provision hash initial s' ≡ (ok tt, s'))
unfolding text_eq
provision-admits_example =
    provision-admits (record ascii { lower = lower_bearer }) hash refl (codes "k-1") fresh refl refl

startup-provider_example :
    ((codes "openai" ≡ codes "openai") ⊎ (codes "openai" ≡ codes "openrouter"))
    × (extractor : Embedder.Client) × (Extractor.init (codes "openai") ≡ ok extractor)
unfolding startup initialize_schema create_index run_create validate_identifier matches_pattern
    is_letter is_identifier_char provision text_eq Embedder.init Generator.init
startup-provider_example =
    startup-provider hash falkor (some (codes "k-1")) (codes "openai") fresh [] Generator.openai
      refl
