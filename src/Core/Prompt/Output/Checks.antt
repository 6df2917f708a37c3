-- ===== src/Core/Prompt/Output/Checks.antt =====
-- What a validated plan holds.
use jenezis.Prelude.{
  ◌≡◌, ◌≢◌, ap, refl, inl, inr, Bool-cases, true, false, not, ◌&&◌, List, In, In-of_elem, is_empty,
  Option, none, some, Option-cases, Text, Text_eq, codes, Json, str, obj, Fields, get_field, ok,
  raise, value_error, arith, if◌then◌else◌,
}
use jenezis.Core.Unicode.{Unicode}
use jenezis.Core.Prompt.Output.{
  Plan, no_plan, is_listed, is_dangerous, add_parameters, validate_llm_json_output,
}

listed :
    (j : Json) (allowed : List Text)
    → is_listed j allowed ≡ true
    → (t : Text) × (j ≡ str t) × In t allowed
unfolding is_listed
listed (str t) allowed h = (t, refl, In-of_elem t allowed h)
listed _ allowed h = cc

module _ (u : Unicode) (show : Fields → Text) where
  add_parameters_intent :
      (i p : Option Json) (j : Json) → (add_parameters u show i p).intent ≡ some j → i ≡ some j
  unfolding add_parameters
  add_parameters_intent i (some (obj fs)) j h = ground arith
  add_parameters_intent i _ j h = h

  add_parameters_parameters :
      (i p : Option Json) (fs : Fields)
      → (add_parameters u show i p).parameters ≡ some fs
      → (p ≡ some (obj fs)) × (is_dangerous u show fs ≡ false)
  unfolding add_parameters
  add_parameters_parameters i (some (obj gs)) fs h = ground arith
  add_parameters_parameters i _ fs h = cc

  -- Where intents are listed, a plan that comes out of the validation of a dict has no intent or one
  -- of the listed ones, and its parameters are those of the output and hold none of the dangerous
  -- Cypher patterns.
  pub validate_llm_json_output-allowed :
      (output : Fields) (allowed : List Text) (plan : Plan)
      → is_empty allowed ≡ false
      → validate_llm_json_output u show (obj output) allowed ≡ ok plan
      → ((j : Json) → plan.intent ≡ some j → (t : Text) × (j ≡ str t) × In t allowed)
        × ((fs : Fields)
            → plan.parameters ≡ some fs
            → (get_field (codes "parameters") output ≡ some (obj fs))
              × (is_dangerous u show fs ≡ false))
  unfolding validate_llm_json_output
  validate_llm_json_output-allowed output allowed plan given h =
      let params = get_field (codes "parameters") output in
      elim (Option-cases (get_field (codes "intent") output)) [
        | inl absent ↦ (
          λ j e. cc (add_parameters_intent none params j (ground arith)),
          λ fs e. add_parameters_parameters none params fs (ground arith),
        )
        | inr (i, there) ↦ elim (Bool-cases (is_listed i allowed)) [
          | inl good ↦ (
            λ j e.
                let same = add_parameters_intent (some i) params j (ground arith) in
                listed j allowed (ground arith),
            λ fs e. add_parameters_parameters (some i) params fs (ground arith),
          )
          | inr bad ↦
              let refused : plan ≡ no_plan = ground arith in
              (
                λ j e. cc (ap (λ (p : Plan). p.intent) refused),
                λ fs e. cc (ap (λ (p : Plan). p.parameters) refused),
              )
        ]
      ]

  -- The validation of a dict always returns a plan, and what is no dict raises ValueError.
  pub validate_llm_json_output_total :
      (output : Json) (allowed : List Text)
      → ((fs : Fields)
          → output ≡ obj fs
          → (plan : Plan) × (validate_llm_json_output u show output allowed ≡ ok plan))
        × (((fs : Fields) → output ≢ obj fs)
            → validate_llm_json_output u show output allowed ≡ raise value_error)
  unfolding validate_llm_json_output
  validate_llm_json_output_total (obj output) allowed =
      (λ fs e. total (get_field (codes "intent") output), λ n. absurd (n output refl))
    where
      total :
          (intent : Option Json)
          → (plan : Plan) × ((elim intent [
            | none ↦ ok (add_parameters u show none (get_field (codes "parameters") output))
            | some i ↦
                if not (is_empty allowed) && not (is_listed i allowed)
                then ok no_plan
                else ok (add_parameters u show (some i) (get_field (codes "parameters") output))
          ])
              ≡ ok plan)
      total none = (add_parameters u show none (get_field (codes "parameters") output), refl)
      total (some i) = elim (Bool-cases (not (is_empty allowed) && not (is_listed i allowed))) [
        | inl bad ↦ (no_plan, rw bad)
        | inr good ↦
            (add_parameters u show (some i) (get_field (codes "parameters") output), rw good)
      ]
  validate_llm_json_output_total _ allowed = (λ fs e. cc, λ n. refl)
