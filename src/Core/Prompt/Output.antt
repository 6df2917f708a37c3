-- ===== src/Core/Prompt/Output.antt =====
-- `validate_llm_json_output` of jenezis/core/prompt_security.py.
pub mod Checks
use jenezis.Prelude.{
  ℕ, Bool, true, false, not, ◌&&◌, List, [], ◌∷◌, any, elem, is_empty, Option, none, some, Text,
  Text_eq, codes, contains, Json, str, obj, Fields, get_field, Result, ok, raise, value_error,
  if◌then◌else◌,
}
use jenezis.Core.Unicode.{Unicode}

-- The validated dict: each key is there or not.
pub record Plan : Type 0 where
  pub intent : Option Json
  pub parameters : Option Fields

-- `{}`, which callers take for a refusal.
abbrev pub no_plan : Plan
no_plan = record { intent = none; parameters = none }

abbrev pub dangerous_cypher : List Text
dangerous_cypher =
    codes "DETACH DELETE" ∷ codes "DROP " ∷ codes "LOAD CSV" ∷ codes "CALL dbms." ∷ []

-- `intent in allowed_intents`
unfoldable pub is_listed : Json → List Text → Bool
is_listed (str t) allowed_intents = elem t allowed_intents
is_listed _ allowed_intents = false

-- `show` is Python's `str` of a dict.
module _ (u : Unicode) (show : Fields → Text) where
  -- The loop over the dangerous patterns.
  unfoldable pub is_dangerous : Fields → Bool
  is_dangerous params = any (λ p. contains (u.upper p) (u.upper (show params))) dangerous_cypher

  -- The part about the parameters, with the intent that is validated so far.
  unfoldable pub add_parameters : Option Json → Option Json → Plan
  add_parameters intent (some (obj params)) =
      if is_dangerous params then no_plan else record { intent = intent; parameters = some params }
  add_parameters intent _ = record { intent = intent; parameters = none }

  unfoldable pub validate_llm_json_output : Json → List Text → Result Plan
  validate_llm_json_output (obj output) allowed_intents = elim (get_field (codes "intent") output) [
    | none ↦ ok (add_parameters none (get_field (codes "parameters") output))
    | some intent ↦
        if not (is_empty allowed_intents) && not (is_listed intent allowed_intents)
        then ok no_plan
        else ok (add_parameters (some intent) (get_field (codes "parameters") output))
  ]
  validate_llm_json_output _ allowed_intents = raise value_error
