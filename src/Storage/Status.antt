-- ===== src/Storage/Status.antt =====
-- The document state machine of jenezis/storage/metadata_store.py.
pub mod Runs
use jenezis.Prelude.{
  ◌≡◌, refl, ◌↔◌, Bool, true, false, List, [], ◌∷◌, arith, Eq, ◌==◌, if◌then◌else◌, elem, Result,
  ok, raise, invalid_transition,
}

pub data DocumentStatus : Type 0 where
  pending processing completed failed updating deleting : DocumentStatus

-- `==` on two members of the enumeration.
abbrev pub status_eq : DocumentStatus → DocumentStatus → Bool
status_eq pending pending = true
status_eq processing processing = true
status_eq completed completed = true
status_eq failed failed = true
status_eq updating updating = true
status_eq deleting deleting = true
status_eq _ _ = false

pub status_eq_iff : (a b : DocumentStatus) → (status_eq a b ≡ true) ↔ (a ≡ b)
status_eq_iff a b = ground arith

instance abbrev pub document_status_eq : Eq DocumentStatus
document_status_eq = record { beq = status_eq; beq_iff = status_eq_iff }

-- The table of the allowed next statuses.
abbrev pub valid_status_transitions : DocumentStatus → List DocumentStatus
valid_status_transitions pending = processing ∷ deleting ∷ []
valid_status_transitions processing = completed ∷ failed ∷ []
valid_status_transitions completed = updating ∷ deleting ∷ []
valid_status_transitions failed = deleting ∷ []
valid_status_transitions updating = processing ∷ deleting ∷ []
valid_status_transitions deleting = []

unfoldable pub validate_status_transition : DocumentStatus → DocumentStatus → Result (Unit {0})
validate_status_transition current_status new_status =
    if current_status == new_status
    then ok tt
    else if elem new_status (valid_status_transitions current_status)
    then ok tt
    else raise invalid_transition
