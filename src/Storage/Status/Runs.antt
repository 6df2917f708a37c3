-- ===== src/Storage/Status/Runs.antt =====
-- Sequences of accepted status changes of one document.
use jenezis.Prelude.{
  ◌≡◌, refl, ◌⊎◌, inl, inr, ◌↔◌, elem, arith, In, In-of_elem, elem_of_In, ok, raise, Bool-cases,
  invalid_transition,
}
use jenezis.Storage.Status.{
  DocumentStatus, document_status_eq, processing, completed, failed, deleting, status_eq,
  status_eq_iff, valid_status_transitions, validate_status_transition,
}

-- The statuses that a document of status `s` passes through, by changes that are not refused.
pub data Moves (s : DocumentStatus) : DocumentStatus → Type 0 where
  here : Moves s s
  next : {t u : DocumentStatus} → Moves s t → validate_status_transition t u ≡ ok tt → Moves s u

-- What the docstring allows: no change, or a line of the table.
abbrev pub IsPermitted : DocumentStatus → DocumentStatus → Type 0
IsPermitted a b = (a ≡ b) ⊎ In b (valid_status_transitions a)

permitted : (a b : DocumentStatus) → IsPermitted a b → validate_status_transition a b ≡ ok tt
unfolding validate_status_transition
permitted a b p = elim (Bool-cases (status_eq a b)) [
  | inl same ↦ rw same
  | inr other ↦ elim p [
    | inl e ↦ cc ((status_eq_iff a b).1 e)
    | inr m ↦ rw (other, elem_of_In b (valid_status_transitions a) m)
  ]
]

not-permitted :
    (a b : DocumentStatus)
    → ¬ IsPermitted a b
    → validate_status_transition a b ≡ raise invalid_transition
unfolding validate_status_transition
not-permitted a b n = elim (Bool-cases (status_eq a b)) [
  | inl same ↦ absurd (n (inl ((status_eq_iff a b).0 same)))
  | inr other ↦ elim (Bool-cases (elem b (valid_status_transitions a))) [
    | inl listed ↦ absurd (n (inr (In-of_elem b (valid_status_transitions a) listed)))
    | inr unlisted ↦ rw (other, unlisted)
  ]
]

pub IsPermitted-of_ok :
    (a b : DocumentStatus) → validate_status_transition a b ≡ ok tt → IsPermitted a b
unfolding validate_status_transition
IsPermitted-of_ok a b h = elim (Bool-cases (status_eq a b)) [
  | inl same ↦ inl ((status_eq_iff a b).0 same)
  | inr other ↦ elim (Bool-cases (elem b (valid_status_transitions a))) [
    | inl listed ↦ inr (In-of_elem b (valid_status_transitions a) listed)
    | inr unlisted ↦ cc (rw (other, unlisted) at h)
  ]
]

-- A change of status is accepted exactly when it keeps the status or stands in the table, and every
-- other change raises InvalidStatusTransitionError.
pub validate_status_transition-IsPermitted :
    (a b : DocumentStatus)
    → ((validate_status_transition a b ≡ ok tt) ↔ IsPermitted a b)
      × ((validate_status_transition a b ≡ raise invalid_transition) ↔ ¬ IsPermitted a b)
validate_status_transition-IsPermitted a b = (
  (IsPermitted-of_ok a b, permitted a b),
  (λ h p. absurd (cc (h, permitted a b p)), not-permitted a b),
)

-- A document marked FAILED can only stay FAILED or be deleted, whatever changes are tried, and a
-- document marked DELETING stays so.
pub Moves-failed :
    {t : DocumentStatus}
    → (Moves failed t → (t ≡ failed) ⊎ (t ≡ deleting)) × (Moves deleting t → t ≡ deleting)
Moves-failed = (from_failed, from_deleting)
  where
    from_deleting : {t : DocumentStatus} → Moves deleting t → t ≡ deleting
    from_deleting here = refl
    from_deleting (next {t} {u} m h) = ground (arith, from_deleting m, IsPermitted-of_ok t u h)

    from_failed : {t : DocumentStatus} → Moves failed t → (t ≡ failed) ⊎ (t ≡ deleting)
    from_failed here = inl refl
    from_failed (next {t} {u} m h) = ground (arith, from_failed m, IsPermitted-of_ok t u h)

enters_from_processing :
    (t u : DocumentStatus)
    → IsPermitted t u
    → (u ≡ completed) ⊎ (u ≡ failed)
    → (t ≡ u) ⊎ (t ≡ processing)
enters_from_processing t u p e = ground arith

ends_through_processing :
    {s t : DocumentStatus}
    → Moves s t
    → (t ≡ completed) ⊎ (t ≡ failed)
    → (t ≡ s) ⊎ Moves s processing
ends_through_processing here e = inl refl
ends_through_processing {s} (next {t} {u} m h) e =
    elim (enters_from_processing t u (IsPermitted-of_ok t u h) e) [
      | inl same ↦ rw (← same) (ends_through_processing m (rw same e))
      | inr before ↦ inr (rw before at m)
    ]

-- A document that is not COMPLETED from the start becomes COMPLETED only after it was PROCESSING,
-- and one that is not FAILED from the start becomes FAILED only after it was PROCESSING.
pub Moves-processing :
    {s : DocumentStatus}
    → (Moves s completed → (completed ≡ s) ⊎ Moves s processing)
      × (Moves s failed → (failed ≡ s) ⊎ Moves s processing)
Moves-processing =
    (λ m. ends_through_processing m (inl refl), λ m. ends_through_processing m (inr refl))
