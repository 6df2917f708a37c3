-- ===== src/App/Tasks/Process/Outcome.antt =====
-- What an attempt of the pipeline leaves: of the table of documents it writes the status of its
-- document alone, PROCESSING first and COMPLETED last.
use jenezis.Prelude.{
  false, ℕ, ◌≡◌, ◌≢◌, ◌⊎◌, refl, ap, ◌∙◌, subst, inl, inr, Option-cases, List, Option, none, some,
  Text, Result, ok, raise, value_error, Error, Eq, nat_eq_iff, arith, ℕ_eq, ◌==◌,
}
use jenezis.Storage.Status.{
  DocumentStatus, processing, completed, failed, document_status_eq, validate_status_transition,
}
use jenezis.Storage.Metadata.{
  Document, get_document_by_id, set_status, write_document, check_update, update_document_status,
}
use jenezis.Storage.Metadata.Updates.{update_cases, get-update_document_status}
use jenezis.App.Tasks.{World, written, set_document_status}
use jenezis.App.Tasks.Process.{Setup, process_document}
use jenezis.App.Tasks.Process.Ends.{HasStatus, IsCompleted, Ends, process_document-Ends}

-- A change of status that returns leaves the document with the new status.
Ends-set_document_status :
    {O : Type 0} (i : ℕ) (s : DocumentStatus) (message : Option Text) (w : World O)
    {E : List Document → Type 0}
    → ((d : Document) × (get_document_by_id w.documents i ≡ some d))
    → ((error : Error)
        → update_document_status w.documents i s message ≡ raise error
        → E w.documents)
    → Ends (HasStatus i s) E (set_document_status i s message w)
Ends-set_document_status i s message w {E} here fails =
    go (update_document_status w.documents i s message) refl
  where
    go :
        (m : Result (Option Document × List Document))
        → update_document_status w.documents i s message ≡ m
        → Ends (HasStatus i s) E (written m w)
    go (raise error) h = record { split = fails error h }
    go (ok (r, db)) h = elim (update_cases w.documents i s message h) [
      | inl (absent, _, _) ↦ absurd (cc (here.1, absent))
      | inr (doc, found, _, some_r, _) ↦ record {
        split = (
          set_status doc s message,
          get-update_document_status w.documents i s message h i
              ∙ ground (arith, nat_eq_iff i i, some_r),
          unfold set_status in refl,
        );
      }
    ]

-- A document is never refused a status that its own allows, other than FAILED.
update_allowed :
    (db : List Document) (i : ℕ) (s : DocumentStatus) (message : Option Text) (d : Document)
    (error : Error)
    → get_document_by_id db i ≡ some d
    → validate_status_transition d.status s ≡ ok tt
    → (s == failed) ≡ false
    → update_document_status db i s message ≢ raise error
unfolding update_document_status check_update
update_allowed db i s message d error f v n e =
    let e' : ok (some (set_status d s message), write_document (set_status d s message) db)
        ≡ raise error =
      rw (update_document_status, f, v, n) at e in
    cc e'

processing-completed :
    (s : DocumentStatus) → s ≡ processing → validate_status_transition s completed ≡ ok tt
unfolding validate_status_transition
processing-completed s e = rw e refl

module _ {T O S : Type 0} ⦃e : Eq O⦄ (setup : Setup T O S) (i : ℕ) where
  complete :
      {E : List Document → Type 0} (message : Option Text) (w : World O)
      → HasStatus i processing w.documents
      → Ends (HasStatus i completed) E (set_document_status i completed message w)
  complete message w (d, f, s) =
      Ends-set_document_status i completed message w (d, f)
        (λ error raised. absurd (
          update_allowed w.documents i completed message d error f (processing-completed d.status s)
            refl raised))

  -- An attempt at a document that may become PROCESSING leaves it in the table: COMPLETED where the
  -- attempt returns, and PROCESSING where it raises.
  pub process_document_outcome :
      (w : World O) (doc : Document)
      → get_document_by_id w.documents i ≡ some doc
      → validate_status_transition doc.status processing ≡ ok tt
      → ((process_document setup i w).0 ≡ ok tt)
          × HasStatus i completed (process_document setup i w).1.documents
        ⊎ (error : Error) × ((process_document setup i w).0 ≡ raise error)
          × HasStatus i processing (process_document setup i w).1.documents
  process_document_outcome w doc f v = go (process_document setup i w) (
      process_document-Ends setup i (HasStatus i processing) (HasStatus i completed)
        (HasStatus i processing) (λ db h. h) complete w doc f
        (Ends-set_document_status i processing none w (doc, f)
          (λ error raised.
            absurd (update_allowed w.documents i processing none doc error f v refl raised))))
    where
      go :
          (m : Result (Unit {0}) × World O)
          → Ends (HasStatus i completed) (HasStatus i processing) m
          → (m.0 ≡ ok tt) × HasStatus i completed m.1.documents
            ⊎ (error : Error) × (m.0 ≡ raise error) × HasStatus i processing m.1.documents
      go (ok _, out) h = inl (refl, h.split)
      go (raise error, out) h = inr (error, refl, h.split)

  -- Where an attempt of the task returns, the document is in the table with the status COMPLETED.
  pub process_document-IsCompleted :
      (w out : World O) → process_document setup i w ≡ (ok tt, out) → IsCompleted i out
  unfolding process_document
  process_document-IsCompleted w out h = elim (Option-cases (get_document_by_id w.documents i)) [
    | inl missing ↦
        let h' : (raise value_error, w) ≡ (ok tt, out) = rw (process_document, missing) at h in
        absurd (cc (ap (λ z. z.0) h'))
    | inr (doc, f) ↦
        let whole : Ends (HasStatus i completed) (λ db. Unit {0}) (process_document setup i w) =
          process_document-Ends setup i (HasStatus i processing) (HasStatus i completed)
            (λ db. Unit {0}) (λ db _. tt) complete w doc f
            (Ends-set_document_status i processing none w (doc, f) (λ error _. tt)) in
        (subst (Ends (HasStatus i completed) (λ db. Unit {0})) h whole).split
  ]
