-- ===== src/App/Api/Stalled.antt =====
-- What becomes of an update of a document.
use jenezis.Prelude.{
  ◌>=>◌, pure, >=>-eq-ok, after->=>, ℕ, ◌≡◌, ◌≢◌, refl, sym, ap, ap₂, insert, >>=-eq-ok, subst, ◌∙◌,
  false, Bool-cases, inl, inr, List, [], ◌∷◌, ◌++◌, Option, none, some, Text, Eq, text_eq, Text_eq,
  ℕ_eq, nat_eq, nat_eq_iff, ok, raise, type_error, http_error, arith, ◌>>◌,
}
use jenezis.Storage.Status.{pending}
use jenezis.Storage.Metadata.{Document, get_document_by_id}
use jenezis.Storage.Metadata.Updates.{get-update_document_status}
use jenezis.App.Tasks.{World}
use jenezis.App.Tasks.Keeps.{Survives, delete_document_task-keeps}
use jenezis.App.Tasks.Worker
use jenezis.App.Tasks.Worker.{
  Worker, Signature, signature, document_id_of, run_call, run_rest, run_message,
}
use jenezis.App.Api.{Server, NewDocument, new_row, send}
use jenezis.App.Api.Tables.{get-filter, get_document_by_id-absent}
use jenezis.App.Api.Inserts.{HasTable, not-drawn}
use jenezis.App.Api.Accepted.{
  with_row, commit_document-ok, delay-ok, put_object-ok, get_document_by_id-snoc,
}
use jenezis.App.Api.Documents.{
  Web, Upload, receive, s3_key, new_document, put_object, check_document, check_ontology, replace,
  update_document, commit_document, delay,
}

check_document-missing :
    {B O : Type 0} (i : ℕ) (s : Server B O)
    → get_document_by_id s.world.documents i ≡ none
    → check_document i s ≢ ok tt
check_document-missing i s f h =
    let h' : raise (http_error 404) ≡ ok tt = rw (check_document, f) at h in cc h'

other-Survives :
    (i j : ℕ) (row : Document)
    → nat_eq j i ≡ false
    → Survives (λ db. get_document_by_id db j ≡ some row) i
other-Survives i j row other = record {
  update =
      λ s message db h e. get-update_document_status db i s message e j ∙ ground (arith, h, other);
  delete = λ db doc f marked h. get-filter i j db other ∙ h;
}

-- What Celery documents of a chain: the result of a task is the first argument of the next.
abbrev pub HandsOn : (Signature → Signature) → Type 0
HandsOn hand_on = (call : Signature) → hand_on call ≡ record call { args = none ∷ call.args }

module _ {T O S : Type 0} ⦃e : Eq O⦄ (worker : Worker T O S) (hand_on : Signature → Signature)
    (documented : HandsOn hand_on) where
  run_call-twice :
      (id : ℕ) (w : World O)
      → run_call worker (hand_on (signature Worker.process_document id)) w ≡ (raise type_error, w)
  unfolding run_call text_eq
  run_call-twice id w = rw (documented (signature Worker.process_document id)) refl

  -- The call of the deletion leaves a row with another identifier.
  run_call-delete :
      (i j : ℕ) (row : Document) (w : World O)
      → nat_eq j i ≡ false
      → get_document_by_id w.documents j ≡ some row
      → get_document_by_id (run_call worker (signature Worker.delete_document i) w).1.documents j
        ≡ some row
  unfolding run_call text_eq
  run_call-delete i j row w other f =
      delete_document_task-keeps (λ db. get_document_by_id db j ≡ some row) i
        (other-Survives i j row other) worker.delete_object worker.message w f

  run_message-update :
      (i j : ℕ) (row : Document) (w : World O)
      → nat_eq j i ≡ false
      → get_document_by_id w.documents j ≡ some row
      → get_document_by_id
          (run_message worker hand_on
            (signature Worker.delete_document i ∷ signature Worker.process_document j ∷ [])
            w).1.documents
          j
        ≡ some row
  unfolding run_message run_rest
  run_message-update i j row w other f =
      after->=> (λ w'. get_document_by_id w'.documents j ≡ some row)
        (run_call worker (signature Worker.delete_document i) w) _
        (run_call-delete i j row w other f)
        (λ _ w' f'.
          after->=> (λ w''. get_document_by_id w''.documents j ≡ some row)
            (run_call worker (hand_on (signature Worker.process_document j)) w') _
            (subst (λ m. get_document_by_id m.1.documents j ≡ some row) (sym (run_call-twice j w'))
              f')
            (λ _ w'' f''. f''))

module _ {B O : Type 0} (web : Web B) (document_id : ℕ) (ontology_id : Option ℕ)
    (s : Server B O) where
  -- The message of an update.
  abbrev pub update_message : ℕ → List Signature
  update_message job =
      signature Worker.delete_document document_id ∷ signature Worker.process_document job ∷ []

  -- The server after the three writes.
  abbrev after_writes : List B → Text → Server B O
  after_writes contents name =
      let hash = web.digest contents in
      let stored = with_row (new_document web hash name ontology_id) s in
      send (update_message s.document_ids)
        (record stored { objects = insert (s3_key hash name) contents stored.objects })

  replace-after_writes :
      (contents : List B) (name : Text) (s' : Server B O) (job : ℕ)
      → replace web document_id ontology_id contents name s ≡ (ok job, s')
      → (job ≡ s.document_ids) × (s' ≡ after_writes contents name)
  replace-after_writes contents name s' job h =
      let hash = web.digest contents in
      let new : NewDocument = new_document web hash name ontology_id in
      let (job', s1, committed, rest) = >=>-eq-ok (commit_document web new s) _ h in
      let (number, row) = commit_document-ok web new s s1 job' committed in
      let (_, s3, written', done) =
        >=>-eq-ok
          (put_object web (s3_key hash name) contents s1 >=> λ _. delay web (update_message job')) _
          rest in
      let (_, s2, put, sent) =
        >=>-eq-ok (put_object web (s3_key hash name) contents s1) _ written' in
      let (returned, queued) = delay-ok web (update_message job') job' job s2 s' (rw sent done) in
      let written = put_object-ok web (s3_key hash name) contents s1 s2 put in
      (
        sym returned ∙ number,
        queued
            ∙ ap₂ (λ j u. send (update_message j) u) number
                (written
                  ∙ ap
                      (λ (u : Server B O). record u {
                        objects = insert (s3_key hash name) contents u.objects;
                      })
                      row),
      )

-- The outcome of an update, once its message has run in a worker, from the server `s'` that it left.
pub record IsStalled {B O T S : Type 0} ⦃e : Eq O⦄ (worker : Worker T O S)
    (hand_on : Signature → Signature) (document_id : ℕ) (s s' : Server B O) (job : ℕ) : Type 0 where
  pub row : Document
  pub queued :
      s'.broker
      ≡ s.broker
        ++ (signature Worker.delete_document document_id
            ∷ signature Worker.process_document job
            ∷ [])
          ∷ []
  pub stored :
      get_document_by_id
        (run_message worker hand_on
          (signature Worker.delete_document document_id
            ∷ signature Worker.process_document job
            ∷ [])
          s'.world).1.documents
        job
      ≡ some row
  pub stalled : row.status ≡ pending

module _ {B O T S : Type 0} ⦃e : Eq O⦄ (worker : Worker T O S) (hand_on : Signature → Signature)
    (documented : HandsOn hand_on) (web : Web B) (document_id : ℕ) (file : Upload B)
    (ontology_id : Option ℕ) (s : Server B O) (t : HasTable s) where
  stalled :
      (contents : List B) (name : Text)
      → nat_eq s.document_ids document_id ≡ false
      → IsStalled worker hand_on document_id s
          (after_writes web document_id ontology_id s contents name)
          s.document_ids
  unfolding send
  stalled contents name other =
      let hash = web.digest contents in
      let row : Document = new_row s.document_ids (new_document web hash name ontology_id) in
      record {
        row = row;
        queued = refl;
        stored =
            run_message-update worker hand_on documented document_id s.document_ids row
              (after_writes web document_id ontology_id s contents name).world other
              (get_document_by_id-snoc s.world.documents row
                (not-drawn s.document_ids s.world.documents t.drawn));
        stalled = refl;
      }

  check_document-other :
      check_document document_id s ≡ ok tt → nat_eq s.document_ids document_id ≡ false
  check_document-other h = elim (Bool-cases (nat_eq s.document_ids document_id)) [
    | inr other ↦ other
    | inl same ↦
        let missing =
          get_document_by_id-absent s.document_ids s.world.documents
            (not-drawn s.document_ids s.world.documents t.drawn) in
        absurd (
          check_document-missing document_id s
            (subst (λ i. get_document_by_id s.world.documents i ≡ none)
              ((nat_eq_iff s.document_ids document_id).0 same) missing)
            h)
  ]

  -- Where an update returns a job, the message that it sends deletes the old document and then calls
  -- `process_document`. As Celery hands the result of the first task on as an argument, the second call
  -- has two values for `document_id` and raises: when the message has run, whether the deletion went
  -- well or not, the new document is still PENDING.
  pub update_document-IsStalled :
      (s' : Server B O) (job : ℕ)
      → update_document web document_id file ontology_id s ≡ (ok job, s')
      → IsStalled worker hand_on document_id s s' job
  unfolding update_document
  update_document-IsStalled s' job h =
      let (got, s2, begun, done) =
        >=>-eq-ok
          (pure (check_document document_id s >> check_ontology ontology_id s) s >=> λ _.
            pure (receive web file))
          _ h in
      let (_, s1, checked, read) =
        >=>-eq-ok (pure (check_document document_id s >> check_ontology ontology_id s) s)
          (λ _. pure (receive web file)) begun in
      let same : s2 ≡ s = sym (ap (λ z. z.1) read) ∙ sym (ap (λ z. z.1) checked) in
      let (number, written) =
        replace-after_writes web document_id ontology_id s got.0 got.1 s' job (
          subst (λ u. replace web document_id ontology_id got.0 got.1 u ≡ (ok job, s')) same
            done) in
      let (_, found, _) = >>=-eq-ok (check_document document_id s) _ (ap (λ z. z.0) checked) in
      subst (λ j. IsStalled worker hand_on document_id s s' j) (sym number)
        (subst (λ u. IsStalled worker hand_on document_id s u s.document_ids) (sym written)
          (stalled got.0 got.1 (check_document-other found)))
