-- ===== src/App/Api/Handlers.antt =====
-- What the writes of the handlers for documents keep, the handlers keep.
use jenezis.Prelude.{
  Result, Json, ◌>=>◌, pure, after->=>, ℕ, insert, Result-cases, inl, inr, List, Option, Text,
  Text_eq, ℕ_eq, ◌>>◌,
}
use jenezis.App.Tasks.Worker.{Signature}
use jenezis.App.Api.{Server, NewDocument, insert_document, send}
use jenezis.App.Api.Ontologies.{insert_ontology, create_ontology}
use jenezis.App.Api.Documents.{
  Web, Upload, s3_key, new_document, receive, check_ontology, check_document, put_object, store,
  replace, upload_document, update_document, delete_document, commit_document, delay,
}

-- What holds of a server, and after every write of the handlers where it holds before.
pub record IsClosed {B O : Type 0} (P : Server B O → Type 0) : Type 0 where
  pub inserts : (new : NewDocument) (t : Server B O) → P t → P (insert_document new t).1
  pub puts :
      (web : Web B) (key : Text) (contents : List B) (t : Server B O)
      → P t
      → P (put_object web key contents t).1
  pub sends : (message : List Signature) (t : Server B O) → P t → P (send message t)

-- What holds behind the insertion of an ontology, holds whether the refresh raises or not.
pub create_ontology-closed :
    {B O : Type 0} (P : Server B O → Type 0) (refresh : ℕ → Result (Unit {0})) (name : Text)
    (schema_json : Json) (s : Server B O)
    → P (insert_ontology name schema_json s).1
    → P (create_ontology refresh name schema_json s).1
unfolding create_ontology
create_ontology-closed P refresh name schema_json s h =
    after->=> P (insert_ontology name schema_json s) _ h
      (λ o t k. after->=> P (pure (refresh o.id) t) _ k (λ _ t' k'. k'))

-- An object changes nothing but the bucket.
pub put_object-closed :
    {B O : Type 0} (P : Server B O → Type 0)
    → ((objects : List (Text × List B)) (t : Server B O) → P t → P (record t { objects = objects }))
    → (web : Web B) (key : Text) (contents : List B) (t : Server B O) → P t
    → P (put_object web key contents t).1
unfolding put_object
put_object-closed P keep web key contents t h =
    elim (Result-cases (web.accept_object key contents)) [
      | inl (_, accepted) ↦ rw (put_object, accepted) (keep (insert key contents t.objects) t h)
      | inr (_, refused) ↦ rw (put_object, refused) h
    ]

module _ {B O : Type 0} (P : Server B O → Type 0) (closed : IsClosed P) (web : Web B) where
  commit_document-closed :
      (new : NewDocument) (t : Server B O) → P t → P (commit_document web new t).1
  unfolding commit_document
  commit_document-closed new t h =
      after->=> P (insert_document new t) _ (closed.inserts new t h)
        (λ job t' k. after->=> P (pure (web.refresh job) t') _ k (λ _ t'' k'. k'))

  delay-closed : (message : List Signature) (t : Server B O) → P t → P (delay web message t).1
  unfolding delay
  delay-closed message t h =
      after->=> P (pure (web.accept_message message) t) _ h (λ _ t' k. closed.sends message t' k)

module _ {B O : Type 0} (P : Server B O → Type 0) (closed : IsClosed P) (s : Server B O) where
  pub upload_document-closed :
      (web : Web B) (file : Upload B) (ontology_id : Option ℕ)
      → P s
      → P (upload_document web file ontology_id s).1
  unfolding upload_document
  upload_document-closed web file ontology_id k =
      after->=> P (pure (receive web file) s) _ k (λ (contents, safe_filename) t k'.
        after->=> P (pure _ t) _ k' (λ _ t' k''. stored contents safe_filename t' k''))
    where
      stored :
          (contents : List B) (name : Text) (t : Server B O)
          → P t
          → P (store web ontology_id contents name t).1
      stored contents name t k' =
          let hash = web.digest contents in
          after->=> P
            (put_object web (s3_key hash name) contents t >=> λ _.
              commit_document web (new_document web hash name ontology_id))
            _
            (after->=> P (put_object web (s3_key hash name) contents t) _
              (closed.puts web (s3_key hash name) contents t k')
              (λ _ t' k''.
                commit_document-closed P closed web (new_document web hash name ontology_id) t'
                  k''))
            (λ job t' k''.
              after->=> P (delay web _ t') _ (delay-closed P closed web _ t' k'') (λ _ t'' l. l))

  pub update_document-closed :
      (web : Web B) (document_id : ℕ) (file : Upload B) (ontology_id : Option ℕ)
      → P s
      → P (update_document web document_id file ontology_id s).1
  unfolding update_document
  update_document-closed web document_id file ontology_id k =
      after->=> P
        (pure (check_document document_id s >> check_ontology ontology_id s) s >=> λ _.
          pure (receive web file))
        _ (after->=> P (pure _ s) _ k (λ _ t k'. k'))
        (λ (contents, safe_filename) t k'. replaced contents safe_filename t k')
    where
      replaced :
          (contents : List B) (name : Text) (t : Server B O)
          → P t
          → P (replace web document_id ontology_id contents name t).1
      replaced contents name t k' =
          let hash = web.digest contents in
          after->=> P (commit_document web (new_document web hash name ontology_id) t) _
            (commit_document-closed P closed web (new_document web hash name ontology_id) t k')
            (λ job t' inserted.
              after->=> P (put_object web (s3_key hash name) contents t' >=> λ _. delay web _) _
                (after->=> P (put_object web (s3_key hash name) contents t') _
                  (closed.puts web (s3_key hash name) contents t' inserted)
                  (λ _ t'' put. delay-closed P closed web _ t'' put))
                (λ _ t'' sent. sent))

  pub delete_document-closed :
      (web : Web B) (document_id : ℕ) → P s → P (delete_document web document_id s).1
  unfolding delete_document
  delete_document-closed web document_id k =
      after->=> P (pure (check_document document_id s) s) _ k
        (λ _ t k'. delay-closed P closed web _ t k')
