-- ===== src/App/Api/Accepted.antt =====
-- What an accepted upload leaves.
use jenezis.Prelude.{
  ◌>=>◌, pure, >=>-eq-ok, ℕ, suc, ◌≡◌, ◌≢◌, refl, sym, ap, ◌∙◌, true, false, List, [], ◌∷◌, ◌++◌,
  All, elem, insert, lookup, lookup-insert, Option, none, some, Text, Text_eq, text_eq_iff, ℕ_eq,
  nat_eq_iff, ok, arith,
}
use jenezis.Storage.Status.{pending}
use jenezis.Storage.Metadata.{Document, get_document_by_id}
use jenezis.App.Tasks.Worker
use jenezis.App.Tasks.Worker.{Signature, signature}
use jenezis.App.Tasks.Paths.{split_path, split_path-append}
use jenezis.App.Api.{Server, NewDocument, refers, hashes, new_row, insert_document, send}
use jenezis.App.Api.Tables.{ids}
use jenezis.App.Api.Inserts.{HasTable, not-drawn}
use jenezis.App.Api.Documents.{
  Web, Upload, receive, s3_key, new_document, put_object, commit_document, delay,
  get_ingestion_status,
}

pub get_document_by_id-snoc :
    (db : List Document) (d : Document)
    → elem d.id (ids db) ≡ false
    → get_document_by_id (db ++ d ∷ []) d.id ≡ some d
unfolding get_document_by_id
get_document_by_id-snoc [] d h = ground (arith, nat_eq_iff d.id d.id)
get_document_by_id-snoc (c ∷ db) d h =
    ground (arith, get_document_by_id-snoc db d, nat_eq_iff c.id d.id, nat_eq_iff d.id c.id)

pub ok-injective : (a b : ℕ) → ok a ≡ ok b → a ≡ b
ok-injective a b h = cc h

module _ {B O : Type 0} where
  abbrev pub with_row : NewDocument → Server B O → Server B O
  with_row new s = record s {
    document_ids = suc s.document_ids;
    world = record s.world { documents = s.world.documents ++ new_row s.document_ids new ∷ [] };
  }

  pub insert_document-ok :
      (new : NewDocument) (s s' : Server B O) (job : ℕ)
      → insert_document new s ≡ (ok job, s')
      → (job ≡ s.document_ids)
        × (s' ≡ with_row new s)
        × (refers new.domain_config_id s.ontologies ≡ true)
        × (elem new.document_hash (hashes s.world.documents) ≡ false)
  unfolding insert_document
  insert_document-ok new s s' job h = ground arith

  pub commit_document-ok :
      (web : Web B) (new : NewDocument) (s s' : Server B O) (job : ℕ)
      → commit_document web new s ≡ (ok job, s')
      → (job ≡ s.document_ids) × (s' ≡ with_row new s)
  unfolding commit_document
  commit_document-ok web new s s' job h =
      let (drawn, t, inserted, rest) = >=>-eq-ok (insert_document new s) _ h in
      let (_, t', read, done) = >=>-eq-ok (pure (web.refresh drawn) t) _ rest in
      let (number, row, _, _) = insert_document-ok new s t drawn inserted in
      (
        sym (ok-injective drawn job (ap (λ z. z.0) done)) ∙ number,
        sym (ap (λ z. z.1) done) ∙ sym (ap (λ z. z.1) read) ∙ row,
      )

  -- Where a message is sent and a value returned, the broker has the message.
  pub delay-ok :
      (web : Web B) (message : List Signature) (a b : ℕ) (s s' : Server B O)
      → (delay web message s >=> λ _ t. (ok a, t)) ≡ (ok b, s')
      → (a ≡ b) × (s' ≡ send message s)
  unfolding delay
  delay-ok web message a b s s' h =
      let (_, t, sent, done) = >=>-eq-ok (delay web message s) _ h in
      let (_, t', accepted, queued) = >=>-eq-ok (pure (web.accept_message message) s) _ sent in
      (
        ok-injective a b (ap (λ z. z.0) done),
        sym (ap (λ z. z.1) done)
            ∙ sym (ap (λ z. z.1) queued)
            ∙ ap (send message) (sym (ap (λ z. z.1) accepted)),
      )

  pub put_object-ok :
      (web : Web B) (key : Text) (contents : List B) (s s' : Server B O)
      → put_object web key contents s ≡ (ok tt, s')
      → s' ≡ record s { objects = insert key contents s.objects }
  unfolding put_object
  put_object-ok web key contents s s' h = ground arith

-- What the acceptance of a file under `job` means: the row is new and PENDING under the sanitized name,
-- its path leads to the object with the contents, and the ingestion is the message sent.
pub record IsAccepted {B O : Type 0} (web : Web B) (file : Upload B) (ontology_id : Option ℕ)
    (s s' : Server B O) (job : ℕ) : Type 0 where
  pub contents : List B
  pub name : Text
  pub row : Document
  pub received : receive web file ≡ ok (contents, name)
  pub fresh : elem job (ids s.world.documents) ≡ false
  pub stored : get_document_by_id s'.world.documents job ≡ some row
  pub status :
      get_ingestion_status job s'
      ≡ ok (record {
        job_id = job;
        filename = name;
        status = pending;
        error = none;
        domain_config_id = ontology_id;
      })
  pub path : split_path row.s3_path ≡ ok (web.bucket, s3_key (web.digest contents) name)
  pub object : lookup (s3_key (web.digest contents) name) s'.objects ≡ some contents
  pub queued : s'.broker ≡ s.broker ++ (signature Worker.process_document job ∷ []) ∷ []

module _ {B O : Type 0} (web : Web B) (slashless : All (λ c. c ≢ b'/') web.bucket) (file : Upload B)
    (ontology_id : Option ℕ) (s : Server B O) (t : HasTable s) where
  status-with_row :
      (new : NewDocument) (u : Server B O)
      → get_document_by_id u.world.documents s.document_ids ≡ some (new_row s.document_ids new)
      → get_ingestion_status s.document_ids u
        ≡ ok (record {
          job_id = s.document_ids;
          filename = new.filename;
          status = pending;
          error = none;
          domain_config_id = new.domain_config_id;
        })
  unfolding get_ingestion_status
  status-with_row new u f = rw (get_ingestion_status, f) refl

  -- The server after the three writes.
  abbrev after_writes : List B → Text → Server B O
  after_writes contents name =
      let hash = web.digest contents in
      send (signature Worker.process_document s.document_ids ∷ []) (
        with_row (new_document web hash name ontology_id)
          (record s { objects = insert (s3_key hash name) contents s.objects }))

  accepted :
      (contents : List B) (name : Text)
      → receive web file ≡ ok (contents, name)
      → IsAccepted web file ontology_id s (after_writes contents name) s.document_ids
  unfolding send
  accepted contents name received =
      let hash = web.digest contents in
      let new : NewDocument = new_document web hash name ontology_id in
      let row : Document = new_row s.document_ids new in
      let found =
        get_document_by_id-snoc s.world.documents row
          (not-drawn s.document_ids s.world.documents t.drawn) in
      record {
        contents = contents;
        name = name;
        row = row;
        received = received;
        fresh = not-drawn s.document_ids s.world.documents t.drawn;
        stored = found;
        status = status-with_row new (after_writes contents name) found;
        path = split_path-append web.bucket (s3_key hash name) slashless;
        object =
            lookup-insert (s3_key hash name) (s3_key hash name) contents s.objects
            ∙ ground (arith, text_eq_iff (s3_key hash name) (s3_key hash name));
        queued = refl;
      }
