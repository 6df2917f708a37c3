-- ===== src/Storage/Migrations/Versions.antt =====
-- The four revisions of alembic/versions/, in their order: 4a9d7c6e3b2f, 1b8a7b3e9c2d, 2c7a8d5b4e3f and
-- 3a2b1c0d9e8f. An index has PostgreSQL's namespace, so `drop_index` needs no table.
use jenezis.Prelude.{Bool, true, false, List, [], ◌∷◌, none, some, Text, codes}
use jenezis.Storage.Migrations.{
  ColumnType, integer, text, boolean, json, float, string, date_time, vector, enum, Column, primary,
  unique, foreign, Operation, create_table, drop_table, create_index, drop_index, add_column,
  drop_column, create_foreign_key, drop_constraint, create_extension, drop_extension,
}

abbrev column : Text → ColumnType → Bool → Column
column name type nullable = record { name = name; type = type; nullable = nullable }

abbrev pub upgrade_initial : List Operation
upgrade_initial =
    create_table (codes "api_keys")
      (column (codes "id") (integer) false
        ∷ column (codes "key_hash") (string (some 64)) false
        ∷ column (codes "description") (string none) true
        ∷ column (codes "is_active") (boolean) false
        ∷ column (codes "created_at") (date_time true) true
        ∷ [])
      ((none, primary (codes "id" ∷ [])) ∷ [])
    ∷ create_index (codes "ix_api_keys_id") (codes "api_keys") (codes "id" ∷ []) false
    ∷ create_index (codes "ix_api_keys_key_hash") (codes "api_keys") (codes "key_hash" ∷ []) true
    ∷ create_table (codes "documents")
        (column (codes "id") (integer) false
          ∷ column (codes "filename") (string none) false
          ∷ column (codes "document_hash") (string (some 64)) false
          ∷ column (codes "s3_path") (string none) false
          ∷ column (codes "status")
              (enum (codes "documentstatus") (
                codes "PENDING"
                ∷ codes "PROCESSING"
                ∷ codes "COMPLETED"
                ∷ codes "FAILED"
                ∷ codes "UPDATING"
                ∷ codes "DELETING"
                ∷ []))
              false
          ∷ column (codes "error_log") (text) true
          ∷ column (codes "created_at") (date_time true) true
          ∷ column (codes "updated_at") (date_time true) true
          ∷ [])
        ((none, primary (codes "id" ∷ [])) ∷ [])
    ∷ create_index (codes "ix_documents_document_hash") (codes "documents")
        (codes "document_hash" ∷ []) true
    ∷ create_index (codes "ix_documents_id") (codes "documents") (codes "id" ∷ []) false
    ∷ []

abbrev pub downgrade_initial : List Operation
downgrade_initial =
    drop_index (codes "ix_documents_id")
    ∷ drop_index (codes "ix_documents_document_hash")
    ∷ drop_table (codes "documents")
    ∷ drop_index (codes "ix_api_keys_key_hash")
    ∷ drop_index (codes "ix_api_keys_id")
    ∷ drop_table (codes "api_keys")
    ∷ []

abbrev pub upgrade_ontology : List Operation
upgrade_ontology =
    create_table (codes "ontologies")
      (column (codes "id") (integer) false
        ∷ column (codes "name") (string none) false
        ∷ column (codes "schema_json") (json) false
        ∷ column (codes "created_at") (date_time false) true
        ∷ [])
      ((none, primary (codes "id" ∷ [])) ∷ (none, unique (codes "name" ∷ [])) ∷ [])
    ∷ create_index (codes "ix_ontologies_id") (codes "ontologies") (codes "id" ∷ []) false
    ∷ add_column (codes "documents") (column (codes "ontology_id") (integer) true)
    ∷ create_foreign_key none (codes "documents") (codes "ontologies") (codes "ontology_id" ∷ [])
    ∷ []

abbrev pub downgrade_ontology : List Operation
downgrade_ontology =
    drop_constraint none (codes "documents")
    ∷ drop_column (codes "documents") (codes "ontology_id")
    ∷ drop_index (codes "ix_ontologies_id")
    ∷ drop_table (codes "ontologies")
    ∷ []

abbrev pub upgrade_rebuild : List Operation
upgrade_rebuild =
    create_extension (codes "vector")
    ∷ create_table (codes "domain_configs")
        (column (codes "id") (integer) false
          ∷ column (codes "name") (string none) false
          ∷ column (codes "schema_json") (json) false
          ∷ column (codes "created_at") (date_time true) true
          ∷ [])
        ((none, primary (codes "id" ∷ [])) ∷ (none, unique (codes "name" ∷ [])) ∷ [])
    ∷ create_index (codes "ix_domain_configs_id") (codes "domain_configs") (codes "id" ∷ []) false
    ∷ create_table (codes "canonical_nodes")
        (column (codes "id") (integer) false
          ∷ column (codes "node_type") (string none) false
          ∷ column (codes "name") (string none) false
          ∷ column (codes "embedding") (vector 1536) false
          ∷ [])
        ((none, primary (codes "id" ∷ [])) ∷ (none, unique (codes "name" ∷ [])) ∷ [])
    ∷ create_index (codes "ix_canonical_nodes_id") (codes "canonical_nodes") (codes "id" ∷ []) false
    ∷ create_index (codes "ix_canonical_nodes_node_type") (codes "canonical_nodes")
        (codes "node_type" ∷ []) false
    ∷ create_table (codes "node_aliases")
        (column (codes "id") (integer) false
          ∷ column (codes "alias") (string none) false
          ∷ column (codes "canonical_node_id") (integer) false
          ∷ column (codes "confidence_score") (float) false
          ∷ [])
        ((none, foreign (codes "canonical_node_id" ∷ []) (codes "canonical_nodes"))
          ∷ (none, primary (codes "id" ∷ []))
          ∷ (none, unique (codes "alias" ∷ []))
          ∷ [])
    ∷ create_index (codes "ix_node_aliases_alias") (codes "node_aliases") (codes "alias" ∷ []) false
    ∷ create_index (codes "ix_node_aliases_id") (codes "node_aliases") (codes "id" ∷ []) false
    ∷ drop_constraint (some (codes "documents_ontology_id_fkey")) (codes "documents")
    ∷ drop_column (codes "documents") (codes "ontology_id")
    ∷ drop_table (codes "ontologies")
    ∷ add_column (codes "documents") (column (codes "domain_config_id") (integer) false)
    ∷ create_foreign_key (some (codes "fk_documents_domain_config")) (codes "documents")
        (codes "domain_configs") (codes "domain_config_id" ∷ [])
    ∷ []

abbrev pub downgrade_rebuild : List Operation
downgrade_rebuild =
    drop_constraint (some (codes "fk_documents_domain_config")) (codes "documents")
    ∷ drop_column (codes "documents") (codes "domain_config_id")
    ∷ create_table (codes "ontologies")
        (column (codes "id") (integer) false
          ∷ column (codes "name") (string none) false
          ∷ column (codes "schema_json") (json) false
          ∷ column (codes "created_at") (date_time false) true
          ∷ [])
        ((some (codes "ontologies_pkey"), primary (codes "id" ∷ []))
          ∷ (some (codes "ontologies_name_key"), unique (codes "name" ∷ []))
          ∷ [])
    ∷ add_column (codes "documents") (column (codes "ontology_id") (integer) true)
    ∷ create_foreign_key (some (codes "documents_ontology_id_fkey")) (codes "documents")
        (codes "ontologies") (codes "ontology_id" ∷ [])
    ∷ drop_index (codes "ix_node_aliases_id")
    ∷ drop_index (codes "ix_node_aliases_alias")
    ∷ drop_table (codes "node_aliases")
    ∷ drop_index (codes "ix_canonical_nodes_node_type")
    ∷ drop_index (codes "ix_canonical_nodes_id")
    ∷ drop_table (codes "canonical_nodes")
    ∷ drop_index (codes "ix_domain_configs_id")
    ∷ drop_table (codes "domain_configs")
    ∷ drop_extension (codes "vector")
    ∷ []

abbrev pub upgrade_queue : List Operation
upgrade_queue =
    create_table (codes "enrichment_queue")
      (column (codes "id") (integer) false
        ∷ column (codes "name") (string none) false
        ∷ column (codes "entity_type") (string none) false
        ∷ column (codes "context_chunk") (text) true
        ∷ column (codes "status")
            (enum (codes "enrichmentstatus")
              (codes "PENDING" ∷ codes "PROCESSING" ∷ codes "COMPLETED" ∷ codes "FAILED" ∷ []))
            false
        ∷ column (codes "created_at") (date_time true) true
        ∷ column (codes "updated_at") (date_time true) true
        ∷ [])
      ((none, primary (codes "id" ∷ [])) ∷ [])
    ∷ create_index (codes "ix_enrichment_queue_id") (codes "enrichment_queue") (codes "id" ∷ [])
        false
    ∷ create_index (codes "ix_enrichment_queue_name") (codes "enrichment_queue") (codes "name" ∷ [])
        false
    ∷ []

abbrev pub downgrade_queue : List Operation
downgrade_queue =
    drop_index (codes "ix_enrichment_queue_name")
    ∷ drop_index (codes "ix_enrichment_queue_id")
    ∷ drop_table (codes "enrichment_queue")
    ∷ []
