-- ===== src/Models.antt =====
-- internal/models: the records that the repositories return. Floats, the values of a JSON object and
-- times are parameters; a `map[string]any` that is nil is `none`.
use vector_sync.Base.{ℕ, String, List, Option}
use vector_sync.Base.Int.{ℤ}
use vector_sync.Base.Text.{Bytes}

abbrev pub Metadata : Type 0 → Type 0
Metadata V = Option (List (String × V))

pub record Collection (V : Type 0) : Type 0 where
  pub id : String
  pub name : String
  pub vector_dimension : ℤ
  pub distance_metric : String
  pub metadata_schema : Metadata V
  pub embedding_provider : String
  pub embedding_model : String
  pub created_at : ℕ
  pub updated_at : ℕ
  pub document_count : ℤ

pub record Document (F V : Type 0) : Type 0 where
  pub id : String
  pub collection_id : String
  pub vector : List F
  pub metadata : Metadata V
  pub content : Bytes
  pub created_at : ℕ
  pub updated_at : ℕ
