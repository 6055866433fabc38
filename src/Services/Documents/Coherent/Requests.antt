-- ===== src/Services/Documents/Coherent/Requests.antt =====
-- The cache of the collections against the table, over the methods of the document service.
use vector_sync.Base.{String, Bool, true, false, List, if◌then◌else◌}
use vector_sync.Base.Int.{ℤ}
use vector_sync.Base.Text.{Bytes}
use vector_sync.Base.Exec.{ok, Exec, pure, lift, wrap, ◌>>=◌, ◌>>◌}
use vector_sync.Base.Keeps.{
  Keeps, lift-Keeps, refuse_if-Keeps, wrap-Keeps, continue-keeps, then-Keeps, checked-Keeps,
}
use vector_sync.Models.{Metadata, Document}
use vector_sync.Services.Interfaces.{
  CollectionRepository, DocumentRepository, Float32, Service, on_repo,
}
use vector_sync.Services.Documents.{
  or_missing, get_collection_info, check_values, check_length, check_vector, create_document,
  upsert_document, get_document, delete_document,
}
use vector_sync.Services.Documents.Listing.{
  check_count, list_documents, full_text_search_documents, search_documents,
  hybrid_search_documents,
}
use vector_sync.Services.Documents.Batch.{check_dimensions, batch_insert, batch_delete}
use vector_sync.Services.Documents.Coherent.{
  Table, IsTold, IsCoherent, IsQuiet, on_repo-IsCoherent, or_missing-IsCoherent,
  get_collection_info-IsCoherent,
}

-- The repository of the collections tells what the table holds, and neither its lookups nor the calls of the
-- repository of the documents change what it holds (but for the number of documents, which is not
-- cached). Any of them may fail at any time.
pub record LeavesCollections {F V W : Type 0} (documents : DocumentRepository F V W)
    (collections : CollectionRepository V W) (table : Table W) : Type 0 where
  pub find_told : IsTold table collections
  pub find_quiet : (id : String) → IsQuiet table (collections.list_by_id id)
  pub create_quiet :
      (id : String) (content : Bytes) (vector : List F) (metadata : Metadata V)
      → IsQuiet table (documents.create id content vector metadata)
  pub upsert_quiet :
      (d id : String) (content : Bytes) (vector : List F) (metadata : Metadata V)
      → IsQuiet table (documents.upsert d id content vector metadata)
  pub get_quiet : (id : String) → IsQuiet table (documents.get_by_id id)
  pub delete_quiet : (id : String) → IsQuiet table (documents.delete_by_id id)
  pub list_quiet :
      (id : String) (limit offset : ℤ) (v : Bool) → IsQuiet table (documents.list id limit offset v)
  pub full_text_quiet :
      (id : String) (query : Bytes) (limit : ℤ) (rank : F) (v : Bool)
      → IsQuiet table (documents.full_text_search id query limit rank v)
  pub search_quiet :
      (id : String) (query : List F) (k : ℤ) (filter : Metadata V) (threshold : F) (v : Bool)
      (metric : String)
      → IsQuiet table (documents.search id query k filter threshold v metric)
  pub hybrid_quiet :
      (id : String) (text : Bytes) (query : List F) (k : ℤ) (filter : Metadata V) (a b : F)
      (v : Bool) (metric : String)
      → IsQuiet table (documents.hybrid_search id text query k filter a b v metric)
  pub insert_all_quiet :
      (id : String) (docs : List (Document F V)) → IsQuiet table (documents.batch_insert id docs)
  pub delete_all_quiet :
      (id : String) (ids : List String) → IsQuiet table (documents.batch_delete id ids)

module _ {F V W : Type 0} (float : Float32 F) (documents : DocumentRepository F V W)
    (collections : CollectionRepository V W) (table : Table W)
    (laws : LeavesCollections documents collections table) where
  -- A lookup, and then a step that may use what it found.
  pub looked_up-Keeps :
      {A : Type 0} (id : String) (f : ℤ × String → Exec (Service W) A)
      → ((info : ℤ × String) → Keeps (IsCoherent table) (f info))
      → Keeps (IsCoherent table) (get_collection_info collections id >>= f)
  looked_up-Keeps id f k =
      then-Keeps (get_collection_info collections id) f
        (get_collection_info-IsCoherent table collections laws.find_told laws.find_quiet id) k

  -- A call of the repository, with its error wrapped.
  pub called-Keeps :
      {A : Type 0} (text : String) (m : Exec W A)
      → IsQuiet table m
      → Keeps (IsCoherent table) (wrap text (on_repo m))
  called-Keeps text m q = wrap-Keeps text (on_repo m) (on_repo-IsCoherent table m q)

  pub check_vector-Keeps :
      (what : String) (d : ℤ) (vector : List F)
      → Keeps (IsCoherent table) (check_vector float what d vector)
  unfolding check_vector check_length
  check_vector-Keeps what d vector =
      checked-Keeps _ _ _ (lift-Keeps (check_values float what 0 vector))

  pub check_count-Keeps :
      (name : String) (default most limit : ℤ)
      → Keeps (IsCoherent table) (check_count name default most limit)
  unfolding check_count
  check_count-Keeps name default most limit = search (checked-Keeps, lift-Keeps)

  pub check_dimensions-Keeps :
      (d : ℤ) (docs : List (Document F V))
      → Keeps (IsCoherent table) (lift {S = Service W} (check_dimensions d docs))
  check_dimensions-Keeps d docs = lift-Keeps (check_dimensions d docs)

  pub ruleset keeps_rules = (
    checked-Keeps, then-Keeps, looked_up-Keeps, check_vector-Keeps, check_count-Keeps, called-Keeps,
  )

  pub create-Keeps :
      (id : String) (content : Bytes) (vector : List F) (metadata : Metadata V)
      → Keeps
          (IsCoherent table)
          (create_document float documents collections id content vector metadata)
  unfolding create_document
  create-Keeps id content vector metadata = search (keeps_rules, laws.create_quiet) depth 9

  pub upsert-Keeps :
      (d id : String) (content : Bytes) (vector : List F) (metadata : Metadata V)
      → Keeps
          (IsCoherent table)
          (upsert_document float documents collections d id content vector metadata)
  unfolding upsert_document
  upsert-Keeps d id content vector metadata = search (keeps_rules, laws.upsert_quiet) depth 9

  pub missing-Keeps :
      {A : Type 0} (field id text : String) (m : Exec W A)
      → IsQuiet table m
      → Keeps (IsCoherent table) (λ s. or_missing field id text (on_repo m s))
  missing-Keeps field id text m q = record {
    kept = λ s h.
        or_missing-IsCoherent table field id text (on_repo m s)
          ((on_repo-IsCoherent table m q).kept s h);
  }

  pub get-Keeps : (id : String) → Keeps (IsCoherent table) (get_document documents id)
  unfolding get_document
  get-Keeps id = search (keeps_rules, missing-Keeps, laws.get_quiet) depth 9

  pub delete-Keeps : (id : String) → Keeps (IsCoherent table) (delete_document documents id)
  unfolding delete_document
  delete-Keeps id = search (keeps_rules, missing-Keeps, laws.delete_quiet) depth 9

  pub list-Keeps :
      (id : String) (limit offset : ℤ) (v : Bool)
      → Keeps (IsCoherent table) (list_documents documents collections id limit offset v)
  unfolding list_documents
  list-Keeps id limit offset v = search (keeps_rules, laws.list_quiet) depth 9

  pub full_text-Keeps :
      (id : String) (query : Bytes) (limit : ℤ) (rank : F) (v : Bool)
      → Keeps
          (IsCoherent table)
          (full_text_search_documents documents collections id query limit rank v)
  unfolding full_text_search_documents
  full_text-Keeps id query limit rank v = search (keeps_rules, laws.full_text_quiet) depth 9

  pub similar-Keeps :
      (id : String) (query : List F) (k : ℤ) (filter : Metadata V) (threshold : F) (v : Bool)
      → Keeps
          (IsCoherent table)
          (search_documents float documents collections id query k filter threshold v)
  unfolding search_documents
  similar-Keeps id query k filter threshold v = search (keeps_rules, laws.search_quiet) depth 12

  pub insert_all-Keeps :
      (id : String) (docs : List (Document F V))
      → Keeps (IsCoherent table) (batch_insert documents collections id docs)
  unfolding batch_insert
  insert_all-Keeps id docs =
      search (keeps_rules, check_dimensions-Keeps, on_repo-IsCoherent, laws.insert_all_quiet) depth
        12

  pub delete_all-Keeps :
      (id : String) (ids : List String)
      → Keeps (IsCoherent table) (batch_delete documents collections id ids)
  unfolding batch_delete
  delete_all-Keeps id ids = search (keeps_rules, on_repo-IsCoherent, laws.delete_all_quiet) depth 12

  fits_if-Keeps :
      (what : String) (b : Bool) (d : ℤ) (vector : List F)
      → Keeps (IsCoherent table) (if b then pure tt else check_length what d vector)
  unfolding check_length
  fits_if-Keeps what true d vector = lift-Keeps (ok tt)
  fits_if-Keeps what false d vector = refuse_if-Keeps _ _

  fits_then-Keeps :
      {A : Type 0} (what : String) (b : Bool) (d : ℤ) (vector : List F) (m : Exec (Service W) A)
      → Keeps (IsCoherent table) m
      → Keeps (IsCoherent table) ((if b then pure tt else check_length what d vector) >> m)
  fits_then-Keeps what b d vector m k = then-Keeps _ _ (fits_if-Keeps what b d vector) (λ _. k)

  values-Keeps :
      (what : String) (vector : List F)
      → Keeps (IsCoherent table) (lift {S = Service W} (check_values float what 0 vector))
  values-Keeps what vector = lift-Keeps (check_values float what 0 vector)

  pub hybrid-Keeps :
      (id : String) (text : Bytes) (query : List F) (k : ℤ) (filter : Metadata V) (a b : F)
      (v : Bool)
      → Keeps
          (IsCoherent table)
          (hybrid_search_documents float documents collections id text query k filter a b v)
  unfolding hybrid_search_documents
  hybrid-Keeps id text query k filter a b v =
      search (keeps_rules, fits_then-Keeps, values-Keeps, laws.hybrid_quiet) depth 14
