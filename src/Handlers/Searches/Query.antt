-- ===== src/Handlers/Searches/Query.antt =====
-- The one query that the RPC `SearchDocuments` runs.
use vector_sync.Base.{String, ◌≡◌, ◌≢◌, ◌⊎◌, inl, inr, false, ℕ, map, is_empty}
use vector_sync.Base.Int.{ℤ, pos}
use vector_sync.Base.Exec.{ok, pure, wrap, continue}
use vector_sync.Services.Interfaces.{CollectionRepository, Float32, Service, on_repo}
use vector_sync.Services.Collections.Checks.{Refused, Refused-continue}
use vector_sync.Services.Collections.{or_empty}
use vector_sync.Services.Documents.{get_collection_info}
use vector_sync.Services.Documents.Single.{IsFitting}
use vector_sync.Services.Documents.Listing.{or_default, outside_unit}
use vector_sync.Services.Documents.Pages.{StandsFor, search_documents_page}
use vector_sync.Db.Statements.{Statement, Arg}
use vector_sync.Db.Repository.{Driver, Codec, run_search, search, document_repository}
use vector_sync.Db.Repository.Queries.{IsQuery, search-IsQuery}
use vector_sync.Handlers.Searches.Calls.{StandsFor-default, Refused-call, same_call}
use vector_sync.Handlers.Metadata.{Protobuf, from_filter}
use vector_sync.Handlers.Searches.{SearchRequest, to_result, handle_search}

module _ {F S M V T J W : Type 0} (protobuf : Protobuf S M V T) (float : Float32 F)
    (codec : Codec F V J) (db : Driver F J W) (collections : CollectionRepository V W) where
  -- Behind the lookup of the collection, the RPC `SearchDocuments` either answers with an error and has run no
  -- query; or the vector fits the collection, and it runs one statement, in which every placeholder
  -- names a value that is bound: the vector, the collection of the request, the entries of the
  -- filter, the threshold, not outside 0 to 1, if it is positive, and a limit of 1 to 1000, that of
  -- the request or 10. The answer is of the rows of this statement.
  pub handle_search-IsQuery :
      (request : SearchRequest F S) (s t : Service W) (d : ℤ) (m : String)
      → request.collection_id ≢ ""
      → is_empty request.query_vector ≡ false
      → get_collection_info collections request.collection_id s ≡ (ok (d, m), t)
      → Refused
          (handle_search protobuf float (document_repository float codec db) collections request s)
          t
        ⊎ ((k : ℕ) × StandsFor 10 1000 request.top_k k
            × IsFitting float d request.query_vector
            × (outside_unit float request.min_threshold ≡ false)
            × (statement : Statement (Arg F J)) × IsQuery float codec db request.collection_id
                request.query_vector
                (pos k)
                (or_empty (from_filter protobuf request.metadata_filter))
                request.min_threshold
                statement
            × (handle_search protobuf float
                  (document_repository float codec db)
                  collections
                  request
                  s
                ≡ continue
                    (wrap "failed to search documents"
                      (on_repo (run_search float codec db request.include_vector statement))
                      t)
                    (λ results. pure (map (to_result protobuf) results))))
  unfolding handle_search
  handle_search-IsQuery request s t d m named some_query found =
      elim (search_documents_page float (document_repository float codec db) collections
        request.collection_id request.query_vector (or_default (pos 10) request.top_k)
        (from_filter protobuf request.metadata_filter) request.min_threshold request.include_vector
        s t d m named some_query found) [
          | inl r ↦ inl (Refused-continue _ _ t r)
          | inr (k, fits, stands, unit, e) ↦
              elim (search-IsQuery float codec db request.collection_id request.query_vector (pos k)
                (or_empty (from_filter protobuf request.metadata_filter)) request.min_threshold
                request.include_vector m t.world) [
                  | inl r ↦ inl (
                      Refused-call "failed to search documents" _ t _
                        (search float codec db request.collection_id request.query_vector (pos k)
                          (or_empty (from_filter protobuf request.metadata_filter))
                          request.min_threshold request.include_vector m)
                        e r)
                  | inr (statement, query, q) ↦ inr (
                    k,
                    StandsFor-default k request.top_k stands,
                    fits,
                    unit,
                    statement,
                    query,
                    same_call "failed to search documents" _ t _
                        (search float codec db request.collection_id request.query_vector (pos k)
                          (or_empty (from_filter protobuf request.metadata_filter))
                          request.min_threshold request.include_vector m)
                        (run_search float codec db request.include_vector statement) e q,
                  )
                ]
        ]
