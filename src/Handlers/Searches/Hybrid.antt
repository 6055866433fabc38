-- ===== src/Handlers/Searches/Hybrid.antt =====
-- The one query that the RPC `HybridSearch` runs.
use vector_sync.Base.{All, ◌&&◌, String, ◌≡◌, ◌≢◌, ◌⊎◌, inl, inr, false, ℕ, map, is_empty}
use vector_sync.Base.Int.{ℤ, pos}
use vector_sync.Base.Exec.{ok, pure, wrap, continue}
use vector_sync.Services.Interfaces.{CollectionRepository, Float32, Service, on_repo}
use vector_sync.Services.Collections.Checks.{Refused, Refused-continue}
use vector_sync.Services.Collections.{or_empty}
use vector_sync.Services.Documents.{get_collection_info}
use vector_sync.Services.Documents.Single.{IsFinite}
use vector_sync.Services.Documents.Listing.{or_default, outside_unit, normalize_weights}
use vector_sync.Services.Documents.Pages.{StandsFor}
use vector_sync.Services.Documents.Hybrid.{FitsIfGiven, hybrid_search_documents_page}
use vector_sync.Db.Statements.{Statement, Arg}
use vector_sync.Db.Repository.{Driver, Codec, run_search, hybrid_search, document_repository}
use vector_sync.Db.Repository.Queries.{IsHybridQuery, hybrid_search-IsHybridQuery}
use vector_sync.Handlers.Searches.Calls.{StandsFor-default, Refused-call, same_call}
use vector_sync.Handlers.Metadata.{Protobuf, from_filter}
use vector_sync.Handlers.Searches.{HybridRequest, to_result, handle_hybrid}

module _ {F S M V T J W : Type 0} (protobuf : Protobuf S M V T) (float : Float32 F)
    (codec : Codec F V J) (db : Driver F J W) (collections : CollectionRepository V W) where
  -- Behind the lookup of the collection, the RPC `HybridSearch` of a text or a vector either answers with an error and
  -- has run no query; or the vector, if there is one, has the collection's dimension and finite values, and it
  -- runs one statement, in which every placeholder names a value that is bound: the text if there is one,
  -- the collection of the request, the vector, the entries of the filter, the two weights of the
  -- request, not outside 0 to 1 and normalized, and a limit of 1 to 1000, that of the request or 10.
  pub handle_hybrid-IsHybridQuery :
      (request : HybridRequest F S) (s t : Service W) (d : ℤ) (m : String)
      → request.collection_id ≢ ""
      → (is_empty request.query_vector && is_empty request.query_text) ≡ false
      → get_collection_info collections request.collection_id s ≡ (ok (d, m), t)
      → let weights = normalize_weights float request.vector_weight request.text_weight in
        let r =
          handle_hybrid protobuf float (document_repository float codec db) collections request s in
        Refused r t
        ⊎ ((k : ℕ) × StandsFor 10 1000 request.top_k k
            × FitsIfGiven d request.query_vector
            × All (IsFinite float) request.query_vector
            × (outside_unit float request.vector_weight ≡ false)
            × (outside_unit float request.text_weight ≡ false)
            × (statement : Statement (Arg F J)) × IsHybridQuery float codec db request.collection_id
                request.query_text request.query_vector
                (pos k)
                (or_empty (from_filter protobuf request.metadata))
                (weights.0)
                (weights.1)
                statement
            × (r
                ≡ continue
                    (wrap "failed to perform hybrid search"
                      (on_repo (run_search float codec db request.include_vector statement))
                      t)
                    (λ results. pure (map (to_result protobuf) results))))
  unfolding handle_hybrid
  handle_hybrid-IsHybridQuery request s t d m named given found =
      let filter = or_empty (from_filter protobuf request.metadata) in
      let (a, b) = normalize_weights float request.vector_weight request.text_weight in
      elim (hybrid_search_documents_page float (document_repository float codec db) collections
        request.collection_id request.query_text request.query_vector
        (or_default (pos 10) request.top_k) (from_filter protobuf request.metadata)
        request.vector_weight request.text_weight request.include_vector s t d m named given
        found) [
          | inl r ↦ inl (Refused-continue _ _ t r)
          | inr (k, stands, fits, finite, v, w, e) ↦
              let call =
                hybrid_search float codec db request.collection_id request.query_text
                  request.query_vector (pos k) filter a b request.include_vector m in
              elim (hybrid_search-IsHybridQuery float codec db request.collection_id
                request.query_text request.query_vector (pos k) filter a b request.include_vector m
                t.world) [
                  | inl r ↦ inl (Refused-call "failed to perform hybrid search" _ t _ call e r)
                  | inr (statement, query, q) ↦ inr (
                    k,
                    StandsFor-default k request.top_k stands,
                    fits,
                    finite,
                    v,
                    w,
                    statement,
                    query,
                    same_call "failed to perform hybrid search" _ t _ call
                        (run_search float codec db request.include_vector statement) e q,
                  )
                ]
        ]
