-- ===== src/Handlers/Documents/RoundTrip.antt =====
-- From the RPC `CreateDocument` through the service, the repository and the table to `ListDocument`.
use mathlib.Core.Path.{subst}
use vector_sync.Base.{◌≡◌, refl, sym, ap, ◌∙◌, none, some, arith, All}
use vector_sync.Base.Text.{Bytes}
use vector_sync.Base.Exec.{Result, ok, err, pure, continue, continue-ok, ok-parts}
use vector_sync.Models.{Metadata, Document}
use vector_sync.Services.Interfaces.{CollectionRepository, Float32, Service}
use vector_sync.Services.Collections.{or_empty}
use vector_sync.Services.Documents.{create_document, get_document}
use vector_sync.Db.Vectors.RoundTrip.{IsToken}
use vector_sync.Db.Rows.{read_metadata}
use vector_sync.Db.Repository.{Driver, Codec, document_repository}
use vector_sync.Db.Repository.Stored.{KeepsDocuments, create_document-get_document}
use vector_sync.Handlers.Metadata.{
  Protobuf, from_structs, new_structs, to_structs, or_none, to_structs-from_structs,
}
use vector_sync.Handlers.Documents.{
  CreateRequest, Created, DocumentMessage, created, to_message, handle_create, handle_get,
}

to_structs-or_empty :
    {S M V T : Type 0} (protobuf : Protobuf S M V T) (metadata : Metadata V)
    → to_structs protobuf (or_empty metadata) ≡ to_structs protobuf metadata
unfolding to_structs new_structs
to_structs-or_empty protobuf none = refl
to_structs-or_empty protobuf (some entries) = refl

continue-pure :
    {A B S : Type 0} (r : Result A × S) (f : A → B) (a : A)
    → r.0 ≡ ok a
    → (continue r (λ x. pure (f x))).0 ≡ ok (f a)
continue-pure (ok b, s) f a h = ground arith
continue-pure (err e, s) f a h = ground arith

ok-injective : {A : Type 0} (a b : A) → ok a ≡ ok b → a ≡ b
ok-injective a b h = ground arith

module _ {F S M V T J W : Type 0} (float : Float32 F) (codec : Codec F V J) (db : Driver F J W)
    (stored_bytes : J → Bytes) (laws : KeepsDocuments codec.parse stored_bytes db)
    (protobuf : Protobuf S M V T)
    (asserts : (m : M) → protobuf.as_object (protobuf.boxed m) ≡ some m)
    (renews : (s : S) → protobuf.new_struct (protobuf.as_map s) ≡ ok s)
    (request : CreateRequest F S) (tokens : All (λ x. IsToken (codec.format x)) request.vector)
    (reads : All (λ x. codec.parse (codec.format x) ≡ ok x) request.vector) where
  -- The message that `ListDocument` answers with for the response `r`.
  abbrev pub Answer : Created T → DocumentMessage F S T
  Answer r = record {
    id = r.id;
    created_at = r.created_at;
    updated_at = r.updated_at;
    collection_id = request.collection_id;
    content = request.content;
    vector = request.vector;
    metadata = or_none request.metadata;
  }

  message-Answer :
      (c : Document F V)
      → c.collection_id ≡ request.collection_id
      → c.content ≡ request.content
      → to_structs protobuf c.metadata ≡ or_none request.metadata
      → to_message protobuf (record c { vector = request.vector }) ≡ Answer (created protobuf c)
  unfolding to_message
  message-Answer c h k l = rw (h, k, l) refl

  -- Right after an answer of the RPC `CreateDocument`, the RPC `ListDocument` of the id in the answer gives the
  -- collection, the content, the vector and the metadata of the request, with the times of the answer.
  -- It asks that the table returns what was inserted, that JSON, the conversion of a Struct, and each value of the
  -- vector read back as they were written.
  pub handle_create-handle_get :
      (collections : CollectionRepository V W) (r : Created T) (s t : Service W)
      → ((json : J)
          → codec.marshal (or_empty (from_structs protobuf request.metadata)) ≡ ok json
          → read_metadata codec.parse codec.unmarshal (stored_bytes json)
            ≡ ok (or_empty (from_structs protobuf request.metadata)))
      → handle_create protobuf (document_repository float codec db) collections float request s
        ≡ (ok r, t)
      → (handle_get protobuf (document_repository float codec db) r.id t).0 ≡ ok (Answer r)
  unfolding handle_create handle_get
  handle_create-handle_get collections r s t reads_back h =
      let (c, u, e, k) =
        continue-ok
          (create_document float (document_repository float codec db) collections
            request.collection_id request.content request.vector
            (from_structs protobuf request.metadata) s)
          (λ d. pure (created protobuf d)) r t h in
      let (p, q) = ok-parts (created protobuf c) r u t k in
      let (same_id, same_content, (json, m, n), found) =
        create_document-get_document float codec db stored_bytes laws request.collection_id
          request.content request.vector tokens reads collections
          (from_structs protobuf request.metadata) c s u e in
      let same_metadata =
        ap (to_structs protobuf) (ok-injective c.metadata _ (sym n ∙ reads_back json m))
        ∙ to_structs-or_empty protobuf (from_structs protobuf request.metadata)
        ∙ to_structs-from_structs protobuf asserts renews request.metadata in
      subst
        (λ x. (handle_get protobuf (document_repository float codec db) x.id t).0 ≡ ok (Answer x)) p
        (subst
          (λ v.
            (handle_get protobuf (document_repository float codec db) c.id v).0
            ≡ ok (Answer (created protobuf c)))
          q
          (continue-pure (get_document (document_repository float codec db) c.id u)
              (to_message protobuf) _ found
            ∙ ap ok (message-Answer c same_id same_content same_metadata)))
