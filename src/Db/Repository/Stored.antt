-- ===== src/Db/Repository/Stored.antt =====
-- `GetDocument` behind `CreateDocument`.
use mathlib.Core.Path.{subst}
use vector_sync.Base.{String, ◌≡◌, ◌≢◌, sym, ap, ◌∙◌, inl, inr, true, false, List, arith, All}
use vector_sync.Base.Text.{Bytes}
use vector_sync.Base.Exec.{Result, ok, err, Exec, wrap, wrap_result, continue-ok, wrapped-ok}
use vector_sync.Models.{Metadata, Document}
use vector_sync.Services.Interfaces.{CollectionRepository, Float32, Service, on_repo}
use vector_sync.Services.Collections.{or_empty}
use vector_sync.Services.Collections.Checks.{not_empty, Refused}
use vector_sync.Services.Documents.{create_document, get_document, or_missing}
use vector_sync.Services.Documents.Single.{create_document_cases}
use vector_sync.Db.Vectors.{vector_to_string, string_to_vector}
use vector_sync.Db.Vectors.RoundTrip.{IsToken, string_to_vector-vector_to_string}
use vector_sync.Db.Rows.{Row, then_result, read_metadata, read_document, get_by_id}
use vector_sync.Db.Rows.Complete.{then_result-ok}
use vector_sync.Db.Repository.{Driver, Codec, read_returned, create, document_repository}

-- What PostgreSQL promises of the table: `RETURNING` gives the row with the values that were bound and
-- an id, and the row is read back by its id, with a vector that reads as the one that was bound.
pub record KeepsDocuments {F J W : Type 0} (parse : Bytes → Result F) (stored_bytes : J → Bytes)
    (db : Driver F J W) : Type 0 where
  pub row_is_bound :
      (id : String) (vector : Bytes) (json : J) (content : Bytes) (w w' : W) (row : Row)
      → db.insert_row id vector json content w ≡ (ok row, w')
      → (row.id ≢ "")
        × (row.collection_id ≡ id)
        × (row.content ≡ content)
        × (row.metadata_bytes ≡ stored_bytes json)
  pub row_is_stored :
      (id : String) (vector : Bytes) (json : J) (content : Bytes) (w w' : W) (row : Row)
      → db.insert_row id vector json content w ≡ (ok row, w')
      → (text : Bytes) × ((db.statements.select_by_id row.id w').0
          ≡ ok (record row { vector_text = text }))
        × (string_to_vector parse text ≡ string_to_vector parse vector)

wrap_result-ok :
    {A : Type 0} (text : String) (r : Result A) (a : A) → wrap_result text r ≡ ok a → r ≡ ok a
wrap_result-ok text (ok b) a h = h
wrap_result-ok text (err e) a h = ground arith

module _ {F V : Type 0} (parse : Bytes → Result F) (unmarshal : Bytes → Result (Metadata V)) where
  -- The document that a row gives without its vector gives the same with it.
  read_document-vector :
      (row : Row) (text : Bytes) (vector : List F) (c : Document F V)
      → read_document parse unmarshal false row ≡ ok c
      → string_to_vector parse text ≡ ok vector
      → read_document parse unmarshal true (record row { vector_text = text })
        ≡ ok (record c { vector = vector })
  unfolding read_document
  read_document-vector row text vector c h k =
      let (m, e, q) = then_result-ok (read_metadata parse unmarshal row.metadata_bytes) _ c h in
      rw (k, e)
        (ap
          (λ r.
            then_result {A = Document F V} {B = Document F V} r
              (λ d. ok (record d { vector = vector })))
          q)

  read_document-fields :
      (row : Row) (c : Document F V)
      → read_document parse unmarshal false row ≡ ok c
      → (row.id ≡ c.id)
        × (row.collection_id ≡ c.collection_id)
        × (row.content ≡ c.content)
        × (read_metadata parse unmarshal row.metadata_bytes ≡ ok c.metadata)
  unfolding read_document
  read_document-fields row c h =
      let (m, e, q) = then_result-ok (read_metadata parse unmarshal row.metadata_bytes) _ c h in
      ground arith

on_repo-ok :
    {A W : Type 0} (text : String) (m : Exec W A) (a : A) (s t : Service W)
    → wrap text (on_repo m) s ≡ (ok a, t)
    → m s.world ≡ (ok a, t.world)
on_repo-ok {A = A} {W = W} text m a s t h = go (m s.world) (wrapped-ok text (on_repo m s) a t h)
  where
    go :
        (r : Result A × W)
        → ◌≡◌ {A = Result A × Service W} (r.0, record s { world = r.1 }) (ok a, t)
        → r ≡ (ok a, t.world)
    go (r, w) k = ap (λ p. (p.0, (p.1).world)) k

or_missing-ok :
    {A S : Type 0} (field id text : String) (r : Result A × S) (a : A)
    → r.0 ≡ ok a
    → (or_missing field id text r).0 ≡ ok a
or_missing-ok field id text (ok b, s) a h = h
or_missing-ok field id text (err e, s) a h = ground arith

module _ {F V J W : Type 0} (float : Float32 F) (codec : Codec F V J) (db : Driver F J W)
    (stored_bytes : J → Bytes) (laws : KeepsDocuments codec.parse stored_bytes db) where
  -- What holds of the document that `Create` returned.
  abbrev pub Kept : String → Bytes → List F → J → Document F V → W → Type 0
  Kept id content vector json c w =
      (c.id ≢ "")
      × (c.collection_id ≡ id)
      × (c.content ≡ content)
      × (read_metadata codec.parse codec.unmarshal (stored_bytes json) ≡ ok c.metadata)
      × ((get_by_id codec.parse codec.unmarshal db.statements c.id w).0
          ≡ ok (record c { vector = vector }))

  module _ (id : String) (content : Bytes) (vector : List F)
      (tokens : All (λ x. IsToken (codec.format x)) vector)
      (reads : All (λ x. codec.parse (codec.format x) ≡ ok x) vector) where
    inserted-Kept :
        (json : J) (row : Row) (c : Document F V) (w w' : W)
        → db.insert_row id (vector_to_string codec.format vector) json content w ≡ (ok row, w')
        → read_document codec.parse codec.unmarshal false row ≡ ok c
        → Kept id content vector json c w'
    unfolding get_by_id
    inserted-Kept json row c w w' e h =
        let bound =
          laws.row_is_bound id (vector_to_string codec.format vector) json content w w' row e in
        let (text, found, same) =
          laws.row_is_stored id (vector_to_string codec.format vector) json content w w' row e in
        let fields = read_document-fields codec.parse codec.unmarshal row c h in
        (
          λ k. bound.0 (fields.0 ∙ k),
          sym (fields.1) ∙ bound.1,
          sym (fields.2) ∙ bound.2,
          ap (read_metadata codec.parse codec.unmarshal) (sym (bound.3)) ∙ fields.3,
          ap
                (λ i.
                  then_result ((db.statements.select_by_id i w').0)
                    (read_document codec.parse codec.unmarshal true))
                (sym (fields.0))
              ∙ ap (λ r. then_result r (read_document codec.parse codec.unmarshal true)) found
              ∙ read_document-vector codec.parse codec.unmarshal row text vector c h (
                  same
                  ∙ string_to_vector-vector_to_string codec.format codec.parse vector tokens reads),
        )

    create-Kept :
        (metadata : Metadata V) (c : Document F V) (w w' : W)
        → create float codec db id content vector metadata w ≡ (ok c, w')
        → (json : J) × (codec.marshal metadata ≡ ok json) × Kept id content vector json c w'
    unfolding create read_returned
    create-Kept metadata c w w' h =
        let (json, w₁, e₁, h₁) =
          continue-ok (wrap_result "failed to marshal metadata" (codec.marshal metadata), w) _ c w'
            h in
        let (row, w₂, e₂, h₂) =
          continue-ok
            (wrap "failed to insert document"
              (db.insert_row id (vector_to_string codec.format vector) json content) w₁)
            _ c w' h₁ in
        (
          json,
          wrap_result-ok "failed to marshal metadata" (codec.marshal metadata) json
              (ap (λ r. r.0) e₁),
          inserted-Kept json row c w₁ w'
              (wrapped-ok "failed to insert document" _ row w'
                (e₂ ∙ ap (λ v. (ok row, v)) (ap (λ r. r.1) h₂)))
              (wrap_result-ok "failed to unmarshal metadata" _ c (ap (λ r. r.0) h₂)),
        )

    get_document-Kept :
        (json : J) (c : Document F V) (t : Service W)
        → Kept id content vector json c t.world
        → (get_document (document_repository float codec db) c.id t).0
          ≡ ok (record c { vector = vector })
    unfolding get_document
    get_document-Kept json c t kept = rw (not_empty c.id (kept.0)) (
        or_missing-ok "document_id " c.id "failed to fetch document"
          (on_repo (get_by_id codec.parse codec.unmarshal db.statements c.id) t)
          (record c { vector = vector }) (kept.4))

    -- A document that `CreateDocument` returns belongs to the collection of the request and has its content,
    -- and its metadata are what the bytes stored for the request's read as. `GetDocument` of
    -- its id returns this document with the vector of the request, when every value of it is written
    -- as a token that reads back.
    pub create_document-get_document :
        (collections : CollectionRepository V W) (metadata : Metadata V) (c : Document F V)
        (s t : Service W)
        → create_document float
            (document_repository float codec db)
            collections
            id
            content
            vector
            metadata
            s
          ≡ (ok c, t)
        → (c.collection_id ≡ id)
          × (c.content ≡ content)
          × ((json : J) × (codec.marshal (or_empty metadata) ≡ ok json)
              × (read_metadata codec.parse codec.unmarshal (stored_bytes json) ≡ ok c.metadata))
          × ((get_document (document_repository float codec db) c.id t).0
              ≡ ok (record c { vector = vector }))
    create_document-get_document collections metadata c s t h =
        elim (create_document_cases float (document_repository float codec db) collections id
          content vector metadata s) [
            | inl (_, r) ↦ absurd (subst (λ x. Refused x s) h r)
            | inr (inl (e, u, _, r)) ↦ ground (arith, sym r ∙ h)
            | inr (inr (d, m, u, _, inl (_, r))) ↦ absurd (subst (λ x. Refused x u) h r)
            | inr (inr (d, m, u, _, inr (_, _, _, r))) ↦
                let (json, e, kept) = create-Kept (or_empty metadata) c u.world t.world (
                  on_repo-ok "failed to create document"
                    (create float codec db id content vector (or_empty metadata)) c u t
                    (sym r ∙ h)) in
                (kept.1, kept.2, (json, e, kept.3), get_document-Kept json c t kept)
          ]
