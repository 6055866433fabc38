-- ===== src/Db/Collections/Lookup.antt =====
-- Looking up a collection that `CreateCollection` has returned.
use text.Mathlib.Text.{◌==◌}
use text.Mathlib.TextEquality.{eq_iff}
use mathlib.Core.Path.{subst}
use vector_sync.Base.{
  String, ◌≡◌, ◌≢◌, refl, sym, ap, ◌∙◌, inl, inr, Option, none, arith, Bool-cases,
}
use vector_sync.Base.Assoc.{lookup}
use vector_sync.Base.Int.{ℤ}
use vector_sync.Base.Text.{Bytes}
use vector_sync.Base.Exec.{Result, ok, err, continue, continue-ok, ok-parts}
use vector_sync.Models.{Metadata, Collection}
use vector_sync.Cache.{CollectionCache}
use vector_sync.Services.Interfaces.{Service}
use vector_sync.Services.Collections.{
  or_empty, default_metric, rename_duplicate, create_collection, list_collection,
}
use vector_sync.Services.Collections.Checks.{not_empty, Refused, create_collection_cases}
use vector_sync.Services.Documents.{get_collection_info}
use vector_sync.Services.Documents.Lookups.{
  dimension_and_metric, after_miss, answered, get_collection_info-miss,
}
use vector_sync.Db.Rows.{then_result}
use vector_sync.Db.Rows.Complete.{then_result-ok}
use vector_sync.Db.Collections.{
  CollectionRow, CollectionDriver, distance_metric_ops_class, create_index, null_string, or_blank,
  read_schema, read_collection, create_row, find_by_id, collection_repository,
}

-- What PostgreSQL promises of the table: `RETURNING` gives the row with the values that were bound and
-- an id, the row is read back by its id, and creating an index changes no answer.
pub record KeepsRows {J W : Type 0} (db : CollectionDriver J W) : Type 0 where
  pub row_is_bound :
      (name : String) (dimension : ℤ) (json : J) (metric : String) (provider model : Option String)
      (w w' : W) (row : CollectionRow)
      → db.insert_collection name dimension json metric provider model w ≡ (ok row, w')
      → (row.id ≢ "")
        × (row.name ≡ name)
        × (row.vector_dim ≡ dimension)
        × (row.distance_metric ≡ metric)
        × (row.embedding_provider ≡ provider)
        × (row.embedding_model ≡ model)
  pub row_is_stored :
      (name : String) (dimension : ℤ) (json : J) (metric : String) (provider model : Option String)
      (w w' : W) (row : CollectionRow)
      → db.insert_collection name dimension json metric provider model w ≡ (ok row, w')
      → (db.select_collection row.id w').0 ≡ ok row
  pub index_is_hidden :
      (indexed ops_class id : String) (w : W)
      → (db.select_collection id (db.spawn (create_index indexed ops_class) w)).0
        ≡ (db.select_collection id w).0

or_blank-null_string : (s : String) → or_blank (null_string s) ≡ s
unfolding null_string
or_blank-null_string s = elim (Bool-cases (s == "")) [
  | inl e ↦ rw e (sym ((eq_iff s "").0 e))
  | inr e ↦ rw e refl
]

default_metric-default_metric : (m : String) → default_metric (default_metric m) ≡ default_metric m
unfolding default_metric
default_metric-default_metric m = elim (Bool-cases (m == "")) [
  | inl e ↦ rw e refl
  | inr e ↦ rw (e, e) refl
]

continue-first :
    {A B W : Type 0} (r : Result A × W) (f : A → Result B)
    → continue r (λ a w. (f a, w)) ≡ (then_result (r.0) f, r.1)
continue-first (ok a, w) f = refl
continue-first (err e, w) f = refl

rename_duplicate-ok :
    {A W : Type 0} (r : Result A × W) (a : A) (w : W)
    → rename_duplicate r ≡ (ok a, w)
    → r ≡ (ok a, w)
rename_duplicate-ok (ok b, v) a w h = h
rename_duplicate-ok (err e, v) a w h = ground arith

answered-ok :
    {A V W : Type 0} (pick : Collection V → A) (id : String) (s : Service W)
    (r : Result (Collection V) × W) (c : Collection V)
    → r.0 ≡ ok c
    → (answered pick id s r).0 ≡ ok (pick c)
answered-ok pick id s (ok d, w) c h = ground arith
answered-ok pick id s (err e, w) c h = ground arith

module _ {V J W : Type 0} (marshal : Metadata V → Result J)
    (unmarshal : Bytes → Result (Metadata V)) (db : CollectionDriver J W) where
  -- The collection is what the request said, and its row is in the table.
  abbrev pub Stored : String → ℤ → String → String → String → Collection V → W → Type 0
  Stored name dimension metric provider model c w =
      (c.id ≢ "")
      × (c.name ≡ name)
      × (c.vector_dimension ≡ dimension)
      × (c.distance_metric ≡ metric)
      × (c.embedding_provider ≡ provider)
      × (c.embedding_model ≡ model)
      × ((find_by_id marshal unmarshal db c.id w).0 ≡ ok c)

  pub read_collection-fields :
      (row : CollectionRow) (c : Collection V)
      → read_collection unmarshal row ≡ ok c
      → (row.id ≡ c.id)
        × (row.name ≡ c.name)
        × (row.vector_dim ≡ c.vector_dimension)
        × (row.distance_metric ≡ c.distance_metric)
        × (or_blank row.embedding_provider ≡ c.embedding_provider)
        × (or_blank row.embedding_model ≡ c.embedding_model)
  unfolding read_collection
  read_collection-fields row c h =
      let (schema, e, q) = then_result-ok (read_schema unmarshal row.metadata_bytes) _ c h in
      ground arith

  module _ (laws : KeepsRows db) where
    inserted-Stored :
        (name : String) (dimension : ℤ) (json : J) (metric provider model : String)
        (row : CollectionRow) (c : Collection V) (ops_class : String) (w w' : W)
        → db.insert_collection name dimension json metric
            (null_string provider)
            (null_string model)
            w
          ≡ (ok row, w')
        → read_collection unmarshal row ≡ ok c
        → Stored name dimension metric provider model c (db.spawn (create_index c.id ops_class) w')
    unfolding find_by_id
    inserted-Stored name dimension json metric provider model row c ops_class w w' e h =
        let bound =
          laws.row_is_bound name dimension json metric (null_string provider) (null_string model) w
            w' row e in
        let fields = read_collection-fields row c h in
        (
          λ k. bound.0 (fields.0 ∙ k),
          sym (fields.1) ∙ bound.1,
          sym (fields.2) ∙ bound.2,
          sym (fields.3) ∙ bound.3,
          sym (fields.4) ∙ ap or_blank (bound.4) ∙ or_blank-null_string provider,
          sym (fields.5) ∙ ap or_blank (bound.5) ∙ or_blank-null_string model,
          ap (λ r. r.0)
                (continue-first
                  (db.select_collection c.id (db.spawn (create_index c.id ops_class) w'))
                  (read_collection unmarshal))
              ∙ ap (λ r. then_result r (read_collection unmarshal))
                  (laws.index_is_hidden c.id ops_class c.id w'
                    ∙ ap (λ i. (db.select_collection i w').0) (sym (fields.0))
                    ∙ laws.row_is_stored name dimension json metric (null_string provider)
                        (null_string model) w w' row e)
              ∙ h,
        )

    create_row-Stored :
        (name : String) (dimension : ℤ) (schema : Metadata V) (metric provider model : String)
        (c : Collection V) (w w' : W)
        → create_row marshal unmarshal db name dimension schema metric provider model w ≡ (ok c, w')
        → Stored name dimension (default_metric metric) provider model c w'
    unfolding create_row
    create_row-Stored name dimension schema metric provider model c w w' h =
        let (json, w₁, e₁, h₁) = continue-ok (marshal schema, w) _ c w' h in
        let (row, w₂, e₂, h₂) =
          continue-ok
            (db.insert_collection name dimension json (default_metric metric) (null_string provider)
              (null_string model) w₁)
            _ c w' h₁ in
        let (d, w₃, e₃, h₃) = continue-ok (read_collection unmarshal row, w₂) _ c w' h₂ in
        let ops_class = distance_metric_ops_class (default_metric metric) in
        let (p, q) = ok-parts d c (db.spawn (create_index d.id ops_class) w₃) w' h₃ in
        subst (λ x. Stored name dimension (default_metric metric) provider model x w') p
          (subst (Stored name dimension (default_metric metric) provider model d) q (
            subst
              (λ v.
                Stored name dimension (default_metric metric) provider model d
                  (db.spawn (create_index d.id ops_class) v))
              (ap (λ r. r.1) e₃)
              (inserted-Stored name dimension json (default_metric metric) provider model row d
                ops_class w₁ w₂ e₂ (ap (λ r. r.0) e₃))))

    -- A collection that `CreateCollection` returns has the name, the dimension, the provider and the model of
    -- the request, and its metric or cosine. Right after it `ListCollection` of its id returns this
    -- collection, and a document service that has not cached the id works with this dimension and metric.
    -- It asks that the table returns the row that was inserted, and that creating an index
    -- changes no answer.
    pub create_collection-list_collection :
        (name : String) (dimension : ℤ) (schema : Metadata V) (metric provider model : String)
        (c : Collection V) (w w' : W) (cache : CollectionCache)
        → create_collection
            (collection_repository marshal unmarshal db)
            name
            dimension
            schema
            metric
            provider
            model
            w
          ≡ (ok c, w')
        → lookup c.id cache.cache ≡ none
        → (c.name ≡ name)
          × (c.vector_dimension ≡ dimension)
          × (c.distance_metric ≡ default_metric metric)
          × (c.embedding_provider ≡ provider)
          × (c.embedding_model ≡ model)
          × ((list_collection (collection_repository marshal unmarshal db) c.id w').0 ≡ ok c)
          × ((get_collection_info
                (collection_repository marshal unmarshal db)
                c.id
                (record { collection_cache = cache; world = w' })).0
              ≡ ok (dimension, default_metric metric))
    unfolding list_collection
    create_collection-list_collection name dimension schema metric provider model c w w' cache h k =
        elim (create_collection_cases (collection_repository marshal unmarshal db) name dimension
          schema metric provider model w) [
            | inr (_, r) ↦ absurd (subst (λ x. Refused x w) h r)
            | inl (_, e) ↦
                let stored =
                  create_row-Stored name dimension (or_empty schema) (default_metric metric)
                    provider model c w w' (rename_duplicate-ok _ c w' (sym e ∙ h)) in
                let named = stored.3 ∙ default_metric-default_metric metric in
                (
                  stored.1,
                  stored.2,
                  named,
                  stored.4,
                  stored.5,
                  rw (not_empty c.id (stored.0)) (stored.6),
                  ap (λ r. r.0)
                        (get_collection_info-miss (collection_repository marshal unmarshal db) c.id
                          (record { collection_cache = cache; world = w' }) k)
                      ∙ answered-ok dimension_and_metric c.id
                          (after_miss (record { collection_cache = cache; world = w' }))
                          (find_by_id marshal unmarshal db c.id w') c (stored.6)
                      ∙ rw (stored.2, named) refl,
                )
          ]
