-- ===== src/Services/Collections/Checks.antt =====
-- What `CollectionService` lets through to the repository.
use text.Mathlib.Text.{◌==◌}
use text.Mathlib.TextEquality.{eq_iff}
use mathlib.Core.Bool.{false≢true}
use vector_sync.Base.{
  sym, ap, ◌∙◌, ℕ, ◌≤◌, ◌<◌, String, ◌≡◌, ◌≢◌, refl, ◌↔◌, ◌⊎◌, inl, inr, true, false, arith,
  Bool-cases,
}
use vector_sync.Base.Int.{ℤ, pos, negsuc, pos_part, ltb_ℤ}
use vector_sync.Base.Exec.{Result, ok, err, Exec, continue}
use vector_sync.Models.{Metadata}
use vector_sync.Services.Interfaces.{CollectionRepository}
use vector_sync.Services.Collections.{
  or_empty, default_metric, is_metric, is_provider, check_embedding, rename_duplicate, clamp_limit,
  clamp_offset, create_collection, list_collections,
}

-- The metrics and providers that the database schema and the embedding package know.
abbrev pub IsMetric : String → Type 0
IsMetric m = (m ≡ "cosine") ⊎ (m ≡ "euclidean") ⊎ (m ≡ "inner_product")

abbrev pub IsProvider : String → Type 0
IsProvider p = (p ≡ "openai") ⊎ (p ≡ "ollama") ⊎ (p ≡ "cohere")

-- A provider and a model are given together or not at all.
abbrev pub IsEmbedding : String → String → Type 0
IsEmbedding provider model =
    ((provider ≡ "") × (model ≡ "")) ⊎ ((provider ≢ "") × IsProvider provider × (model ≢ ""))

abbrev pub IsPositive : ℤ → Type 0
IsPositive (pos n) = 0 < n
IsPositive (negsuc n) = ⊥

pub record IsAcceptable (name : String) (dimension : ℤ) (metric provider model : String)
    : Type 0 where
  pub named : name ≢ ""
  pub positive : IsPositive dimension
  pub measured : IsMetric (default_metric metric)
  pub embedded : IsEmbedding provider model

pub not_empty : (s : String) → s ≢ "" → (s == "") ≡ false
not_empty s h = elim (Bool-cases (s == "")) [ inl e ↦ absurd (h ((eq_iff s "").0 e)) | inr e ↦ e ]

is_metric_iff : (m : String) → (is_metric m ≡ true) ↔ IsMetric m
unfolding is_metric
is_metric_iff m = ground (arith, eq_iff m "cosine", eq_iff m "euclidean", eq_iff m "inner_product")

is_provider_iff : (p : String) → (is_provider p ≡ true) ↔ IsProvider p
unfolding is_provider
is_provider_iff p = ground (arith, eq_iff p "openai", eq_iff p "ollama", eq_iff p "cohere")

IsPositive-iff : (d : ℤ) → (ltb_ℤ (pos 0) d ≡ true) ↔ IsPositive d
IsPositive-iff (pos n) = ground arith
IsPositive-iff (negsuc n) = ground arith

-- An error, and the world as it was.
abbrev pub Refused : {W A : Type 0} → Result A × W → W → Type 0
Refused (ok a, w') w = ⊥
Refused (err e, w') w = w' ≡ w

pub Refused-continue :
    {W A B : Type 0} (r : Result A × W) (f : A → Exec W B) (w : W)
    → Refused r w
    → Refused (continue r f) w
Refused-continue (ok a, w') f w h = absurd h
Refused-continue (err e, w') f w h = h

IsEmbedding-cases :
    {W : Type 0} (provider model : String) (w : W)
    → (IsEmbedding provider model × (check_embedding provider model w ≡ (ok tt, w)))
      ⊎ ((¬ IsEmbedding provider model) × Refused (check_embedding provider model w) w)
unfolding check_embedding
IsEmbedding-cases provider model w = elim (Bool-cases (provider == "")) [
  | inl p ↦ elim (Bool-cases (model == "")) [
    | inl m ↦ inl (inl (eq p, eq m), rw (p, m) refl)
    | inr m ↦ inr (λ h. elim h [ inl (_, e) ↦ ne m e | inr (n, _, _) ↦ n (eq p) ], rw (p, m) refl)
  ]
  | inr p ↦ elim (Bool-cases (is_provider provider)) [
    | inl k ↦ elim (Bool-cases (model == "")) [
      | inl m ↦
          inr (λ h. elim h [ inl (e, _) ↦ ne p e | inr (_, _, n) ↦ n (eq m) ], rw (p, k, m) refl)
      | inr m ↦ inl (inr (ne p, (is_provider_iff provider).0 k, ne m), rw (p, k, m) refl)
    ]
    | inr k ↦ inr (
      λ h. elim h [
        | inl (e, _) ↦ ne p e
        | inr (_, i, _) ↦ false≢true (sym k ∙ (is_provider_iff provider).1 i)
      ],
      rw (p, k) refl,
    )
  ]
]
  where
    eq : {s : String} → (s == "") ≡ true → s ≡ ""
    eq {s} h = (eq_iff s "").0 h

    ne : {s : String} → (s == "") ≡ false → s ≢ ""
    ne {s} h e = false≢true (sym h ∙ (eq_iff s "").1 e)

module _ {V W : Type 0} (repo : CollectionRepository V W) where
  -- `CreateCollection` calls the repository exactly when the name is given, the dimension positive,
  -- the metric (after its default) known, and the provider known and given together with a model;
  -- the repository's answer is passed on but for a unique violation. Else it fails and touches nothing.
  pub create_collection_cases :
      (name : String) (dimension : ℤ) (schema : Metadata V) (metric provider model : String) (w : W)
      → (IsAcceptable name dimension metric provider model
          × (create_collection repo name dimension schema metric provider model w
              ≡ rename_duplicate (
                  repo.create name dimension
                    (or_empty schema)
                    (default_metric metric)
                    provider
                    model
                    w)))
        ⊎ ((¬ IsAcceptable name dimension metric provider model)
            × Refused (create_collection repo name dimension schema metric provider model w) w)
  unfolding create_collection
  create_collection_cases name dimension schema metric provider model w =
      elim (Bool-cases (name == "")) [
        | inl n ↦ inr (λ h. h.named ((eq_iff name "").0 n), rw n refl)
        | inr n ↦ elim (Bool-cases (ltb_ℤ (pos 0) dimension)) [
          | inr d ↦
              inr
                (λ h. false≢true (sym d ∙ (IsPositive-iff dimension).1 h.positive), rw (n, d) refl)
          | inl d ↦ elim (Bool-cases (is_metric (default_metric metric))) [
            | inr m ↦ inr (
              λ h. false≢true (sym m ∙ (is_metric_iff (default_metric metric)).1 h.measured),
              rw (n, d, m) refl,
            )
            | inl m ↦ elim (IsEmbedding-cases provider model w) [
              | inl (e, q) ↦ inl (
                record {
                  named = λ x. false≢true (sym n ∙ (eq_iff name "").1 x);
                  positive = (IsPositive-iff dimension).0 d;
                  measured = (is_metric_iff (default_metric metric)).0 m;
                  embedded = e;
                },
                rw (n, d, m, q) refl,
              )
              | inr (e, q) ↦ inr (
                λ h. e h.embedded,
                rw (n, d, m) (Refused-continue (check_embedding provider model w) _ w q),
              )
            ]
          ]
        ]
      ]

clamp_limit_page :
    (limit : ℤ)
    → (clamp_limit limit ≡ pos (pos_part (clamp_limit limit)))
      × (1 ≤ pos_part (clamp_limit limit))
      × (pos_part (clamp_limit limit) ≤ 100)
unfolding clamp_limit
clamp_limit_page (pos n) = ground arith
clamp_limit_page (negsuc n) = ground arith

clamp_limit_self : (n : ℕ) → 1 ≤ n → n ≤ 100 → clamp_limit (pos n) ≡ pos n
unfolding clamp_limit
clamp_limit_self n h k = ground arith

clamp_offset_page : (offset : ℤ) → clamp_offset offset ≡ pos (pos_part offset)
unfolding clamp_offset
clamp_offset_page (pos n) = ground arith
clamp_offset_page (negsuc n) = ground arith

module _ {V W : Type 0} (repo : CollectionRepository V W) where
  -- Whatever the request, the repository is asked for 1 to 100 collections from an offset that is
  -- not negative, and for what the request says where that is in range.
  pub list_collections_page :
      (limit offset : ℤ)
      → (l : ℕ) × (o : ℕ) × (list_collections repo limit offset ≡ repo.list (pos l) (pos o))
        × (1 ≤ l)
        × (l ≤ 100)
        × ((n : ℕ) → limit ≡ pos n → 1 ≤ n → n ≤ 100 → l ≡ n)
        × ((n : ℕ) → offset ≡ pos n → o ≡ n)
  unfolding list_collections
  list_collections_page limit offset =
      let (e, low, high) = clamp_limit_page limit in
      (
        pos_part (clamp_limit limit),
        pos_part offset,
        ap (λ l. repo.list l (clamp_offset offset)) e
            ∙ ap (repo.list (pos (pos_part (clamp_limit limit)))) (clamp_offset_page offset),
        low,
        high,
        λ n q h k. ap (λ t. pos_part (clamp_limit t)) q ∙ ap pos_part (clamp_limit_self n h k),
        λ n q. ap pos_part q,
      )
