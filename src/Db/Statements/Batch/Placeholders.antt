-- ===== src/Db/Statements/Batch/Placeholders.antt =====
-- The placeholders of `BatchInsert` and the values they name.
use mathlib.Core.Path.{subst}
use vector_sync.Base.{
  ℕ, zero, suc, ◌+◌, ◌*◌, ◌≡◌, refl, sym, ap, ◌∙◌, Bool, true, false, List, [], ◌∷◌, ◌++◌,
  append-nil, map, arith, length, ltb, if◌then◌else◌, some-injective, some, get_elem?, take, drop,
}
use vector_sync.Base.Text.{Bytes}
use vector_sync.Base.Exec.{Result, ok, err}
use vector_sync.Models.{Metadata, Document}
use vector_sync.Db.Vectors.{vector_to_string}
use vector_sync.Db.Statements.{Piece, sql, placeholder, Arg, text_arg, id_arg, json_arg}
use vector_sync.Db.Rows.Complete.{then_result-ok}
use vector_sync.Db.Statements.Binding.{ok-injective}
use vector_sync.Db.Statements.Batch.{
  serialize, check_marshalled, batch_group, group_loop, value_loop, batch_query,
}

-- The placeholders of a query, in order.
abbrev pub numbers : List Piece → List ℕ
numbers [] = []
numbers (sql s ∷ ps) = numbers ps
numbers (placeholder n ∷ ps) = n ∷ numbers ps

-- `n` numbers from `i` on.
abbrev pub count_from : ℕ → ℕ → List ℕ
count_from i zero = []
count_from i (suc n) = i ∷ count_from (i + 1) n

numbers-append : (ps qs : List Piece) → numbers (ps ++ qs) ≡ numbers ps ++ numbers qs
numbers-append [] qs = refl
numbers-append (sql s ∷ ps) qs = numbers-append ps qs
numbers-append (placeholder n ∷ ps) qs = ap (◌∷◌ n) (numbers-append ps qs)

numbers-batch_group : (n i : ℕ) → numbers (batch_group n i) ≡ count_from (i * 4 + 1) 4
unfolding batch_group
numbers-batch_group n i = separated (ltb (i + 1) n)
  where
    separated :
        (b : Bool)
        → (i * 4 + 1)
            ∷ (i * 4 + 1 + 1)
            ∷ (i * 4 + 1 + 2)
            ∷ (i * 4 + 1 + 3)
            ∷ numbers (if b then sql "," ∷ [] else [])
          ≡ count_from (i * 4 + 1) 4
    separated true = ground arith
    separated false = ground arith

count_from-four :
    (a b m : ℕ)
    → b ≡ a + 1 + 1 + 1 + 1
    → count_from a 4 ++ count_from b m ≡ count_from a (suc (suc (suc (suc m))))
count_from-four a b m h = ap (λ c. a ∷ (a + 1) ∷ (a + 1 + 1) ∷ (a + 1 + 1 + 1) ∷ count_from c m) h

numbers-group_loop :
    {F V : Type 0} (n i : ℕ) (docs : List (Document F V))
    → numbers (group_loop n i docs) ≡ count_from (i * 4 + 1) (length docs * 4)
unfolding group_loop
numbers-group_loop n i [] = refl
numbers-group_loop n i (doc ∷ docs) =
    numbers-append (batch_group n i) (group_loop n (i + 1) docs)
    ∙ ap (λ l. l ++ numbers (group_loop n (i + 1) docs)) (numbers-batch_group n i)
    ∙ ap (λ l. count_from (i * 4 + 1) 4 ++ l) (numbers-group_loop n (i + 1) docs)
    ∙ count_from-four (i * 4 + 1) ((i + 1) * 4 + 1) (length docs * 4) (omega arith)
    ∙ ap (count_from (i * 4 + 1)) (four_more (length docs))
  where
    four_more : (k : ℕ) → suc (suc (suc (suc (k * 4)))) ≡ suc k * 4
    four_more k = omega arith

numbers-batch_query :
    {F V : Type 0} (docs : List (Document F V))
    → numbers (batch_query docs) ≡ count_from 1 (length docs * 4)
unfolding batch_query
numbers-batch_query docs =
    numbers-append (group_loop (length docs) 0 docs)
      (sql " RETURNING id, collection_id, metadata, content, created_at, updated_at" ∷ [])
    ∙ append-nil _
    ∙ numbers-group_loop (length docs) 0 docs

length-value_loop :
    {F V J : Type 0} (docs : List (Document F V)) (prepped : List (Bytes × J))
    → length prepped ≡ length docs
    → length (value_loop docs prepped) ≡ length docs * 4
unfolding value_loop
length-value_loop [] prepped h = refl
length-value_loop (doc ∷ docs) [] h = ground arith
length-value_loop (doc ∷ docs) ((text, json) ∷ prepped) h =
    omega (arith, length-value_loop docs prepped (omega arith))

-- The values of one document.
abbrev pub document_values : {F V J : Type 0} → Document F V → Bytes → J → List (Arg F J)
document_values doc text json =
    id_arg doc.collection_id ∷ text_arg text ∷ json_arg json ∷ text_arg doc.content ∷ []

module _ {F V J : Type 0} (format : F → Bytes) (marshal : Metadata V → Result J) where
  -- The text and the metadata that are bound for a document.
  abbrev Prepared : Document F V → Bytes × J → Type 0
  Prepared doc p = (p.0 ≡ vector_to_string format doc.vector) × (marshal doc.metadata ≡ ok (p.1))

  abbrev AllPrepared : List (Document F V) → List (Bytes × J) → Type 0
  AllPrepared [] [] = Unit
  AllPrepared [] (p ∷ ps) = ⊥
  AllPrepared (doc ∷ docs) [] = ⊥
  AllPrepared (doc ∷ docs) (p ∷ ps) = Prepared doc p × AllPrepared docs ps

  check_marshalled-AllPrepared :
      (i : ℕ) (docs : List (Document F V)) (ps : List (Bytes × J))
      → check_marshalled i (map (serialize format marshal) docs) ≡ ok ps
      → AllPrepared docs ps
  unfolding check_marshalled serialize
  check_marshalled-AllPrepared i [] [] h = tt
  check_marshalled-AllPrepared i [] (p ∷ ps) h = ground arith
  check_marshalled-AllPrepared i (doc ∷ docs) ps h =
      go (marshal doc.metadata) refl (λ qs. check_marshalled-AllPrepared (i + 1) docs qs) h
    where
      go :
          (m : Result J)
          → marshal doc.metadata ≡ m
          → ((qs : List (Bytes × J))
              → check_marshalled (i + 1) (map (serialize format marshal) docs) ≡ ok qs
              → AllPrepared docs qs)
          → check_marshalled i
              ((vector_to_string format doc.vector, m) ∷ map (serialize format marshal) docs)
            ≡ ok ps
          → AllPrepared (doc ∷ docs) ps
      go (err e) k ih h = ground arith
      go (ok json) k ih h =
          let (qs, r, e) =
            then_result-ok (check_marshalled (i + 1) (map (serialize format marshal) docs))
              (λ rest. ok ((vector_to_string format doc.vector, json) ∷ rest)) ps h in
          subst (AllPrepared (doc ∷ docs)) (ok-injective _ ps e) ((refl, k), ih qs r)

  length-AllPrepared :
      (docs : List (Document F V)) (ps : List (Bytes × J))
      → AllPrepared docs ps
      → length ps ≡ length docs
  length-AllPrepared [] [] h = refl
  length-AllPrepared [] (p ∷ ps) h = absurd h
  length-AllPrepared (doc ∷ docs) [] h = absurd h
  length-AllPrepared (doc ∷ docs) (p ∷ ps) (_, h) = ap suc (length-AllPrepared docs ps h)

  values_at :
      (docs : List (Document F V)) (ps : List (Bytes × J)) (i : ℕ) (doc : Document F V)
      → AllPrepared docs ps
      → get_elem? docs i ≡ some doc
      → (json : J) × (marshal doc.metadata ≡ ok json)
        × (take 4 (drop (i * 4) (value_loop docs ps))
            ≡ document_values doc (vector_to_string format doc.vector) json)
  unfolding value_loop
  values_at [] ps i doc h e = ground arith
  values_at (d ∷ docs) [] i doc h e = absurd h
  values_at (d ∷ docs) (p ∷ ps) zero doc ((t, j), h) e =
      subst
        (λ (x : Document F V).
          (json : J) × (marshal x.metadata ≡ ok json)
          × (document_values d (p.0) (p.1)
              ≡ document_values x (vector_to_string format x.vector) json))
        (some-injective d doc e) (p.1, j, ap (λ text. document_values d text (p.1)) t)
  values_at (d ∷ docs) (p ∷ ps) (suc i) doc (_, h) e =
      let (json, m, v) = values_at docs ps i doc h e in
      (json, m, ap (λ k. take 4 (drop k (value_loop (d ∷ docs) (p ∷ ps)))) (four_more i) ∙ v)
    where
      four_more : (k : ℕ) → suc k * 4 ≡ suc (suc (suc (suc (k * 4))))
      four_more k = omega arith

  -- Once the metadata of every document marshals, the placeholders of `BatchInsert` are the numbers 1 to that of its
  -- values, in order, and the four of the document at place `i` name its collection, its vector, its
  -- metadata and its content.
  pub batch_query-binds :
      (docs : List (Document F V)) (prepped : List (Bytes × J))
      → check_marshalled 0 (map (serialize format marshal) docs) ≡ ok prepped
      → (numbers (batch_query docs) ≡ count_from 1 (length (value_loop {F = F} docs prepped)))
        × ((i : ℕ) (doc : Document F V)
            → get_elem? docs i ≡ some doc
            → (json : J) × (marshal doc.metadata ≡ ok json)
              × (take 4 (drop (i * 4) (value_loop docs prepped))
                  ≡ document_values doc (vector_to_string format doc.vector) json))
  batch_query-binds docs prepped h =
      let all = check_marshalled-AllPrepared 0 docs prepped h in
      (
        numbers-batch_query docs
            ∙ ap (count_from 1)
                (sym (length-value_loop docs prepped (length-AllPrepared docs prepped all))),
        λ i doc e. values_at docs prepped i doc all e,
      )
