-- ===== src/Db/Statements/Batch/Schedule.antt =====
-- The goroutines of `BatchInsert`, which the code starts for 32 documents or more.
use vector_sync.Base.{
  ℕ, zero, suc, ◌<◌, ◌≤◌, leb, ◌≡◌, refl, sym, ap, ◌∙◌, inl, inr, Bool, true, false, ◌||◌, List, [],
  ◌∷◌, map, Option, none, some, arith, length, ◌==◌, if◌then◌else◌, get_elem?, replicate,
  length-replicate, length-set, get_elem?-set, get_elem?_ext, some-injective, length-map,
  Bool-cases, ==_iff, get_elem?-bound, Option-cases,
}
use vector_sync.Base.Text.{Bytes}
use vector_sync.Base.Exec.{Result}
use vector_sync.Models.{Metadata, Document}
use vector_sync.Db.Statements.Batch.{
  Serialized, serialize, write_slot, fan_out, slot_value, prepare,
}

abbrev pub occurs : ℕ → List ℕ → Bool
occurs j [] = false
occurs j (i ∷ order) = i == j || occurs j order

-- The goroutine of every document has written, as `wg.Wait()` sees to.
abbrev pub Covers : ℕ → List ℕ → Type 0
Covers n order = (j : ℕ) → j < n → occurs j order ≡ true

module _ {F V J : Type 0} (format : F → Bytes) (marshal : Metadata V → Result J)
    (docs : List (Document F V)) where
  abbrev pub slot_of : Document F V → Option (Serialized J)
  slot_of doc = some (serialize format marshal doc)

  length-write_slot :
      (idx : ℕ) (slots : List (Option (Serialized J)))
      → length (write_slot format marshal docs idx slots) ≡ length slots
  unfolding write_slot
  length-write_slot idx slots = elim (Option-cases (get_elem? docs idx)) [
    | inl e ↦ rw (e, write_slot) refl
    | inr (doc, e) ↦ rw (e, write_slot) (length-set slots idx (slot_of doc))
  ]

  get_elem?-write_slot :
      (idx j : ℕ) (doc : Document F V) (slots : List (Option (Serialized J)))
      → length slots ≡ length docs
      → get_elem? docs j ≡ some doc
      → get_elem? (write_slot format marshal docs idx slots) j
        ≡ (if idx == j then some (slot_of doc) else get_elem? slots j)
  unfolding write_slot
  get_elem?-write_slot idx j doc slots n h = elim (Option-cases (get_elem? docs idx)) [
    | inl e ↦ elim (Bool-cases (idx == j)) [
      | inl k ↦ ground (arith, h, e, ap (get_elem? docs) ((==_iff idx j).0 k))
      | inr k ↦ rw (e, k, write_slot) refl
    ]
    | inr (d, e) ↦
        rw (e, write_slot)
          (get_elem?-set slots idx j (slot_of d) (omega (arith, n, get_elem?-bound docs idx d e))
            ∙ same d e (idx == j)
                (λ k. some-injective d doc (sym e ∙ ap (get_elem? docs) ((==_iff idx j).0 k) ∙ h)))
  ]
    where
      same :
          (d : Document F V)
          → get_elem? docs idx ≡ some d
          → (b : Bool) → (b ≡ true → d ≡ doc)
          → (if b then some (slot_of d) else get_elem? slots j)
            ≡ (if b then some (slot_of doc) else get_elem? slots j)
      same d e true k = ap (λ x. some (slot_of x)) (k refl)
      same d e false k = refl

  get_elem?-fan_out :
      (order : List ℕ) (j : ℕ) (doc : Document F V) (slots : List (Option (Serialized J)))
      → length slots ≡ length docs
      → get_elem? docs j ≡ some doc
      → get_elem? (fan_out format marshal docs order slots) j
        ≡ (if occurs j order then some (slot_of doc) else get_elem? slots j)
  unfolding fan_out
  get_elem?-fan_out [] j doc slots n h = refl
  get_elem?-fan_out (idx ∷ order) j doc slots n h =
      get_elem?-fan_out order j doc (write_slot format marshal docs idx slots)
        (length-write_slot idx slots ∙ n) h
      ∙ ap (λ r. if occurs j order then some (slot_of doc) else r)
          (get_elem?-write_slot idx j doc slots n h)
      ∙ either (idx == j) (occurs j order)
    where
      either :
          (a b : Bool)
          → (if b
              then some (slot_of doc)
              else (if a then some (slot_of doc) else get_elem? slots j))
            ≡ (if a || b then some (slot_of doc) else get_elem? slots j)
      either true true = refl
      either true false = refl
      either false true = refl
      either false false = refl

  length-fan_out :
      (order : List ℕ) (slots : List (Option (Serialized J)))
      → length (fan_out format marshal docs order slots) ≡ length slots
  unfolding fan_out
  length-fan_out [] slots = refl
  length-fan_out (idx ∷ order) slots =
      length-fan_out order (write_slot format marshal docs idx slots) ∙ length-write_slot idx slots

  get_elem?-map_slot :
      (ds : List (Document F V)) (j : ℕ) (doc : Document F V)
      → get_elem? ds j ≡ some doc
      → get_elem? (map slot_of ds) j ≡ some (slot_of doc)
  get_elem?-map_slot [] j doc h = ground arith
  get_elem?-map_slot (d ∷ ds) zero doc h = ap (λ x. some (slot_of x)) (some-injective d doc h)
  get_elem?-map_slot (d ∷ ds) (suc j) doc h = get_elem?-map_slot ds j doc h

  get_elem?-some :
      (ds : List (Document F V)) (j : ℕ)
      → j < length ds
      → (doc : Document F V) × (get_elem? ds j ≡ some doc)
  get_elem?-some [] j h = absurd (omega arith)
  get_elem?-some (d ∷ ds) zero h = (d, refl)
  get_elem?-some (d ∷ ds) (suc j) h = get_elem?-some ds j (omega arith)

  -- Once the goroutine of every document has written, every slot is that of its document.
  fan_out-map :
      (order : List ℕ)
      → Covers (length docs) order
      → fan_out format marshal docs order (replicate (length docs) none) ≡ map slot_of docs
  fan_out-map order covers =
      get_elem?_ext (fan_out format marshal docs order (replicate (length docs) none))
        (map slot_of docs) (lengths ∙ sym (length-map docs slot_of)) same
    where
      lengths :
          length (fan_out format marshal docs order (replicate (length docs) none)) ≡ length docs
      lengths =
          length-fan_out order (replicate (length docs) none) ∙ length-replicate (length docs) none

      same :
          (j : ℕ)
          → j < length (map slot_of docs)
          → get_elem? (fan_out format marshal docs order (replicate (length docs) none)) j
            ≡ get_elem? (map slot_of docs) j
      same j lt =
          let below : j < length docs = omega (arith, length-map docs slot_of) in
          let (doc, h) = get_elem?-some docs j below in
          get_elem?-fan_out order j doc (replicate (length docs) none)
            (length-replicate (length docs) none) h
          ∙ rw (covers j below) (sym (get_elem?-map_slot docs j doc h))

  map-slot_value :
      (nil_json : J) (ds : List (Document F V))
      → map (slot_value format marshal nil_json) (map slot_of ds)
        ≡ map (serialize format marshal) ds
  map-slot_value nil_json [] = refl
  map-slot_value nil_json (d ∷ ds) =
      ap (◌∷◌ (serialize format marshal d)) (map-slot_value nil_json ds)

  -- For a batch of any size, and in whatever order the goroutines of a large one write, the slots are those
  -- of the documents one by one, once the goroutine of every document has written.
  pub prepare-map :
      (nil_json : J) (order : List ℕ)
      → (32 ≤ length docs → Covers (length docs) order)
      → prepare format marshal nil_json order docs ≡ map (serialize format marshal) docs
  unfolding prepare
  prepare-map nil_json order covers = elim (Bool-cases (leb 32 (length docs))) [
    | inl e ↦ rw e (
        ap (map (slot_value format marshal nil_json))
          (fan_out-map order (covers (large (length docs) e)))
        ∙ map-slot_value nil_json docs)
    | inr e ↦ rw e refl
  ]
    where
      large : (n : ℕ) → leb 32 n ≡ true → 32 ≤ n
      large n h = ground arith
