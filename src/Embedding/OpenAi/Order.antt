-- ===== src/Embedding/OpenAi/Order.antt =====
-- The order of the embeddings that the OpenAI client returns.
use vector_sync.Base.{
  ℕ, ◌+◌, ◌<◌, ◌≡◌, refl, ◌∙◌, Bool, true, false, ltb, List, [], ◌∷◌, none, some, arith, ◌==◌,
  if◌then◌else◌, length, get_elem?, replicate, is_empty, length-replicate, length-set,
  get_elem?-set, get_elem?-replicate, All,
}
use vector_sync.Base.Int.{ℤ, pos, negsuc}
use vector_sync.Base.Exec.{ok}
use vector_sync.Embedding.OpenAi.{write_if, place_item, place, first_missing, arrange}

abbrev pub is_at : ℤ → ℕ → Bool
is_at (pos i) j = i == j
is_at (negsuc i) j = false

module _ {F : Type 0} where
  length-write_if :
      (e : List F) (i : ℕ) (results : List (List F)) (b : Bool) (h : ltb i (length results) ≡ b)
      → length (write_if e i results b h) ≡ length results
  length-write_if e i results true h = length-set results i e
  length-write_if e i results false h = refl

  length-place_item :
      (e : List F) (i : ℤ) (results : List (List F))
      → length (place_item e i results) ≡ length results
  unfolding place_item
  length-place_item e (pos i) results = length-write_if e i results (ltb i (length results)) refl
  length-place_item e (negsuc i) results = refl

  pub length-place :
      (items : List (List F × ℤ)) (results : List (List F))
      → length (place items results) ≡ length results
  unfolding place
  length-place [] results = refl
  length-place ((e, i) ∷ items) results =
      length-place items (place_item e i results) ∙ length-place_item e i results

  -- The last item of the answer with the index.
  abbrev pub last_at : ℕ → List F → List (List F × ℤ) → List F
  last_at j found [] = found
  last_at j found ((e, i) ∷ items) = last_at j (if is_at i j then e else found) items

  write_if-at :
      (e : List F) (i : ℕ) (results : List (List F)) (b : Bool) (h : ltb i (length results) ≡ b)
      (j : ℕ) (old : List F)
      → get_elem? results j ≡ some old
      → j < length results
      → get_elem? (write_if e i results b h) j ≡ some (if i == j then e else old)
  write_if-at e i results true h j old k lt = ground (arith, get_elem?-set results i j e)
  write_if-at e i results false h j old k lt = ground arith

  place_item-at :
      (e : List F) (i : ℤ) (results : List (List F)) (j : ℕ) (old : List F)
      → get_elem? results j ≡ some old
      → j < length results
      → get_elem? (place_item e i results) j ≡ some (if is_at i j then e else old)
  unfolding place_item
  place_item-at e (pos i) results j old h lt =
      write_if-at e i results (ltb i (length results)) refl j old h lt
  place_item-at e (negsuc i) results j old h lt = h

  place-last_at :
      (items : List (List F × ℤ)) (results : List (List F)) (j : ℕ) (old : List F)
      → get_elem? results j ≡ some old
      → j < length results
      → get_elem? (place items results) j ≡ some (last_at j old items)
  unfolding place
  place-last_at [] results j old h lt = h
  place-last_at ((e, i) ∷ items) results j old h lt =
      place-last_at items (place_item e i results) j (if is_at i j then e else old)
        (place_item-at e i results j old h lt) (omega (arith, length-place_item e i results))

  first_missing-none :
      (i : ℕ) (es : List (List F)) → first_missing i es ≡ none → All (λ e. is_empty e ≡ false) es
  unfolding first_missing
  first_missing-none i [] h = tt
  first_missing-none i (e ∷ es) h = ground (arith, first_missing-none (i + 1) es)

  arrange-ok :
      (n : ℕ) (items : List (List F × ℤ)) (es : List (List F))
      → arrange n items ≡ ok es
      → (es ≡ place items (replicate n []))
        × (first_missing 0 (place items (replicate n [])) ≡ none)
  unfolding arrange
  arrange-ok n items es h = ground arith

-- An accepted answer has an embedding for each text, none is empty, and the one for the text at
-- place `j` is that of the last item with index `j`, in whatever order the items came.
pub arrange_order :
    {F : Type 0} (n : ℕ) (items : List (List F × ℤ)) (es : List (List F))
    → arrange n items ≡ ok es
    → (length es ≡ n)
      × All (λ e. is_empty e ≡ false) es
      × ((j : ℕ) → j < n → get_elem? es j ≡ some (last_at j [] items))
arrange_order {F} n items es h =
    let (e, full) = arrange-ok n items es h in
    rw e (
      length-place items (replicate n []) ∙ length-replicate {A = List F} n [],
      first_missing-none 0 (place items (replicate n [])) full,
      λ j lt.
          place-last_at items (replicate n []) j [] (get_elem?-replicate n j [] lt)
            (rw (length-replicate {A = List F} n []) lt),
    )
