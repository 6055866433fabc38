-- ===== src/Chunker/Recursive/Blanks.antt =====
-- What the recursive chunker makes of a text of spaces.
use vector_sync.Base.{
  ℕ, zero, suc, ◌+◌, ◌<◌, ◌≡◌, refl, ap, ◌∙◌, inl, inr, true, false, List, [], ◌∷◌, ◌++◌, arith,
  length, length-replicate, replicate, leb, ltb, Bool-cases,
}
use vector_sync.Base.Int.{ℤ, pos, ◌+ℤ◌}
use vector_sync.Base.Text.{Bytes}
use vector_sync.Strings.{contains, split_loop, split, join}
use vector_sync.Chunker.Sizes.{chunk_size, chunk_size-pos, chunk_overlap}
use vector_sync.Chunker.Recursive.{
  separators, Merge, overflows, flush_block, append_doc, merge_loop, last_block, merge_docs,
  flush_docs, parts_loop, split_text, recursive_chunk,
}

abbrev pub spaces : ℕ → Bytes
spaces n = replicate n 32

contains-spaces : (n : ℕ) (t : Bytes) → contains (spaces n) (10 ∷ t) ≡ false
unfolding contains
contains-spaces zero t = refl
contains-spaces (suc n) t = contains-spaces n t

split-spaces : (n : ℕ) → split_loop (32 ∷ []) (spaces n) 0 [] ≡ replicate (suc n) []
unfolding split_loop
split-spaces zero = refl
split-spaces (suc n) = ap (◌∷◌ []) (split-spaces n)

split-lem : (n : ℕ) → split (spaces n) (32 ∷ []) ≡ replicate (suc n) []
unfolding split
split-lem n = split-spaces n

replicate-concat {ℓ} : {A : Type ℓ} (n : ℕ) (a : A) → replicate n a ++ a ∷ [] ≡ replicate (suc n) a
replicate-concat zero a = refl
replicate-concat (suc n) a = ap (◌∷◌ a) (replicate-concat n a)

join-replicate : (n : ℕ) → join (replicate (suc n) []) (32 ∷ []) ≡ spaces n
unfolding join
join-replicate zero = refl
join-replicate (suc n) = ap (◌∷◌ 32) (join-replicate n)

abbrev empties : ℕ → Merge
empties n = record { merged = []; block = replicate n []; current_len = pos 0 }

-- A separator that the text does not hold is passed by, and one that it holds is split at.
module _ (seps : List Bytes) (size overlap : ℕ) (text : Bytes)
    (long : leb (length text) size ≡ false) where
  split_text_skip :
      (sep : Bytes)
      → contains text sep ≡ false
      → split_text (sep ∷ seps) size overlap text ≡ split_text seps size overlap text
  unfolding split_text
  split_text_skip sep e = rw (long, e, split_text) refl

  split_text_hit :
      (c : ℕ) (s : Bytes)
      → contains text (c ∷ s) ≡ true
      → split_text ((c ∷ s) ∷ seps) size overlap text
        ≡ parts_loop (c ∷ s) size overlap (split_text seps size overlap) (split text (c ∷ s)) []
  unfolding split_text
  split_text_hit c s e = rw (long, e, split_text) refl

module _ (size overlap : ℕ) (positive : 0 < size) where
  parts_loop-replicate :
      (recur : Bytes → List Bytes) (n j : ℕ)
      → parts_loop (32 ∷ []) size overlap recur (replicate n []) (replicate j [])
        ≡ flush_docs (32 ∷ []) size overlap (replicate (j + n) [])
  unfolding parts_loop
  parts_loop-replicate recur zero j =
      ap (λ k. flush_docs (32 ∷ []) size overlap (replicate k []))
        (let e : j ≡ j + zero = omega arith in e)
  parts_loop-replicate recur (suc n) j = elim (Bool-cases (ltb size 0)) [
    | inl e ↦ absurd (ground arith)
    | inr e ↦
        rw (e, parts_loop)
          (ap (parts_loop (32 ∷ []) size overlap recur (replicate n [])) (replicate-concat j [])
            ∙ parts_loop-replicate recur n (suc j)
            ∙ ap (λ k. flush_docs (32 ∷ []) size overlap (replicate k []))
                (let e : suc j + n ≡ j + suc n = omega arith in e))
  ]

  fits_empty : (n : ℕ) → overflows (32 ∷ []) size overlap [] (empties n) ≡ false
  unfolding overflows ◌+ℤ◌
  fits_empty n = ground arith

  step-empties :
      (n : ℕ)
      → append_doc (32 ∷ []) size overlap [] (flush_block (32 ∷ []) size overlap [] (empties n))
        ≡ empties (suc n)
  unfolding append_doc flush_block
  step-empties n =
      rw (fits_empty n, flush_block)
        (λ i. record { merged = []; block = replicate-concat n [] i; current_len = pos 0 })

  merge_loop-replicate :
      (n j : ℕ) → merge_loop (32 ∷ []) size overlap (replicate n []) (empties j) ≡ empties (j + n)
  unfolding merge_loop
  merge_loop-replicate zero j = ap empties (let e : j ≡ j + zero = omega arith in e)
  merge_loop-replicate (suc n) j =
      ap (merge_loop (32 ∷ []) size overlap (replicate n [])) (step-empties j)
      ∙ merge_loop-replicate n (suc j)
      ∙ ap empties (let e : suc j + n ≡ j + suc n = omega arith in e)

  merge_docs-replicate :
      (n : ℕ) → merge_docs (32 ∷ []) size overlap (replicate (suc n) []) ≡ spaces n ∷ []
  unfolding merge_docs
  merge_docs-replicate n =
      ap (last_block (32 ∷ []) size overlap)
        (merge_loop-replicate (suc n) 0 ∙ ap empties (let e : 0 + suc n ≡ suc n = omega arith in e))
      ∙ ap (λ t. t ∷ []) (join-replicate n)

contains-space : (n : ℕ) → 0 < n → contains (spaces n) (32 ∷ []) ≡ true
unfolding contains
contains-space zero h = absurd (omega arith)
contains-space (suc n) h = refl

-- A text of spaces is returned as one chunk, however far it is longer than the size.
pub recursive_chunk-spaces :
    (n : ℕ) (size overlap : ℤ)
    → chunk_size size < n
    → recursive_chunk (spaces n) size overlap ≡ spaces n ∷ []
unfolding recursive_chunk separators
recursive_chunk-spaces n size overlap h =
    split_text_skip ((10 ∷ []) ∷ (32 ∷ []) ∷ [] ∷ []) k o (spaces n) long (10 ∷ 10 ∷ [])
      (contains-spaces n (10 ∷ []))
    ∙ split_text_skip ((32 ∷ []) ∷ [] ∷ []) k o (spaces n) long (10 ∷ []) (contains-spaces n [])
    ∙ split_text_hit ([] ∷ []) k o (spaces n) long 32 [] (contains-space n (omega arith))
    ∙ rw (split-lem n) (
        parts_loop-replicate k o (chunk_size-pos size) (split_text ([] ∷ []) k o) (suc n) 0
        ∙ ap (λ j. flush_docs (32 ∷ []) k o (replicate j []))
            (let e : 0 + suc n ≡ suc n = omega arith in e)
        ∙ merge_docs-replicate k o (chunk_size-pos size) n)
  where
    k : ℕ
    k = chunk_size size

    o : ℕ
    o = chunk_overlap k overlap

    long : leb (length (spaces n)) k ≡ false
    long = ground (arith, length-replicate {A = ℕ} n 32)
