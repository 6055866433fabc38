-- ===== src/Chunker/Fixed/Windows.antt =====
-- The windows that `FixedSizeChunker` returns.
use vector_sync.Base.{
  ℕ, zero, suc, ◌+◌, ◌-◌, ◌*◌, ◌≤◌, ◌<◌, ◌≡◌, refl, sym, ap, ◌∙◌, List, [], ◌∷◌, ◌++◌, some, arith,
  length, take, drop, get_elem?, All, length-take, length-drop, drop-drop, drop-take,
  take-append-drop, take_all, append-nil,
}
use native.Mathlib.Decide.{dec_le}
use vector_sync.Base.Int.{ℤ}
use vector_sync.Base.Text.{Bytes}
use vector_sync.Chunker.Sizes.{chunk_size, chunk_overlap, chunk_size-pos, chunk_overlap-lt}
use vector_sync.Chunker.Fixed.{fixed_loop, fixed_chunk}

-- The text that chunks spell when each but the first begins with `overlap` bytes of the one before.
abbrev pub tails : ℕ → List Bytes → Bytes
tails overlap [] = []
tails overlap (c ∷ cs) = drop overlap c ++ tails overlap cs

abbrev pub stitch : ℕ → List Bytes → Bytes
stitch overlap [] = []
stitch overlap (c ∷ cs) = c ++ tails overlap cs

-- A chunk is not empty, and no longer than `size`.
abbrev pub Fits : ℕ → Bytes → Type 0
Fits size c = (0 < length c) × (length c ≤ size)

module _ (text : Bytes) (size overlap : ℕ) (small : overlap < size) where
  abbrev loop : ℕ → ℕ → List Bytes
  loop fuel start = fixed_loop fuel text size overlap start

  last_window :
      (fuel start : ℕ)
      → start < length text
      → length text ≤ start + size
      → loop (suc fuel) start ≡ drop start text ∷ []
  unfolding fixed_loop
  last_window fuel start h e = ground (
    arith,
    take_all (length text - start) (drop start text) (omega (arith, length-drop start text)),
  )

  next_window :
      (fuel start : ℕ)
      → start + size < length text
      → loop (suc fuel) start ≡ take size (drop start text) ∷ loop fuel (start + size - overlap)
  unfolding fixed_loop
  next_window fuel start e = ground (
    arith,
    ap (λ k. take k (drop start text)) (let e : start + size - start ≡ size = omega arith in e),
  )

  loop-All-Fits : (fuel start : ℕ) → start < length text → All (Fits size) (loop fuel start)
  loop-All-Fits zero start h = unfold fixed_loop in tt
  loop-All-Fits (suc fuel) start h = elim (dec_le (length text) (start + size)) [
    | yes e ↦
        rw (last_window fuel start h e)
          ((omega (arith, length-drop start text), omega (arith, length-drop start text)), tt)
    | no e ↦ rw (next_window fuel start (omega arith)) (
      (
        omega (arith, length-take size (drop start text), length-drop start text),
        omega (arith, length-take size (drop start text)),
      ),
      loop-All-Fits fuel (start + size - overlap) (omega arith),
    )
  ]

  tails-loop :
      (fuel start : ℕ)
      → start + overlap < length text
      → length text ≤ start + fuel
      → tails overlap (loop fuel start) ≡ drop (start + overlap) text
  tails-loop zero start h enough = absurd (omega arith)
  tails-loop (suc fuel) start h enough = elim (dec_le (length text) (start + size)) [
    | yes e ↦
        rw (last_window fuel start (omega arith) e)
          (append-nil (drop overlap (drop start text)) ∙ drop-drop overlap start text)
    | no e ↦
        rw (next_window fuel start (omega arith), drop-take, drop-drop)
          (ap (◌++◌ (take (size - overlap) (drop (start + overlap) text))) (
              tails-loop fuel (start + size - overlap) (omega arith) (omega arith)
              ∙ ap (λ k. drop k text)
                  (let e : start + size - overlap + overlap ≡ start + overlap + (size - overlap) =
                      omega arith in
                    e)
              ∙ sym (drop-drop (size - overlap) (start + overlap) text))
            ∙ take-append-drop (size - overlap) (drop (start + overlap) text))
  ]

  stitch-loop :
      (fuel : ℕ) → 0 < length text → length text ≤ fuel → stitch overlap (loop fuel 0) ≡ text
  stitch-loop zero h enough = absurd (omega arith)
  stitch-loop (suc fuel) h enough = elim (dec_le (length text) (0 + size)) [
    | yes e ↦ rw (last_window fuel 0 h e) (append-nil text)
    | no e ↦ rw (next_window fuel 0 (omega arith)) (
        ap (◌++◌ (take size text)) (
          tails-loop fuel (0 + size - overlap) (omega arith) (omega arith)
          ∙ ap (λ k. drop k text) (let e : 0 + size - overlap + overlap ≡ size = omega arith in e))
        ∙ take-append-drop size text)
  ]

  shift_zero : (start step : ℕ) → start ≡ start + zero * step
  shift_zero start step = omega arith

  shift_suc :
      (start size overlap j : ℕ)
      → overlap < size
      → start + size - overlap + j * (size - overlap) ≡ start + suc j * (size - overlap)
  shift_suc start size overlap j h = grind arith

  only_window :
      (start i : ℕ) (c : Bytes)
      → length text ≤ start + size
      → get_elem? (drop start text ∷ []) i ≡ some c
      → c ≡ take size (drop (start + i * (size - overlap)) text)
  only_window start zero c q e = cc (
      sym (take_all size (drop start text) (omega (arith, length-drop start text)))
      ∙ ap (λ k. take size (drop k text)) (shift_zero start (size - overlap)))
  only_window start (suc i) c q e = ground arith

  get_elem?-loop :
      (fuel start i : ℕ) (c : Bytes)
      → start < length text
      → get_elem? (loop fuel start) i ≡ some c
      → c ≡ take size (drop (start + i * (size - overlap)) text)
  get_elem?-loop zero start i c h e = absurd (unfold fixed_loop in ground arith)
  get_elem?-loop (suc fuel) start i c h e = elim (dec_le (length text) (start + size)) [
    | yes q ↦ only_window start i c q (rw (last_window fuel start h q) at e)
    | no q ↦
        later i (rw (next_window fuel start (omega arith)) at e)
          (λ k d. get_elem?-loop fuel (start + size - overlap) k d (omega arith))
  ]
    where
      later :
          (j : ℕ)
          → get_elem? (take size (drop start text) ∷ loop fuel (start + size - overlap)) j ≡ some c
          → ((k : ℕ) (d : Bytes)
              → get_elem? (loop fuel (start + size - overlap)) k ≡ some d
              → d ≡ take size (drop (start + size - overlap + k * (size - overlap)) text))
          → c ≡ take size (drop (start + j * (size - overlap)) text)
      later zero e rec = cc (ap (λ k. take size (drop k text)) (shift_zero start (size - overlap)))
      later (suc j) e rec =
          rec j c e ∙ ap (λ k. take size (drop k text)) (shift_suc start size overlap j small)

module _ (text : Bytes) (size overlap : ℤ) where
  bounds : chunk_overlap (chunk_size size) overlap < chunk_size size
  bounds = chunk_overlap-lt (chunk_size size) overlap (chunk_size-pos size)

  fixed_chunk-loop :
      (n : ℕ)
      → length text ≡ suc n
      → fixed_chunk text size overlap
        ≡ fixed_loop
            (length text)
            text
            (chunk_size size)
            (chunk_overlap (chunk_size size) overlap)
            0
  unfolding fixed_chunk
  fixed_chunk-loop n e = ground arith

module _ (size overlap : ℤ) where
  -- The chunks cover the text: with the bytes that each but the first repeats from the one before
  -- it taken off, they spell the text, for every size and overlap.
  pub stitch-fixed_chunk :
      (text : Bytes)
      → stitch (chunk_overlap (chunk_size size) overlap) (fixed_chunk text size overlap) ≡ text
  stitch-fixed_chunk [] = unfold fixed_chunk in refl
  stitch-fixed_chunk (c ∷ s) =
      rw (fixed_chunk-loop (c ∷ s) size overlap (length s) refl)
        (stitch-loop (c ∷ s) _ _ (bounds (c ∷ s) size overlap) _ (omega arith) (omega arith))

  -- No chunk is empty, and none is longer than the size.
  pub fixed_chunk-All-Fits :
      (text : Bytes) → All (Fits (chunk_size size)) (fixed_chunk text size overlap)
  fixed_chunk-All-Fits [] = unfold fixed_chunk in tt
  fixed_chunk-All-Fits (c ∷ s) =
      rw (fixed_chunk-loop (c ∷ s) size overlap (length s) refl)
        (loop-All-Fits (c ∷ s) _ _ (bounds (c ∷ s) size overlap) _ 0 (omega arith))

  -- The chunk at place `i` is the window of `size` bytes at `i * (size - overlap)`, cut at the end
  -- of the text.
  pub get_elem?-fixed_chunk :
      (text : Bytes) (i : ℕ) (c : Bytes)
      → get_elem? (fixed_chunk text size overlap) i ≡ some c
      → let n = chunk_size size in c ≡ take n (drop (i * (n - chunk_overlap n overlap)) text)
  get_elem?-fixed_chunk [] i c e = absurd (unfold fixed_chunk in ground arith)
  get_elem?-fixed_chunk (b ∷ s) i c e =
      get_elem?-loop (b ∷ s) _ _ (bounds (b ∷ s) size overlap) _ 0 i c (omega arith)
        (rw (fixed_chunk-loop (b ∷ s) size overlap (length s) refl) at e)
      ∙ ap (λ k. take (chunk_size size) (drop k (b ∷ s))) (omega arith)
