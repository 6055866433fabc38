-- ===== src/Chunker/Sentence/Bounds.antt =====
-- How long the chunks of `SentenceChunker` get.
use vector_sync.Base.{
  ℕ, suc, ◌+◌, ◌≤◌, ◌≡◌, refl, ◌⊎◌, inl, inr, false, List, [], ◌∷◌, ◌++◌, arith, length,
  length-append, is_empty, All, All-append, max, Bool-cases,
}
use vector_sync.Base.Int.{ℤ}
use vector_sync.Base.Text.{Bytes}
use vector_sync.Strings.Trim.{trim_space}
use vector_sync.Chunker.Sizes.{chunk_size}
use vector_sync.Chunker.Sentence.{
  find_all, Packing, flush, write, pack_sentence, pack_loop, last_chunk, sentence_chunk,
}
use vector_sync.Chunker.Sentence.Chunks.{sentences, start, matched}

-- A chunk is one sentence, or no more than one byte longer than the size.
abbrev pub bound : ℕ → ℕ → ℕ
bound size longest = max (suc size) longest

module _ (size longest : ℕ) where
  abbrev IsBounded : Bytes → Type 0
  IsBounded c = length c ≤ bound size longest

  abbrev AreBounded : Packing → Type 0
  AreBounded p = All IsBounded p.chunks × IsBounded p.current

  write-bound :
      (s : Bytes) (p : Packing)
      → length s ≤ longest
      → (length p.current + length s ≤ size) ⊎ (length p.current ≡ 0)
      → length (write s p).current ≤ bound size longest
  unfolding write
  write-bound s p short room = ground (
    arith,
    length-append p.current (32 ∷ []),
    length-append (p.current ++ 32 ∷ []) s,
    length-append p.current s,
  )

  flush_room :
      (s : Bytes) (p : Packing)
      → (length (flush size s p).current + length s ≤ size) ⊎ (length (flush size s p).current ≡ 0)
  unfolding flush
  flush_room s p = ground arith

  flush_chunks : (s : Bytes) (p : Packing) → AreBounded p → All IsBounded (flush size s p).chunks
  unfolding flush
  flush_chunks s p (done, cur) =
      ground (arith, All-append IsBounded p.chunks (p.current ∷ []) done (cur, tt))

  write_chunks : (s : Bytes) (p : Packing) → (write s p).chunks ≡ p.chunks
  unfolding write
  write_chunks s p = refl

  pack_sentence_bound :
      (m : Bytes) (p : Packing)
      → All (λ s. length s ≤ longest) (sentences (m ∷ []))
      → AreBounded p
      → AreBounded (pack_sentence size m p)
  unfolding pack_sentence
  pack_sentence_bound m p short h = elim (Bool-cases (is_empty (trim_space m))) [
    | inl e ↦ rw (e, pack_sentence) h
    | inr e ↦
        rw (e, pack_sentence)
          (
            rw (write_chunks (trim_space m) (flush size (trim_space m) p))
                (flush_chunks (trim_space m) p h),
            write-bound (trim_space m) (flush size (trim_space m) p) (rw e at short).0
                (flush_room (trim_space m) p),
          )
  ]

  short_head :
      (m : Bytes) (ms : List Bytes)
      → All (λ s. length s ≤ longest) (sentences (m ∷ ms))
      → All (λ s. length s ≤ longest) (sentences (m ∷ []))
  short_head m ms h = elim (Bool-cases (is_empty (trim_space m))) [
    | inl e ↦ rw e tt
    | inr e ↦ rw e ((rw e at h).0, tt)
  ]

  short_tail :
      (m : Bytes) (ms : List Bytes)
      → All (λ s. length s ≤ longest) (sentences (m ∷ ms))
      → All (λ s. length s ≤ longest) (sentences ms)
  short_tail m ms h = elim (Bool-cases (is_empty (trim_space m))) [
    | inl e ↦ rw e at h
    | inr e ↦ (rw e at h).1
  ]

  pack_loop_bound :
      (ms : List Bytes) (p : Packing)
      → All (λ s. length s ≤ longest) (sentences ms)
      → AreBounded p
      → AreBounded (pack_loop size ms p)
  unfolding pack_loop
  pack_loop_bound [] p short h = h
  pack_loop_bound (m ∷ ms) p short h =
      pack_loop_bound ms (pack_sentence size m p) (short_tail m ms short)
        (pack_sentence_bound m p (short_head m ms short) h)

  last_chunk_bound : (p : Packing) → AreBounded p → All IsBounded (last_chunk p)
  unfolding last_chunk
  last_chunk_bound p (done, cur) =
      ground (arith, All-append IsBounded p.chunks (p.current ∷ []) done (cur, tt))

-- Where the pattern matches somewhere in the text: if no sentence is longer than `longest`, no chunk is
-- longer than `longest` or than the size and one byte, the space between two sentences, which is
-- written and not counted.
pub sentence_chunk-All-le-bound :
    (text : Bytes) (size overlap : ℤ) (longest : ℕ)
    → is_empty (find_all text) ≡ false
    → All (λ s. length s ≤ longest) (sentences (find_all text))
    → All (λ c. length c ≤ bound (chunk_size size) longest) (sentence_chunk text size overlap)
sentence_chunk-All-le-bound text size overlap longest e short = rw (matched text size overlap e) (
    last_chunk_bound (chunk_size size) longest _
      (pack_loop_bound (chunk_size size) longest (find_all text) start short (tt, omega arith)))
