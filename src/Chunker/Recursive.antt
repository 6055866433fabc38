-- ===== src/Chunker/Recursive.antt =====
-- `RecursiveCharacterChunker` of internal/chunker/chunker.go: the text is split by the first
-- separator that it holds, small parts are merged, and large parts are split by the next ones.
pub mod Keeps
pub mod Bounds
pub mod Blanks
use vector_sync.Base.{
  ℕ, zero, suc, ◌+◌, Bool, true, false, not, ◌&&◌, List, [], ◌∷◌, ◌++◌, ltb, leb, if◌then◌else◌,
  length, is_empty,
}
use vector_sync.Base.Int.{ℤ, pos, ◌+ℤ◌, ◌-ℤ◌, ltb_ℤ, is_zero}
use vector_sync.Base.Text.{Bytes, codes}
use vector_sync.Strings.{contains, split, join}
use vector_sync.Chunker.Sizes.{chunk_size, chunk_overlap}
use vector_sync.Chunker.Fixed.{fixed_chunk}

-- `NewRecursiveCharacterChunker`: "\n\n", "\n", " " and "".
unfoldable pub separators : List Bytes
separators = (10 ∷ 10 ∷ []) ∷ (10 ∷ []) ∷ (32 ∷ []) ∷ [] ∷ []

-- The variables of `mergeDocs`; `current_len` may fall below zero.
pub record Merge : Type 0 where
  pub merged : List Bytes
  pub block : List Bytes
  pub current_len : ℤ

module _ (sep : Bytes) (size overlap : ℕ) where
  -- `for currentLen > overlap && len(currentBlock) > 0`
  unfoldable pub shed : List Bytes → ℤ → List Bytes × ℤ
  shed [] len = ([], len)
  shed (removed ∷ block) len =
      let rest = shed block (len -ℤ pos (length removed + length sep)) in
      if ltb_ℤ (pos overlap) len then rest else (removed ∷ block, len)

  -- `currentLen+docLen+len(separator) > size && len(currentBlock) > 0`
  unfoldable pub overflows : Bytes → Merge → Bool
  overflows doc m =
      ltb_ℤ (pos size) (m.current_len +ℤ pos (length doc + length sep)) && not (is_empty m.block)

  -- The block is written out, and its end is kept for the overlap.
  unfoldable pub write_block : Merge → Merge
  unfolding shed
  write_block m =
      let (block, len) = shed m.block m.current_len in
      record { merged = m.merged ++ join m.block sep ∷ []; block = block; current_len = len }

  -- The flush before a document that does not fit.
  unfoldable pub flush_block : Bytes → Merge → Merge
  unfolding overflows write_block
  flush_block doc m = if overflows doc m then write_block m else m

  -- `currentBlock = append(currentBlock, doc)` and the length behind it.
  unfoldable pub append_doc : Bytes → Merge → Merge
  append_doc doc m = record m {
    block = m.block ++ doc ∷ [];
    current_len =
        if is_zero m.current_len
        then pos (length doc)
        else m.current_len +ℤ pos (length doc + length sep);
  }

  unfoldable pub merge_loop : List Bytes → Merge → Merge
  unfolding flush_block append_doc
  merge_loop [] m = m
  merge_loop (doc ∷ docs) m = merge_loop docs (append_doc doc (flush_block doc m))

  unfoldable pub last_block : Merge → List Bytes
  last_block m = if is_empty m.block then m.merged else m.merged ++ join m.block sep ∷ []

  -- `mergeDocs`
  unfoldable pub merge_docs : List Bytes → List Bytes
  unfolding merge_loop last_block
  merge_docs docs =
      last_block (merge_loop docs (record { merged = []; block = []; current_len = pos 0 }))

-- `if len(currentDocs) > 0 { … mergeDocs … }`
unfoldable pub flush_docs : Bytes → ℕ → ℕ → List Bytes → List Bytes
unfolding merge_docs
flush_docs sep size overlap docs = if is_empty docs then [] else merge_docs sep size overlap docs

-- The loop over the parts; `recur` is `splitText` with the separators that are left.
unfoldable pub parts_loop :
    Bytes → ℕ → ℕ → (Bytes → List Bytes) → List Bytes → List Bytes → List Bytes
unfolding flush_docs
parts_loop sep size overlap recur [] docs = flush_docs sep size overlap docs
parts_loop sep size overlap recur (part ∷ parts) docs = elim (ltb size (length part)) [
  | true ↦
      flush_docs sep size overlap docs ++ (recur part ++ parts_loop sep size overlap recur parts [])
  | false ↦ parts_loop sep size overlap recur parts (docs ++ part ∷ [])
]

-- `splitText`. The search for the first separator that the text holds is the recursion on the
-- separators; where it passes one by, the test of the length is made again to the same effect.
unfoldable pub split_text : List Bytes → ℕ → ℕ → Bytes → List Bytes
unfolding parts_loop
split_text [] size overlap text =
    if leb (length text) size then text ∷ [] else fixed_chunk text (pos size) (pos overlap)
split_text (sep ∷ seps) size overlap text = elim (leb (length text) size) [
  | true ↦ text ∷ []
  | false ↦ elim (contains text sep) [
    | true ↦ elim (is_empty sep) [
      | true ↦ fixed_chunk text (pos size) (pos overlap)
      | false ↦ parts_loop sep size overlap (split_text seps size overlap) (split text sep) []
    ]
    | false ↦ split_text seps size overlap text
  ]
]

-- `RecursiveCharacterChunker.Chunk`
unfoldable pub recursive_chunk : Bytes → ℤ → ℤ → List Bytes
unfolding separators split_text
recursive_chunk text size overlap =
    let n = chunk_size size in split_text separators n (chunk_overlap n overlap) text
