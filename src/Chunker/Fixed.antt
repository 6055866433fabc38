-- ===== src/Chunker/Fixed.antt =====
-- `FixedSizeChunker` of internal/chunker/chunker.go: windows of `size` bytes, each of which begins
-- `overlap` bytes before the end of the one before it.
pub mod Windows
use vector_sync.Base.{
  ℕ, zero, suc, ◌+◌, ◌-◌, List, [], ◌∷◌, ◌==◌, ltb, if◌then◌else◌, length, take, drop,
}
use vector_sync.Base.Int.{ℤ}
use vector_sync.Base.Text.{Bytes}
use vector_sync.Chunker.Sizes.{chunk_size, chunk_overlap}

-- `text[start:end]`
unfoldable pub slice : Bytes → ℕ → ℕ → Bytes
slice text start end = take (end - start) (drop start text)

-- `end := start + size; if end > textLen { end = textLen }`
unfoldable pub window_end : ℕ → ℕ → ℕ → ℕ
window_end text_len size start =
    let end = start + size in if ltb text_len end then text_len else end

-- The loop. Each round but the last moves `start` on, so a round for each byte is enough.
unfoldable pub fixed_loop : ℕ → Bytes → ℕ → ℕ → ℕ → List Bytes
unfolding slice window_end
fixed_loop zero text size overlap start = []
fixed_loop (suc fuel) text size overlap start =
    let text_len = length text in
    let end = window_end text_len size start in
    let rest = fixed_loop fuel text size overlap (end - overlap) in
    let chunks = slice text start end ∷ (if end == text_len then [] else rest) in
    if ltb start text_len then chunks else []

-- `FixedSizeChunker.Chunk`
unfoldable pub fixed_chunk : Bytes → ℤ → ℤ → List Bytes
unfolding fixed_loop
fixed_chunk text size overlap =
    let n = chunk_size size in
    let o = chunk_overlap n overlap in
    if length text == 0 then [] else fixed_loop (length text) text n o 0
