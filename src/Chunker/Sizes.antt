-- ===== src/Chunker/Sizes.antt =====
-- The defaults that every `Chunk` method of internal/chunker/chunker.go begins with.
use vector_sync.Base.{ℕ, ◌/◌, ◌==◌, ◌<◌, ◌≡◌, arith, leb, if◌then◌else◌}
use vector_sync.Base.Int.{ℤ, pos, negsuc}

-- `if size <= 0 { size = 500 }`
unfoldable pub chunk_size : ℤ → ℕ
chunk_size (pos n) = if n == 0 then 500 else n
chunk_size (negsuc n) = 500

-- `if overlap < 0 { overlap = 0 }`
at_least_zero : ℤ → ℕ
at_least_zero (pos n) = n
at_least_zero (negsuc n) = 0

-- `if overlap >= size { overlap = size / 2 }`, behind the test above.
unfoldable pub chunk_overlap : ℕ → ℤ → ℕ
unfolding at_least_zero
chunk_overlap size overlap = let o = at_least_zero overlap in if leb size o then size / 2 else o

pub chunk_size-pos : (size : ℤ) → 0 < chunk_size size
unfolding chunk_size
chunk_size-pos (pos n) = ground arith
chunk_size-pos (negsuc n) = omega arith

pub chunk_overlap-lt : (size : ℕ) (overlap : ℤ) → 0 < size → chunk_overlap size overlap < size
unfolding chunk_overlap
chunk_overlap-lt size overlap h = ground arith

-- A size and an overlap that are in range are taken as they are.
pub chunk_size_self : (size : ℕ) → 0 < size → chunk_size (pos size) ≡ size
unfolding chunk_size
chunk_size_self size h = ground arith

pub chunk_overlap_self :
    (size overlap : ℕ) → overlap < size → chunk_overlap size (pos overlap) ≡ overlap
unfolding chunk_overlap
chunk_overlap_self size overlap h = ground arith
