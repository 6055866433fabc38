-- ===== src/Chunker.antt =====
-- internal/chunker/chunker.go: the strategies by name, and the interface that they share.
pub mod Sizes
pub mod Fixed
pub mod Sentence
pub mod Recursive
use vector_sync.Base.{Bool, true, false, String, List, if◌then◌else◌}
use vector_sync.Base.Int.{ℤ}
use vector_sync.Base.Text.{Bytes, codes, bytes_eq}
use vector_sync.Strings.{to_lower}
use Fixed.{fixed_chunk}
use Sentence.{sentence_chunk}
use Recursive.{recursive_chunk}

-- The implementations of the interface `Chunker`.
pub data Chunker : Type 0 where
  fixed_size sentences recursive_character : Chunker

-- `GetChunker`
unfoldable pub get_chunker : String → Chunker
unfolding to_lower
get_chunker strategy =
    let name = to_lower strategy in
    if bytes_eq name (codes "fixed")
    then fixed_size
    else if bytes_eq name (codes "sentence")
    then sentences
    else recursive_character

-- `Chunker.Chunk`
unfoldable pub chunk : Chunker → Bytes → ℤ → ℤ → List Bytes
chunk fixed_size = fixed_chunk
chunk sentences = sentence_chunk
chunk recursive_character = recursive_chunk
