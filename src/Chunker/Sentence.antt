-- ===== src/Chunker/Sentence.antt =====
-- `SentenceChunker` of internal/chunker/chunker.go: the matches of the regular expression
-- `[^.!?]+([.!?]+(\s+|$)|$)`, trimmed and packed into chunks.
pub mod Matches
pub mod Chunks
pub mod Bounds
use vector_sync.Base.{
  ℕ, zero, suc, ◌+◌, Bool, true, false, not, ◌&&◌, ◌||◌, List, [], ◌∷◌, ◌++◌, Option, none, some,
  ◌==◌, ltb, if◌then◌else◌, length, is_empty,
}
use vector_sync.Base.Int.{ℤ}
use vector_sync.Base.Text.{Bytes}
use vector_sync.Strings.Trim.{trim_space}
use vector_sync.Chunker.Sizes.{chunk_size}

-- `[.!?]`
unfoldable pub is_terminator : ℕ → Bool
is_terminator c = c == b'.' || (c == b'!' || c == b'?')

-- `\s`: tab, line feed, form feed, carriage return and space
unfoldable pub is_gap : ℕ → Bool
is_gap c = c == 9 || (c == 10 || (c == 12 || (c == 13 || c == 32)))

-- The longest run of bytes with the property that the text begins with, and what follows it.
unfoldable pub span : (ℕ → Bool) → Bytes → Bytes × Bytes
span p [] = ([], [])
span p (c ∷ s) = let (run, rest) = span p s in if p c then (c ∷ run, rest) else ([], c ∷ s)

-- The part of the pattern behind `[^.!?]+`, and the whole match with what follows it.
unfoldable pub close_sentence : Bytes → Bytes → Option (Bytes × Bytes)
close_sentence body after_body =
    let (ends, after_ends) = span is_terminator after_body in
    let (gap, rest) = span is_gap after_ends in
    if is_empty body
    then none
    else if is_empty after_body
    then some (body, [])
    else if is_empty gap && not (is_empty after_ends)
    then none
    else some (body ++ (ends ++ gap), rest)

-- The match that begins where the text begins, and what follows it. A shorter run of either kind
-- is followed by a byte that the rest of the pattern refuses, so backtracking finds no other match.
unfoldable pub sentence_match : Bytes → Option (Bytes × Bytes)
sentence_match text =
    let (body, after_body) = span (λ c. not (is_terminator c)) text in
    close_sentence body after_body

-- `FindAllString(text, -1)`: where no match begins the search goes on one byte further. A match is
-- not empty, so a round for each byte is enough.
unfoldable pub find_all_loop : ℕ → Bytes → List Bytes
find_all_loop zero text = []
find_all_loop (suc fuel) [] = []
find_all_loop (suc fuel) (c ∷ s) = elim (sentence_match (c ∷ s)) [
  | none ↦ find_all_loop fuel s
  | some (m, rest) ↦ m ∷ find_all_loop fuel rest
]

unfoldable pub find_all : Bytes → List Bytes
unfolding find_all_loop
find_all text = find_all_loop (length text) text

-- The chunks that are done, and the string builder.
pub record Packing : Type 0 where
  pub chunks : List Bytes
  pub current : Bytes

-- The flush before a sentence that does not fit.
unfoldable pub flush : ℕ → Bytes → Packing → Packing
flush size sentence p =
    if ltb size (length p.current + length sentence) && ltb 0 (length p.current)
    then record { chunks = p.chunks ++ p.current ∷ []; current = [] }
    else p

-- `WriteString(" ")` behind what is there, and `WriteString(sentence)`.
unfoldable pub write : Bytes → Packing → Packing
write sentence p = record p {
  current = (if ltb 0 (length p.current) then p.current ++ 32 ∷ [] else p.current) ++ sentence;
}

-- One round of the loop over the matches.
unfoldable pub pack_sentence : ℕ → Bytes → Packing → Packing
unfolding flush write
pack_sentence size m p =
    let sentence = trim_space m in
    if is_empty sentence then p else write sentence (flush size sentence p)

unfoldable pub pack_loop : ℕ → List Bytes → Packing → Packing
unfolding pack_sentence
pack_loop size [] p = p
pack_loop size (m ∷ ms) p = pack_loop size ms (pack_sentence size m p)

-- The chunk that is left over when the loop ends.
unfoldable pub last_chunk : Packing → List Bytes
last_chunk p = if ltb 0 (length p.current) then p.chunks ++ p.current ∷ [] else p.chunks

-- `SentenceChunker.Chunk`; the overlap is normalised and then not read.
unfoldable pub sentence_chunk : Bytes → ℤ → ℤ → List Bytes
unfolding find_all pack_loop last_chunk
sentence_chunk text size overlap =
    let matches = find_all text in
    if is_empty matches
    then (if ltb 0 (length text) then text ∷ [] else [])
    else last_chunk (pack_loop (chunk_size size) matches (record { chunks = []; current = [] }))
