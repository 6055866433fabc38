-- ===== src/Examples/Chunking.antt =====
-- The chunkers on short texts.
use mathlib.Core.List.{Sublist}
use vector_sync.Base.{
  ◌*◌, ◌-◌, ◌≤◌, ◌≡◌, refl, false, List, [], ◌∷◌, ◌++◌, some, arith, length, take, drop, concat,
  map, is_empty, All,
}
use vector_sync.Base.Int.{ℤ, pos, ◌+ℤ◌}
use vector_sync.Base.Text.{Bytes, codes}
use vector_sync.Strings.{contains, split, join}
use vector_sync.Strings.Trim.{trim_space}
use vector_sync.Strings.Split.{join-split}
use vector_sync.Chunker.Sizes.{chunk_size, chunk_overlap}
use vector_sync.Chunker.Fixed.{fixed_chunk}
use vector_sync.Chunker.Fixed.Windows.{stitch, stitch-fixed_chunk, get_elem?-fixed_chunk}
use vector_sync.Chunker.Sentence.{
  is_terminator, close_sentence, sentence_match, find_all, sentence_chunk, is_gap, span,
}
use vector_sync.Chunker.Sentence.Matches.{open_end, Sentence-sentence_match, find_all-drops}
use vector_sync.Chunker.Sentence.Chunks.{sentences, spaced, sentence_chunk-groups}
use vector_sync.Chunker.Sentence.Bounds.{bound, sentence_chunk-All-le-bound}
use vector_sync.Chunker.Recursive.{merge_docs, recursive_chunk}
use vector_sync.Chunker.Recursive.Keeps.{solid, recursive_chunk-keeps}
use vector_sync.Chunker.Recursive.Bounds.{merge_limit, merge_docs-All-le-limit}
use vector_sync.Chunker.Recursive.Blanks.{spaces, recursive_chunk-spaces}

abbrev letters : Bytes
letters = codes "abcdefgh"

abbrev lines : Bytes
lines = codes "one two.\nthree. four five"

stitch-fixed_chunk_example :
    stitch (chunk_overlap (chunk_size (pos 3)) (pos 1)) (fixed_chunk letters (pos 3) (pos 1))
    ≡ letters
stitch-fixed_chunk_example = stitch-fixed_chunk (pos 3) (pos 1) letters

get_elem?-fixed_chunk_example :
    let n = chunk_size (pos 3) in
    codes "cde" ≡ take n (drop (1 * (n - chunk_overlap n (pos 1))) letters)
unfolding fixed_chunk chunk_size chunk_overlap
get_elem?-fixed_chunk_example = get_elem?-fixed_chunk (pos 3) (pos 1) letters 1 (codes "cde") refl

join-split_example : join (split (codes "a,b") (codes ",")) (codes ",") ≡ codes "a,b"
join-split_example = join-split (codes "a,b") (codes ",") (λ e. ground arith)

Sentence-sentence_match_example :
    sentence_match (codes "pi" ++ []) ≡ some (codes "pi" ++ (span is_gap []).0, (span is_gap []).1)
unfolding is_terminator
Sentence-sentence_match_example =
    Sentence-sentence_match (codes "pi") [] (open_end 112 (105 ∷ []) (refl, (refl, tt)))

find_all-drops_example :
    find_all (codes "3" ++ ((46 ∷ []) ++ (49 ∷ codes "4 is pi.")))
    ≡ find_all (49 ∷ codes "4 is pi.")
unfolding is_terminator is_gap
find_all-drops_example =
    find_all-drops (codes "3") 46 [] 49 (codes "4 is pi.") (refl, tt) (refl, tt) refl refl

sentence_chunk-groups_example :
    (groups : List (List Bytes)) × (concat groups ≡ sentences (find_all lines))
    × All (λ g. is_empty g ≡ false) groups
    × ((overlap : ℤ) → sentence_chunk lines (pos 10) overlap ≡ map spaced groups)
unfolding find_all sentence_match close_sentence span is_terminator is_gap
sentence_chunk-groups_example = sentence_chunk-groups lines (pos 10) refl

abbrev two_words : Bytes
two_words = codes "a! b"

two_words-find_all : find_all two_words ≡ codes "a! " ∷ codes "b" ∷ []
unfolding find_all sentence_match close_sentence span is_terminator is_gap
two_words-find_all = refl

sentence_chunk-All-le-bound_example :
    All (λ c. length c ≤ bound (chunk_size (pos 3)) 2) (sentence_chunk two_words (pos 3) (pos 0))
unfolding trim_space
sentence_chunk-All-le-bound_example =
    sentence_chunk-All-le-bound two_words (pos 3) (pos 0) 2 (rw two_words-find_all refl)
      (rw two_words-find_all (omega arith, (omega arith, tt)))

recursive_chunk-keeps_example :
    Sublist (solid lines) (concat (recursive_chunk lines (pos 6) (pos 2)))
recursive_chunk-keeps_example = recursive_chunk-keeps lines (pos 6) (pos 2)

merge_docs-All-le-limit_example :
    All
      (λ c. length c ≤ merge_limit (codes " ") 6 2)
      (merge_docs (codes " ") 6 2 (codes "one" ∷ codes "two" ∷ codes "a" ∷ []))
merge_docs-All-le-limit_example =
    merge_docs-All-le-limit (codes " ") 6 2 (codes "one" ∷ codes "two" ∷ codes "a" ∷ [])
      (omega arith, (omega arith, (omega arith, tt)))
      (omega arith, (omega arith, (omega arith, tt)))

recursive_chunk-spaces_example : recursive_chunk (spaces 4) (pos 3) (pos 1) ≡ spaces 4 ∷ []
unfolding chunk_size
recursive_chunk-spaces_example = recursive_chunk-spaces 4 (pos 3) (pos 1) (omega arith)

-- With an overlap a chunk may be longer than the size.
long_chunk :
    recursive_chunk (codes "aaaaa bbbbbbbbbb") (pos 10) (pos 5)
    ≡ codes "aaaaa" ∷ codes "aaaaa bbbbbbbbbb" ∷ []
unfolding recursive_chunk chunk_size contains split ◌+ℤ◌ chunk_overlap join
long_chunk = refl
