-- ===== src/Chunker/Sentence/Chunks.antt =====
-- How `SentenceChunker` packs sentences into chunks.
use vector_sync.Base.{
  ℕ, ◌+◌, ◌≡◌, refl, sym, ap, ◌∙◌, inl, inr, true, false, List, [], ◌∷◌, ◌++◌, append-nil,
  append_assoc, arith, is_empty, length, concat, concat-append, map, All, All-append, ltb,
  Bool-cases, if◌then◌else◌,
}
use vector_sync.Base.Int.{ℤ}
use vector_sync.Base.Text.{Bytes}
use vector_sync.Strings.{join}
use vector_sync.Strings.Trim.{trim_space}
use vector_sync.Chunker.Sizes.{chunk_size}
use vector_sync.Chunker.Sentence.{
  find_all, Packing, flush, write, pack_sentence, pack_loop, last_chunk, sentence_chunk,
}

-- The sentences of the matches: trimmed, and those left out that are then empty.
abbrev pub sentences : List Bytes → List Bytes
sentences [] = []
sentences (m ∷ ms) = if is_empty (trim_space m) then sentences ms else trim_space m ∷ sentences ms

-- Sentences with one space between two of them.
abbrev pub spaced : List Bytes → Bytes
spaced ss = join ss (32 ∷ [])

abbrev IsFull : {A : Type 0} → List A → Type 0
IsFull xs = is_empty xs ≡ false

spaced-snoc :
    (s : Bytes) (ss : List Bytes) (t : Bytes)
    → spaced ((s ∷ ss) ++ t ∷ []) ≡ spaced (s ∷ ss) ++ (32 ∷ t)
unfolding join
spaced-snoc s [] t = refl
spaced-snoc s (r ∷ ss) t =
    ap (λ x. s ++ (32 ∷ x)) (spaced-snoc r ss t)
    ∙ sym (append_assoc s (32 ∷ spaced (r ∷ ss)) (32 ∷ t))

spaced_full : (s : Bytes) (ss : List Bytes) → IsFull s → ltb 0 (length (spaced (s ∷ ss))) ≡ true
unfolding join
spaced_full [] ss h = ground arith
spaced_full (b ∷ bs) [] h = ground arith
spaced_full (b ∷ bs) (r ∷ ss) h = ground arith

map-snoc :
    {A B : Type 0} (f : A → B) (xs : List A) (x : A) → map f (xs ++ x ∷ []) ≡ map f xs ++ f x ∷ []
map-snoc f [] x = refl
map-snoc f (y ∷ xs) x = ap (λ ys. f y ∷ ys) (map-snoc f xs x)

-- The packing where the chunks are these groups and the last group is being built.
abbrev packing : List (List Bytes) → List Bytes → Packing
packing groups last = record { chunks = map spaced groups; current = spaced last }

-- The packing holds the sentences that are done, in order.
abbrev Packs : List Bytes → Packing → Type 0
Packs done p =
    (groups : List (List Bytes)) × (last : List Bytes) × (p ≡ packing groups last)
    × (concat groups ++ last ≡ done)
    × All IsFull groups
    × All IsFull last

concat-snoc :
    (groups : List (List Bytes)) (last : List Bytes)
    → concat (groups ++ last ∷ []) ++ [] ≡ concat groups ++ last
concat-snoc groups last =
    append-nil (concat (groups ++ last ∷ []))
    ∙ concat-append groups (last ∷ [])
    ∙ ap (λ x. concat groups ++ x) (append-nil last)

flush-packing :
    (size : ℕ) (s : Bytes) (groups : List (List Bytes)) (last : List Bytes)
    → All IsFull groups
    → All IsFull last
    → Packs (concat groups ++ last) (flush size s (packing groups last))
unfolding flush join
flush-packing size s groups [] g l = (groups, [], ground arith, refl, g, tt)
flush-packing size s groups (x ∷ xs) g l =
    elim (Bool-cases (ltb size (length (spaced (x ∷ xs)) + length s))) [
      | inl e ↦ (
        groups ++ (x ∷ xs) ∷ [],
        [],
        rw (flush, e, spaced_full x xs (l.0), map-snoc spaced groups (x ∷ xs)) refl,
        concat-snoc groups (x ∷ xs),
        All-append IsFull groups ((x ∷ xs) ∷ []) g (refl, tt),
        tt,
      )
      | inr e ↦ (groups, x ∷ xs, rw (flush, e) refl, refl, g, l)
    ]

write-packing :
    (s : Bytes) (groups : List (List Bytes)) (last : List Bytes)
    → All IsFull last
    → write s (packing groups last) ≡ packing groups (last ++ s ∷ [])
unfolding write join
write-packing s groups [] l = refl
write-packing s groups (x ∷ xs) l =
    rw (spaced_full x xs (l.0), spaced-snoc x xs s, append_assoc (spaced (x ∷ xs)) (32 ∷ []) s) refl

write-Packs :
    (s : Bytes) (done : List Bytes) (p : Packing)
    → IsFull s
    → Packs done p
    → Packs (done ++ s ∷ []) (write s p)
write-Packs s done p h (groups, last, e, d, g, l) = (
  groups,
  last ++ s ∷ [],
  ap (write s) e ∙ write-packing s groups last l,
  sym (append_assoc (concat groups) last (s ∷ [])) ∙ ap (λ x. x ++ s ∷ []) d,
  g,
  All-append IsFull last (s ∷ []) l (h, tt),
)

flush-Packs :
    (size : ℕ) (s : Bytes) (done : List Bytes) (p : Packing)
    → Packs done p
    → Packs done (flush size s p)
flush-Packs size s done p (groups, last, e, d, g, l) =
    let (groups', last', e', d', g', l') = flush-packing size s groups last g l in
    (groups', last', ap (flush size s) e ∙ e', d' ∙ d, g', l')

pack_sentence-Packs :
    (size : ℕ) (m : Bytes) (done : List Bytes) (p : Packing)
    → Packs done p
    → Packs (done ++ sentences (m ∷ [])) (pack_sentence size m p)
unfolding pack_sentence
pack_sentence-Packs size m done p h = elim (Bool-cases (is_empty (trim_space m))) [
  | inl e ↦ rw (e, pack_sentence, append-nil done) h
  | inr e ↦
      rw (e, pack_sentence)
        (write-Packs (trim_space m) done (flush size (trim_space m) p) e
          (flush-Packs size (trim_space m) done p h))
]

sentences-cons :
    (m : Bytes) (ms : List Bytes) → sentences (m ∷ ms) ≡ sentences (m ∷ []) ++ sentences ms
sentences-cons m ms = ground arith

pack_loop-Packs :
    (size : ℕ) (ms done : List Bytes) (p : Packing)
    → Packs done p
    → Packs (done ++ sentences ms) (pack_loop size ms p)
unfolding pack_loop
pack_loop-Packs size [] done p h = rw (append-nil done) h
pack_loop-Packs size (m ∷ ms) done p h =
    rw (sentences-cons m ms, ← append_assoc done (sentences (m ∷ [])) (sentences ms))
      (pack_loop-Packs size ms (done ++ sentences (m ∷ [])) (pack_sentence size m p)
        (pack_sentence-Packs size m done p h))

-- The groups, with the one that is being built as the last one.
abbrev Groups : List Bytes → List Bytes → Type 0
Groups done chunks =
    (groups : List (List Bytes)) × (concat groups ≡ done)
    × All IsFull groups
    × (chunks ≡ map spaced groups)

last_chunk-Groups : (done : List Bytes) (p : Packing) → Packs done p → Groups done (last_chunk p)
unfolding last_chunk join
last_chunk-Groups done p (groups, [], e, d, g, l) =
    (groups, sym (append-nil (concat groups)) ∙ d, g, ap last_chunk e)
last_chunk-Groups done p (groups, x ∷ xs, e, d, g, l) = (
  groups ++ (x ∷ xs) ∷ [],
  sym (append-nil _) ∙ concat-snoc groups (x ∷ xs) ∙ d,
  All-append IsFull groups ((x ∷ xs) ∷ []) g (refl, tt),
  ap last_chunk e ∙ rw (last_chunk, spaced_full x xs (l.0), map-snoc spaced groups (x ∷ xs)) refl,
)

abbrev pub start : Packing
start = record { chunks = []; current = [] }

pub matched :
    (text : Bytes) (size overlap : ℤ)
    → is_empty (find_all text) ≡ false
    → sentence_chunk text size overlap
      ≡ last_chunk (pack_loop (chunk_size size) (find_all text) start)
unfolding sentence_chunk
matched text size overlap e = rw (e, sentence_chunk) refl

-- If the pattern matches somewhere in the text, there are groups of one sentence or more, which together are
-- the sentences, each once and in order, and whatever the overlap the chunks are these groups, each
-- with one space between two of its sentences.
pub sentence_chunk-groups :
    (text : Bytes) (size : ℤ)
    → is_empty (find_all text) ≡ false
    → (groups : List (List Bytes)) × (concat groups ≡ sentences (find_all text))
      × All IsFull groups
      × ((overlap : ℤ) → sentence_chunk text size overlap ≡ map spaced groups)
unfolding join
sentence_chunk-groups text size e =
    let (groups, whole, full, same) =
      last_chunk-Groups (sentences (find_all text)) _
        (pack_loop-Packs (chunk_size size) (find_all text) [] start ([], [], refl, refl, tt, tt)) in
    (groups, whole, full, λ overlap. matched text size overlap e ∙ same)
