-- ===== src/Chunker/Recursive/Keeps.antt =====
-- Which bytes of the text `RecursiveCharacterChunker` keeps.
use mathlib.Core.List.{Sublist, sublist-append_right}
use mathlib.Core.List.Sublist
use vector_sync.Base.{
  ℕ, ◌≡◌, refl, sym, ap, ◌∙◌, inl, inr, true, false, ◌||◌, List, [], ◌∷◌, ◌++◌, append-nil,
  append_assoc, arith, length, is_empty, concat, concat-append, All, ◌==◌, ltb, leb, if◌then◌else◌,
  Bool-cases, drop, take, take-append-drop,
}
use vector_sync.Base.Int.{ℤ, pos}
use vector_sync.Base.Text.{Bytes}
use vector_sync.Strings.{contains, split, join}
use vector_sync.Strings.Split.{join-split}
use vector_sync.Chunker.Sizes.{chunk_size, chunk_overlap}
use vector_sync.Chunker.Fixed.{fixed_chunk}
use vector_sync.Chunker.Fixed.Windows.{tails, stitch, stitch-fixed_chunk}
use vector_sync.Chunker.Recursive.{
  separators, Merge, overflows, write_block, flush_block, append_doc, merge_loop, last_block,
  flush_docs, parts_loop, split_text, recursive_chunk,
}

-- The bytes of a text that no separator holds: all but line feed and space.
pub solid : Bytes → Bytes
solid [] = []
solid (c ∷ s) = if c == 10 || c == 32 then solid s else c ∷ solid s

solid-append : (s t : Bytes) → solid (s ++ t) ≡ solid s ++ solid t
unfolding solid
solid-append [] t = refl
solid-append (c ∷ s) t = ground (arith, solid-append s t)

solid-nil : solid [] ≡ []
unfolding solid
solid-nil = refl

solid-sublist : (s : Bytes) → Sublist (solid s) s
unfolding solid
solid-sublist [] = Sublist.refl []
solid-sublist (c ∷ s) = elim (Bool-cases (c == 10 || c == 32)) [
  | inl e ↦ rw (e, solid) (Sublist.cons c (solid-sublist s))
  | inr e ↦ rw (e, solid) (Sublist.cons-cons c (solid-sublist s))
]

solid-join :
    (ps : List Bytes) (sep : Bytes) → solid sep ≡ [] → solid (join ps sep) ≡ solid (concat ps)
unfolding join
solid-join [] sep h = refl
solid-join (p ∷ []) sep h = ap solid (sym (append-nil p))
solid-join (p ∷ (q ∷ ps)) sep h = simp (solid-append, h, solid-join (q ∷ ps) sep h)

concat-join-sublist : (ps : List Bytes) (sep : Bytes) → Sublist (concat ps) (join ps sep)
unfolding join
concat-join-sublist [] sep = Sublist.refl []
concat-join-sublist (p ∷ []) sep = rw append-nil (Sublist.refl p)
concat-join-sublist (p ∷ (q ∷ ps)) sep =
    Sublist.append (Sublist.refl p)
      (Sublist.trans (concat-join-sublist (q ∷ ps) sep) (sublist-append_right sep _))

regroup :
    (part : Bytes) (parts docs : List Bytes)
    → solid (concat (docs ++ part ∷ [])) ++ solid (concat parts)
      ≡ solid (concat docs) ++ solid (concat (part ∷ parts))
regroup part parts docs = simp (concat-append, append-nil, solid-append, append_assoc)

module _ (sep : Bytes) (size overlap : ℕ) where
  -- What is done and what is being merged, followed by what is still to come.
  abbrev so_far : Merge → Bytes → Bytes
  so_far m x = concat m.merged ++ (concat m.block ++ x)

  write_block-keeps :
      (x : Bytes) (m : Merge) → Sublist (so_far m x) (so_far (write_block sep size overlap m) x)
  unfolding write_block
  write_block-keeps x m =
      rw (concat-append m.merged (join m.block sep ∷ []), append-nil, append_assoc)
        (Sublist.append (Sublist.refl (concat m.merged))
          (Sublist.append (concat-join-sublist m.block sep) (sublist-append_right _ x)))

  flush_block-keeps :
      (doc x : Bytes) (m : Merge)
      → Sublist (so_far m x) (so_far (flush_block sep size overlap doc m) x)
  unfolding flush_block
  flush_block-keeps doc x m = elim (Bool-cases (overflows sep size overlap doc m)) [
    | inl e ↦ rw (e, flush_block) (write_block-keeps x m)
    | inr e ↦ rw (e, flush_block) (Sublist.refl (so_far m x))
  ]

  append_doc-so_far :
      (doc x : Bytes) (m : Merge)
      → so_far (append_doc sep size overlap doc m) x ≡ so_far m (doc ++ x)
  unfolding append_doc
  append_doc-so_far doc x m = simp (concat-append, append-nil, append_assoc)

  last_parts-keeps :
      (merged block : List Bytes) (len : ℤ)
      → let m : Merge = record { merged = merged; block = block; current_len = len } in
        Sublist (so_far m []) (concat (last_block sep size overlap m))
  unfolding last_block
  last_parts-keeps merged [] len = rw append-nil (Sublist.refl (concat merged))
  last_parts-keeps merged (b ∷ bs) len = rw (concat-append merged (join (b ∷ bs) sep ∷ [])) (
      Sublist.append (Sublist.refl (concat merged))
        (Sublist.append (concat-join-sublist (b ∷ bs) sep) (Sublist.refl [])))

  last_block-keeps : (m : Merge) → Sublist (so_far m []) (concat (last_block sep size overlap m))
  last_block-keeps m = last_parts-keeps m.merged m.block m.current_len

  merge_loop-keeps :
      (docs : List Bytes) (m : Merge)
      → Sublist
          (so_far m (concat docs))
          (concat (last_block sep size overlap (merge_loop sep size overlap docs m)))
  unfolding merge_loop
  merge_loop-keeps [] m = last_block-keeps m
  merge_loop-keeps (doc ∷ docs) m = Sublist.trans (flush_block-keeps doc (doc ++ concat docs) m) (
      rw (← append_doc-so_far doc (concat docs) (flush_block sep size overlap doc m))
        (merge_loop-keeps docs _))

  flush_docs-keeps :
      (docs : List Bytes) → Sublist (concat docs) (concat (flush_docs sep size overlap docs))
  unfolding flush_docs
  flush_docs-keeps [] = Sublist.refl []
  flush_docs-keeps (doc ∷ docs) =
      merge_loop-keeps (doc ∷ docs) (record { merged = []; block = []; current_len = pos 0 })

  module _ (recur : Bytes → List Bytes)
      (keeps : (part : Bytes) → Sublist (solid part) (concat (recur part))) where
    parts_loop-keeps :
        (parts docs : List Bytes)
        → Sublist
            (solid (concat docs) ++ solid (concat parts))
            (concat (parts_loop sep size overlap recur parts docs))
    unfolding parts_loop solid
    parts_loop-keeps [] docs =
        rw (ap (◌++◌ (solid (concat docs))) solid-nil, append-nil)
          (Sublist.trans (solid-sublist (concat docs)) (flush_docs-keeps docs))
    parts_loop-keeps (part ∷ parts) docs = elim (Bool-cases (ltb size (length part))) [
      | inl e ↦
          rw (e, parts_loop, concat-append, concat-append, solid-append part (concat parts))
            (Sublist.append (Sublist.trans (solid-sublist (concat docs)) (flush_docs-keeps docs))
              (Sublist.append (keeps part) (parts_loop-keeps parts [])))
      | inr e ↦
          rw (e, parts_loop)
            (rw (regroup part parts docs) at (parts_loop-keeps parts (docs ++ part ∷ [])))
    ]

drop-sublist : (n : ℕ) (s : Bytes) → Sublist (drop n s) s
drop-sublist n s = rw (take-append-drop n s) at (sublist-append_right (take n s) (drop n s))

tails-sublist : (overlap : ℕ) (cs : List Bytes) → Sublist (tails overlap cs) (concat cs)
tails-sublist overlap [] = Sublist.refl []
tails-sublist overlap (c ∷ cs) = Sublist.append (drop-sublist overlap c) (tails-sublist overlap cs)

stitch-sublist : (overlap : ℕ) (cs : List Bytes) → Sublist (stitch overlap cs) (concat cs)
stitch-sublist overlap [] = Sublist.refl []
stitch-sublist overlap (c ∷ cs) = Sublist.append (Sublist.refl c) (tails-sublist overlap cs)

fixed_chunk-keeps :
    (text : Bytes) (size overlap : ℤ)
    → Sublist (solid text) (concat (fixed_chunk text size overlap))
fixed_chunk-keeps text size overlap = Sublist.trans (solid-sublist text) (
    rw (stitch-fixed_chunk size overlap text) at
      (stitch-sublist (chunk_overlap (chunk_size size) overlap) (fixed_chunk text size overlap)))

-- The parts of a split hold all but what the separator has.
split-keeps :
    (text : Bytes) (c : ℕ) (sep : Bytes)
    → solid (c ∷ sep) ≡ []
    → solid text ≡ solid (concat (split text (c ∷ sep)))
split-keeps text c sep blank =
    ap solid (sym (join-split text (c ∷ sep) (λ e. cc)))
    ∙ solid-join (split text (c ∷ sep)) (c ∷ sep) blank

found-keeps :
    (size overlap : ℕ) (recur : Bytes → List Bytes)
    → ((part : Bytes) → Sublist (solid part) (concat (recur part)))
    → (text sep : Bytes) → solid sep ≡ []
    → Sublist (solid text) (
        concat {A = ℕ} (elim (is_empty sep) [
          | true ↦ fixed_chunk text (pos size) (pos overlap)
          | false ↦ parts_loop sep size overlap recur (split text sep) []
        ]))
found-keeps size overlap recur keeps text [] blank = fixed_chunk-keeps text (pos size) (pos overlap)
found-keeps size overlap recur keeps text (c ∷ s) blank =
    rw (split-keeps text c s blank)
      (unfold solid in parts_loop-keeps (c ∷ s) size overlap recur keeps (split text (c ∷ s)) [])

-- The separators of the list hold only bytes that `solid` takes out.
split_text-keeps :
    (seps : List Bytes) (size overlap : ℕ) (text : Bytes)
    → All (λ sep. solid sep ≡ []) seps
    → Sublist (solid text) (concat (split_text seps size overlap text))
unfolding split_text
split_text-keeps [] size overlap text h = elim (Bool-cases (leb (length text) size)) [
  | inl e ↦ rw (e, append-nil) (solid-sublist text)
  | inr e ↦ rw e (fixed_chunk-keeps text (pos size) (pos overlap))
]
split_text-keeps (sep ∷ seps) size overlap text (blank, h) =
    elim (Bool-cases (leb (length text) size)) [
      | inl e ↦ rw (e, split_text, append-nil) (solid-sublist text)
      | inr e ↦ elim (Bool-cases (contains text sep)) [
        | inl f ↦
            rw (e, f, split_text)
              (found-keeps size overlap (split_text seps size overlap)
                (λ part. split_text-keeps seps size overlap part h) text sep blank)
        | inr f ↦ rw (e, f, split_text) (split_text-keeps seps size overlap text h)
      ]
    ]

-- Nothing of the text is lost but line feeds and spaces: every other byte stands in the chunks, in
-- the order of the text, for every text, size and overlap.
pub recursive_chunk-keeps :
    (text : Bytes) (size overlap : ℤ)
    → Sublist (solid text) (concat (recursive_chunk text size overlap))
unfolding recursive_chunk separators solid
recursive_chunk-keeps text size overlap =
    split_text-keeps separators (chunk_size size) _ text (refl, (refl, (refl, (refl, tt))))
