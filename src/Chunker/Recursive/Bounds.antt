-- ===== src/Chunker/Recursive/Bounds.antt =====
-- How long the chunks of `mergeDocs` get.
use vector_sync.Base.{
  ℕ, ◌+◌, ◌≤◌, ◌<◌, ◌≡◌, refl, ◌⊎◌, inl, inr, true, false, List, [], ◌∷◌, ◌++◌, arith, length,
  length-append, is_empty, All, All-append, ◌==◌, if◌then◌else◌, Bool-cases,
}
use vector_sync.Base.Int.{
  ℤ, pos, pos_part, neg_part, ◌+ℤ◌, ◌-ℤ◌, ltb_ℤ, is_zero, +ℤ_parts, -ℤ_parts,
}
use vector_sync.Base.Text.{Bytes}
use vector_sync.Strings.{join}
use vector_sync.Chunker.Recursive.{
  Merge, shed, overflows, write_block, flush_block, append_doc, merge_loop, last_block, merge_docs,
}

abbrev pub IsNonempty : Bytes → Type 0
IsNonempty d = 0 < length d

-- The longest chunk: the overlap that is kept, a separator and a document, if there is an overlap.
abbrev pub merge_limit : Bytes → ℕ → ℕ → ℕ
merge_limit sep size overlap = if overlap == 0 then size else overlap + length sep + size

module _ (sep : Bytes) where
  -- The bytes of a block with a separator behind each document.
  abbrev width : List Bytes → ℕ
  width [] = 0
  width (d ∷ ds) = length d + length sep + width ds

  width-append :
      (ds : List Bytes) (d : Bytes) → width (ds ++ d ∷ []) ≡ width ds + length d + length sep
  width-append [] d = omega arith
  width-append (x ∷ ds) d = omega (arith, width-append ds d)

  length-join :
      (d : Bytes) (ds : List Bytes) → length (join (d ∷ ds) sep) + length sep ≡ width (d ∷ ds)
  unfolding join
  length-join d [] = omega arith
  length-join d (x ∷ ds) = omega (
    arith,
    length-join x ds,
    length-append d (sep ++ join (x ∷ ds) sep),
    length-append sep (join (x ∷ ds) sep),
  )

  -- `currentLen` is the length of the block as it is joined.
  abbrev Counts : List Bytes → ℤ → Type 0
  Counts block len = pos_part len + length sep ≡ neg_part len + width block

  -- What `shed` leaves is empty or within the overlap.
  abbrev Kept : ℕ → List Bytes → ℤ → Type 0
  Kept overlap block len =
      All IsNonempty block
      × Counts block len
      × ((block ≡ []) ⊎ (pos_part len ≤ overlap + neg_part len))

module _ (sep : Bytes) (size overlap : ℕ) where
  shed-Kept :
      (block : List Bytes) (len : ℤ)
      → All IsNonempty block
      → Counts sep block len
      → let (block', len') = shed sep size overlap block len in Kept sep overlap block' len'
  unfolding shed
  shed-Kept [] len h c = (tt, c, inl refl)
  shed-Kept (d ∷ ds) len (hd, h) c = elim (Bool-cases (ltb_ℤ (pos overlap) len)) [
    | inl e ↦
        rw (e, shed)
          (shed-Kept ds (len -ℤ pos (length d + length sep)) h
            (omega (arith, -ℤ_parts len (pos (length d + length sep)))))
    | inr e ↦ rw (e, shed) ((hd, h), c, inr (ground arith))
  ]

  abbrev limit : ℕ
  limit = merge_limit sep size overlap

  abbrev IsShort : Bytes → Type 0
  IsShort c = length c ≤ limit

  record Tracks (m : Merge) : Type 0 where
    nonempty : All IsNonempty m.block
    count : Counts sep m.block m.current_len ⊎ ((m.block ≡ []) × (m.current_len ≡ pos 0))
    narrow : width sep m.block ≤ limit + length sep
    short : All IsShort m.merged

  append-Counts :
      (block : List Bytes) (len : ℤ) (doc : Bytes)
      → All IsNonempty block
      → Counts sep block len ⊎ ((block ≡ []) × (len ≡ pos 0))
      → Counts sep
          (block ++ doc ∷ [])
          (if is_zero len then pos (length doc) else len +ℤ pos (length doc + length sep))
  append-Counts [] len doc h c = ground (arith, +ℤ_parts len (pos (length doc + length sep)))
  append-Counts (d ∷ ds) len doc h c =
      ground (arith, width-append sep (d ∷ ds) doc, +ℤ_parts len (pos (length doc + length sep)))

  append_doc-Tracks :
      (m : Merge) (doc : Bytes)
      → IsNonempty doc
      → All IsNonempty m.block
      → Counts sep m.block m.current_len ⊎ ((m.block ≡ []) × (m.current_len ≡ pos 0))
      → width sep m.block + length doc ≤ limit
      → All IsShort m.merged
      → Tracks (append_doc sep size overlap doc m)
  unfolding append_doc
  append_doc-Tracks m doc hd h c room short = record {
    nonempty = All-append IsNonempty m.block (doc ∷ []) h (hd, tt);
    count = inl (append-Counts m.block m.current_len doc h c);
    narrow = omega (arith, width-append sep m.block doc);
    short = short;
  }

  size-le-limit : size ≤ limit
  size-le-limit = ground arith

  -- A document that does not overflow the block has room in it.
  stay_room :
      (block : List Bytes) (merged : List Bytes) (len : ℤ) (doc : Bytes)
      → length doc ≤ size
      → Counts sep block len ⊎ ((block ≡ []) × (len ≡ pos 0))
      → overflows sep size overlap doc
          (record { merged = merged; block = block; current_len = len })
        ≡ false
      → width sep block + length doc ≤ limit
  unfolding overflows
  stay_room [] merged len doc hd c e = omega (arith, size-le-limit)
  stay_room (d ∷ ds) merged len doc hd (inl c) e =
      ground (arith, size-le-limit, +ℤ_parts len (pos (length doc + length sep)))
  stay_room (d ∷ ds) merged len doc hd (inr (c, _)) e = cc

  -- So has one behind what `shed` leaves.
  Kept-room :
      (block : List Bytes) (len : ℤ) (doc : Bytes)
      → length doc ≤ size
      → Kept sep overlap block len
      → width sep block + length doc ≤ limit
  Kept-room [] len doc hd k = omega (arith, size-le-limit)
  Kept-room (d ∷ ds) len doc hd (h, c, inl e) = cc
  Kept-room (d ∷ ds) len doc hd (h, c, inr e) = ground arith

  -- A block that is written out is short.
  block-IsShort :
      (block : List Bytes) → width sep block ≤ limit + length sep → IsShort (join block sep)
  block-IsShort [] h = unfold join in omega arith
  block-IsShort (d ∷ ds) h = omega (arith, length-join sep d ds)

  overflow-Counts :
      (block : List Bytes) (merged : List Bytes) (len : ℤ) (doc : Bytes)
      → Counts sep block len ⊎ ((block ≡ []) × (len ≡ pos 0))
      → overflows sep size overlap doc
          (record { merged = merged; block = block; current_len = len })
        ≡ true
      → Counts sep block len
  unfolding overflows
  overflow-Counts block merged len doc (inl c) e = c
  overflow-Counts [] merged len doc (inr c) e = ground arith
  overflow-Counts (d ∷ ds) merged len doc (inr (c, _)) e = cc

  step-Tracks :
      (m : Merge) (doc : Bytes)
      → IsNonempty doc
      → length doc ≤ size
      → Tracks m
      → Tracks (append_doc sep size overlap doc (flush_block sep size overlap doc m))
  unfolding flush_block write_block
  step-Tracks m doc hd small t = elim (Bool-cases (overflows sep size overlap doc m)) [
    | inl e ↦
        let kept =
          shed-Kept m.block m.current_len t.nonempty
            (overflow-Counts m.block m.merged m.current_len doc t.count e) in
        rw (e, flush_block)
          (append_doc-Tracks (write_block sep size overlap m) doc hd kept.0 (inl kept.1)
            (Kept-room _ _ doc small kept)
            (All-append IsShort m.merged (join m.block sep ∷ []) t.short
              (block-IsShort m.block t.narrow, tt)))
    | inr e ↦
        rw (e, flush_block)
          (append_doc-Tracks m doc hd t.nonempty t.count
            (stay_room m.block m.merged m.current_len doc small t.count e) t.short)
  ]

  merge_loop-Tracks :
      (docs : List Bytes) (m : Merge)
      → All IsNonempty docs
      → All (λ d. length d ≤ size) docs
      → Tracks m
      → Tracks (merge_loop sep size overlap docs m)
  unfolding merge_loop
  merge_loop-Tracks [] m h small t = t
  merge_loop-Tracks (doc ∷ docs) m (hd, h) (sd, small) t =
      merge_loop-Tracks docs _ h small (step-Tracks m doc hd sd t)

  last_block-All : (m : Merge) → Tracks m → All IsShort (last_block sep size overlap m)
  unfolding last_block
  last_block-All m t = elim (Bool-cases (is_empty m.block)) [
    | inl e ↦ rw (e, last_block) t.short
    | inr e ↦
        rw (e, last_block)
          (All-append IsShort m.merged (join m.block sep ∷ []) t.short
            (block-IsShort m.block t.narrow, tt))
  ]

-- Documents that are not empty and no longer than the size are merged into chunks no longer than
-- the size, if the overlap is 0. Otherwise the bound is the overlap, a separator and the size together,
-- which is more than the size.
pub merge_docs-All-le-limit :
    (sep : Bytes) (size overlap : ℕ) (docs : List Bytes)
    → All IsNonempty docs
    → All (λ d. length d ≤ size) docs
    → All (λ c. length c ≤ merge_limit sep size overlap) (merge_docs sep size overlap docs)
unfolding merge_docs
merge_docs-All-le-limit sep size overlap docs h small = last_block-All sep size overlap _ (
    merge_loop-Tracks sep size overlap docs
      (record { merged = []; block = []; current_len = pos 0 }) h small
      (record { nonempty = tt; count = inr (refl, refl); narrow = omega arith; short = tt }))
