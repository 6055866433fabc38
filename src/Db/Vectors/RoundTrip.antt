-- ===== src/Db/Vectors/RoundTrip.antt =====
-- Writing a vector as text and reading it back.
use mathlib.Core.List.{reverse, reverse-cons, reverse-append, reverse-reverse}
use vector_sync.Base.{
  ℕ, suc, ◌+◌, ◌<◌, ◌≡◌, ◌≢◌, refl, sym, ap, ◌∙◌, Bool, true, false, List, [], ◌∷◌, ◌++◌,
  append_assoc, append-nil, map, arith, is_empty, All, All-append, ◌==◌, ltb, if◌then◌else◌,
}
use vector_sync.Base.Text.{Bytes}
use vector_sync.Base.Exec.{Result, ok}
use vector_sync.Strings.{starts_with, split_loop, split}
use vector_sync.Strings.Trim.{
  is_space1, is_space2, is_space3, first_space, last_space, trim_loop, trim_space,
}
use vector_sync.Db.Vectors.{
  write_loop, vector_to_string, trim_prefix, trim_suffix, parse_loop, string_to_vector,
}

-- An ASCII byte that is no white space, no control character and no comma.
abbrev pub IsPlain : ℕ → Type 0
IsPlain c = (32 < c) × (c < 128) × (c ≢ 44)

trim_suffix-append : (c : ℕ) (s : Bytes) → trim_suffix c (s ++ c ∷ []) ≡ s
unfolding trim_suffix trim_prefix
trim_suffix-append c s =
    rw (reverse-append s (c ∷ [])) (same (c == c) (==_refl c) ∙ reverse-reverse s)
  where
    ==_refl : (n : ℕ) → (n == n) ≡ true
    ==_refl n = ground arith

    same :
        (b : Bool)
        → b ≡ true
        → reverse (if b then reverse s else c ∷ reverse s) ≡ reverse (reverse s)
    same b h = rw h refl

first_space-plain : (s : Bytes) → All IsPlain s → first_space s ≡ 0
unfolding first_space is_space1 is_space2 is_space3
first_space-plain [] h = refl
first_space-plain (a ∷ []) h = ground arith
first_space-plain (a ∷ (b ∷ [])) h = ground arith
first_space-plain (a ∷ (b ∷ (c ∷ s))) h = ground arith

last_space-plain : (s : Bytes) → All IsPlain s → last_space s ≡ 0
unfolding last_space is_space1 is_space2 is_space3
last_space-plain [] h = refl
last_space-plain (a ∷ []) h = ground arith
last_space-plain (a ∷ (b ∷ [])) h = ground arith
last_space-plain (a ∷ (b ∷ (c ∷ s))) h = ground arith

trim_loop_stays : (space : Bytes → ℕ) (s : Bytes) → space s ≡ 0 → trim_loop space s 0 ≡ s
unfolding trim_loop
trim_loop_stays space [] h = refl
trim_loop_stays space (c ∷ s) h = rw (h, trim_loop) refl

All-reverse : (s : Bytes) → All IsPlain s → All IsPlain (reverse s)
All-reverse [] h = tt
All-reverse (c ∷ s) (hc, h) =
    rw (reverse-cons c s) (All-append IsPlain (reverse s) (c ∷ []) (All-reverse s h) (hc, tt))

trim_space-plain : (s : Bytes) → All IsPlain s → trim_space s ≡ s
unfolding trim_space
trim_space-plain s h = rw (trim_loop_stays first_space s (first_space-plain s h)) (
    rw (trim_loop_stays last_space (reverse s) (last_space-plain (reverse s) (All-reverse s h)))
      (reverse-reverse s))

split_loop-plain :
    (s rest cur : Bytes)
    → All IsPlain s
    → split_loop (44 ∷ []) (s ++ rest) 0 cur ≡ split_loop (44 ∷ []) rest 0 (cur ++ s)
unfolding split_loop starts_with
split_loop-plain [] rest cur h = ap (split_loop (44 ∷ []) rest 0) (sym (append-nil cur))
split_loop-plain (c ∷ s) rest cur (hc, h) =
    rw (other c hc, split_loop)
      (split_loop-plain s rest (cur ++ c ∷ []) h
        ∙ ap (split_loop (44 ∷ []) rest 0) (append_assoc cur (c ∷ []) s))
  where
    other : (c : ℕ) → IsPlain c → (c == 44) ≡ false
    other c h = ground arith

-- The text of a value has only plain bytes and is not empty.
abbrev pub IsToken : Bytes → Type 0
IsToken s = (is_empty s ≡ false) × All IsPlain s

module _ {F : Type 0} (format : F → Bytes) where
  split-write_loop :
      (i : ℕ) (vec : List F) (cur : Bytes)
      → All (λ v. IsToken (format v)) vec
      → split_loop (44 ∷ []) (write_loop format (suc i) vec) 0 cur ≡ cur ∷ map format vec
  unfolding write_loop split_loop starts_with
  split-write_loop i [] cur h = refl
  split-write_loop i (v ∷ vec) cur ((_, plain), h) = rw (later i) (
      ap (◌∷◌ cur) (
        split_loop-plain (format v) (write_loop format (suc i + 1) vec) [] plain
        ∙ ap (λ k. split_loop (44 ∷ []) (write_loop format k vec) 0 (format v)) (next i)
        ∙ split-write_loop (i + 1) vec (format v) h))
    where
      later : (n : ℕ) → ltb 0 (suc n) ≡ true
      later n = ground arith

      next : (n : ℕ) → suc n + 1 ≡ suc (n + 1)
      next n = omega arith

  parse-map_format :
      (parse : Bytes → Result F) (i : ℕ) (vec : List F)
      → All (λ v. IsToken (format v)) vec
      → All (λ v. parse (format v) ≡ ok v) vec
      → parse_loop parse i (map format vec) ≡ ok vec
  unfolding parse_loop
  parse-map_format parse i [] h k = refl
  parse-map_format parse i (v ∷ vec) ((_, plain), h) (reads, k) =
      rw (trim_space-plain (format v) plain, reads, parse-map_format parse (i + 1) vec h k) refl

  written :
      (v : F) (vec : List F) → IsToken (format v) → is_empty (write_loop format 0 (v ∷ vec)) ≡ false
  unfolding write_loop
  written v vec (e, _) = longer (format v) e
    where
      longer : (s : Bytes) → is_empty s ≡ false → is_empty (s ++ write_loop format 1 vec) ≡ false
      longer [] h = ground arith
      longer (c ∷ s) h = refl

  split-written :
      (v : F) (vec : List F)
      → All (λ u. IsToken (format u)) (v ∷ vec)
      → split (write_loop format 0 (v ∷ vec)) (44 ∷ []) ≡ map format (v ∷ vec)
  unfolding split write_loop
  split-written v vec ((_, plain), h) =
      split_loop-plain (format v) (write_loop format 1 vec) [] plain
      ∙ split-write_loop 0 vec (format v) h

  string_to_vector-brackets :
      (parse : Bytes → Result F) (body : Bytes)
      → string_to_vector parse (b'[' ∷ (body ++ b']' ∷ []))
        ≡ (if is_empty body then ok [] else parse_loop parse 0 (split body (b',' ∷ [])))
  unfolding string_to_vector trim_prefix
  string_to_vector-brackets parse body =
      ap (λ s. if is_empty s then ok [] else parse_loop parse 0 (split s (b',' ∷ [])))
        (trim_suffix-append b']' body)

  -- A vector is read back from its text, in PostgreSQL's format, if each value's text reads back as the value,
  -- is not empty, and is of ASCII without white space or commas.
  pub string_to_vector-vector_to_string :
      (parse : Bytes → Result F) (vec : List F)
      → All (λ v. IsToken (format v)) vec
      → All (λ v. parse (format v) ≡ ok v) vec
      → string_to_vector parse (vector_to_string format vec) ≡ ok vec
  unfolding vector_to_string
  string_to_vector-vector_to_string parse [] h k =
      string_to_vector-brackets parse (write_loop format 0 []) ∙ unfold write_loop in refl
  string_to_vector-vector_to_string parse (v ∷ vec) h k =
      string_to_vector-brackets parse (write_loop format 0 (v ∷ vec))
      ∙ rw (written v vec (h.0), split-written v vec h) (parse-map_format parse 0 (v ∷ vec) h k)
