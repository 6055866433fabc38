-- ===== src/Db/Vectors.antt =====
-- internal/db/document_repo.go: vectors as text. `strconv.FormatFloat` and `strconv.ParseFloat` are
-- the parameters `format` and `parse`.
pub mod RoundTrip
use mathlib.Core.List.{reverse}
use vector_sync.Base.{ℕ, ◌+◌, List, [], ◌∷◌, ◌++◌, ◌==◌, if◌then◌else◌, ltb, is_empty}
use vector_sync.Base.Int.{pos}
use vector_sync.Base.Text.{Bytes}
use vector_sync.Base.Exec.{Error, wrapped, lit, num, Result, ok, err}
use vector_sync.Strings.{split}
use vector_sync.Strings.Trim.{trim_space}

module _ {F : Type 0} (format : F → Bytes) where
  -- The loop over the values from the index `i`, with a comma before each but the first.
  unfoldable pub write_loop : ℕ → List F → Bytes
  write_loop i [] = []
  write_loop i (v ∷ vec) =
      (if ltb 0 i then b',' ∷ [] else []) ++ (format v ++ write_loop (i + 1) vec)

  -- `vectorToString`
  unfoldable pub vector_to_string : List F → Bytes
  vector_to_string vec = b'[' ∷ (write_loop 0 vec ++ b']' ∷ [])

-- `strings.TrimPrefix` with one byte.
unfoldable pub trim_prefix : ℕ → Bytes → Bytes
trim_prefix p [] = []
trim_prefix p (c ∷ s) = if c == p then s else c ∷ s

-- `strings.TrimSuffix` with one byte.
unfoldable pub trim_suffix : ℕ → Bytes → Bytes
unfolding trim_prefix
trim_suffix p s = reverse (trim_prefix p (reverse s))

module _ {F : Type 0} (parse : Bytes → Result F) where
  abbrev pub at_index : {A : Type 0} → ℕ → Result A → Result A
  at_index i (ok a) = ok a
  at_index i (err e) =
      err (wrapped (lit "failed to parse vector value at index " ∷ num (pos i) ∷ []) e)

  abbrev pub push_value : Result F → Result (List F) → Result (List F)
  push_value (err e) rest = err e
  push_value (ok v) (err e) = err e
  push_value (ok v) (ok vec) = ok (v ∷ vec)

  -- The loop over the parts from the index `i`; the first error is returned.
  unfoldable pub parse_loop : ℕ → List Bytes → Result (List F)
  parse_loop i [] = ok []
  parse_loop i (part ∷ parts) =
      push_value (at_index i (parse (trim_space part))) (parse_loop (i + 1) parts)

  -- `stringToVector`
  unfoldable pub string_to_vector : Bytes → Result (List F)
  string_to_vector s =
      let body = trim_suffix b']' (trim_prefix b'[' s) in
      if is_empty body then ok [] else parse_loop 0 (split body (b',' ∷ []))
