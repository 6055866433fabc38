-- ===== src/Examples/Storing.antt =====
-- Vectors as text and rows as documents; a value is a digit.
use vector_sync.Base.{
  ℕ, ◌+◌, ◌-◌, ◌≡◌, ◌↔◌, refl, true, false, List, [], ◌∷◌, map, Option, none, arith,
}
use vector_sync.Base.Text.{Bytes, codes}
use vector_sync.Base.Exec.{Error, new_error, Result, ok, err}
use vector_sync.Models.{Metadata}
use vector_sync.Db.Vectors.{write_loop, vector_to_string, string_to_vector}
use vector_sync.Db.Vectors.RoundTrip.{string_to_vector-vector_to_string}
use vector_sync.Db.Statements.{Statement, Arg, json_arg, sql, bind, search_start, search_end}
use vector_sync.Services.Interfaces.{Float32}
use vector_sync.Base.Int.{pos}
use vector_sync.Db.Rows.{Row, read_row, scan_rows}
use vector_sync.Db.Rows.Complete.{scan_rows_iff}

abbrev pub digit : ℕ → Bytes
digit n = (48 + n) ∷ []

abbrev pub value : Bytes → Result ℕ
value [] = err (new_error "invalid syntax")
value (c ∷ s) = ok (c - 48)

abbrev metadata : Bytes → Result (Metadata ℕ)
metadata bytes = ok none

abbrev numbers : List ℕ
numbers = 1 ∷ 2 ∷ []

written : vector_to_string digit numbers ≡ codes "[1,2]"
unfolding vector_to_string write_loop
written = refl

string_to_vector-vector_to_string_example :
    string_to_vector value (vector_to_string digit numbers) ≡ ok numbers
string_to_vector-vector_to_string_example =
    string_to_vector-vector_to_string digit value numbers
      (
        (refl, ((omega arith, omega arith, ground arith), tt)),
        ((refl, ((omega arith, omega arith, ground arith), tt)), tt),
      )
      (refl, (refl, tt))

abbrev row : Row
row = record {
  id = "d";
  collection_id = "c";
  vector_text = codes "[1,2]";
  metadata_bytes = codes "{}";
  content = codes "text";
  created_at = 0;
  updated_at = 0;
}

scan_rows_iff_example :
    (scan_rows value metadata true (ok row ∷ err (new_error "scan") ∷ []) none ≡ ok []) ↔ (
      (◌≡◌ {A = Option Error} none none)
      × (map (read_row value metadata true) (ok row ∷ err (new_error "scan") ∷ []) ≡ map ok []))
scan_rows_iff_example =
    scan_rows_iff value metadata true (ok row ∷ err (new_error "scan") ∷ []) none []

abbrev pub naturals : Float32 ℕ
naturals = record {
  is_nan = λ x. false;
  is_inf = λ x. false;
  lt = λ x y. true;
  eq = λ x y. false;
  add = ◌+◌;
  div = λ x y. x;
  zero = 0;
  half = 0;
  one = 1;
}

abbrev found : Statement (Arg ℕ ℕ)
found = search_end true 1 (pos 5) "cosine" (
    bind (sql " AND metadata @> " ∷ []) "::jsonb" (json_arg 7)
      (search_start (codes "[1,2]") "c" true "cosine"))
