-- ===== src/Db/Rows/Complete.antt =====
-- How a query of documents is answered.
use mathlib.Core.Logic.{◌↔◌}
use vector_sync.Base.{◌≡◌, refl, Bool, List, [], ◌∷◌, map, Option, none, some, arith}
use vector_sync.Base.Text.{Bytes}
use vector_sync.Base.Exec.{Error, Result, ok, err}
use vector_sync.Models.{Metadata, Document}
use vector_sync.Db.Rows.{Row, then_result, read_row, scan_rows}

pub then_result-ok :
    {A B : Type 0} (r : Result A) (f : A → Result B) (b : B)
    → then_result r f ≡ ok b
    → (a : A) × (r ≡ ok a) × (f a ≡ ok b)
then_result-ok (ok a) f b h = (a, refl, h)
then_result-ok (err e) f b h = ground arith

module _ {D : Type 0} (q : Result (List D)) (tail : List (Result D)) (last : Option Error) where
  abbrev pub Agrees : List D → Type 0
  Agrees ds = (q ≡ ok ds) ↔ ((last ≡ none) × (tail ≡ map ok ds))

  pub round-Agrees :
      (r : Result D) (ds : List D)
      → ((es : List D) → Agrees es)
      → (then_result r (λ d. then_result q (λ es. ok (d ∷ es))) ≡ ok ds)
        ↔ ((last ≡ none) × (◌≡◌ {A = List (Result D)} (r ∷ tail) (map ok ds)))
  round-Agrees (err e) [] h = ground arith
  round-Agrees (err e) (d ∷ ds) h = ground arith
  round-Agrees (ok x) [] h = ground arith
  round-Agrees (ok x) (d ∷ ds) h = ground (arith, h ds)

module _ {F V : Type 0} (parse : Bytes → Result F) (unmarshal : Bytes → Result (Metadata V)) where
  -- The loop over the rows gives documents exactly when no row and not the iteration fails, and then one for
  -- each row, in order; after a failure nothing of the rows before it is returned.
  pub scan_rows_iff :
      (include_vector : Bool) (rows : List (Result Row)) (last : Option Error)
      (documents : List (Document F V))
      → (scan_rows parse unmarshal include_vector rows last ≡ ok documents)
        ↔ ((last ≡ none) × (map (read_row parse unmarshal include_vector) rows ≡ map ok documents))
  unfolding scan_rows
  scan_rows_iff include_vector [] none [] = ground arith
  scan_rows_iff include_vector [] none (d ∷ documents) = ground arith
  scan_rows_iff include_vector [] (some e) documents = ground arith
  scan_rows_iff include_vector (row ∷ rows) last documents =
      round-Agrees (scan_rows parse unmarshal include_vector rows last)
        (map (read_row parse unmarshal include_vector) rows) last
        (read_row parse unmarshal include_vector row) documents
        (λ ds. scan_rows_iff include_vector rows last ds)
