-- ===== src/Examples/Deleting.antt =====
-- A database that deletes rows, and a deletion through the RPC.
use text.Mathlib.Text.{◌==◌}
use vector_sync.Base.{
  ℕ, ◌+◌, String, ◌≡◌, refl, sym, ap, ◌∙◌, inl, inr, List, [], ◌∷◌, if◌then◌else◌, Bool-cases,
}
use vector_sync.Base.Int.{pos}
use vector_sync.Base.Text.{Bytes, codes}
use vector_sync.Base.Exec.{ok, err, no_rows}
use vector_sync.Cache.{new_cache}
use vector_sync.Services.Interfaces.{Service}
use vector_sync.Services.Documents.{delete_document}
use vector_sync.Db.Rows.{Row, Statements, delete_by_id}
use vector_sync.Db.Repository.{Driver, document_repository}
use vector_sync.Handlers.Documents.{handle_get, handle_delete}
use vector_sync.Handlers.Documents.Gone.{DeletesRows, not_found, handle_delete-handle_get}
use vector_sync.Examples.Storing.{naturals}
use vector_sync.Examples.Database.{World, empty_world, new_row, find_row, test_codec, test_driver}
use vector_sync.Examples.Repositories.{protobuf}

abbrev without_row : String → List Row → List Row
without_row id [] = []
without_row id (row ∷ rows) =
    let rest = without_row id rows in if row.id == id then rest else row ∷ rest

abbrev count_row : String → List Row → ℕ
count_row id [] = 0
count_row id (row ∷ rows) = let rest = count_row id rows in if row.id == id then rest + 1 else rest

abbrev deleting : Statements World
deleting = record test_driver.statements {
  delete_row = λ id w. (
    ok (ok (pos (count_row id w.documents))),
    record w { documents = without_row id w.documents },
  );
}

abbrev deleting_driver : Driver ℕ Bytes World
deleting_driver = record test_driver { statements = deleting }

find_row-without_row :
    (id : String) (rows : List Row) → find_row id (without_row id rows) ≡ err no_rows
find_row-without_row id [] = refl
find_row-without_row id (row ∷ rows) = elim (Bool-cases (row.id == id)) [
  | inl e ↦ rw e (find_row-without_row id rows)
  | inr e ↦ rw (e, e) (find_row-without_row id rows)
]

count_row-without_row : (id : String) (rows : List Row) → count_row id (without_row id rows) ≡ 0
count_row-without_row id [] = refl
count_row-without_row id (row ∷ rows) = elim (Bool-cases (row.id == id)) [
  | inl e ↦ rw e (count_row-without_row id rows)
  | inr e ↦ rw (e, e) (count_row-without_row id rows)
]

deleting-DeletesRows : DeletesRows deleting
deleting-DeletesRows = record {
  gone = λ id n w w' e.
      let after : record w { documents = without_row id w.documents } ≡ w' = ap (λ r. r.1) e in
      (
        ap (λ v. find_row id v.documents) (sym after) ∙ find_row-without_row id w.documents,
        ap (λ v. ok (ok (pos (count_row id v.documents)))) (sym after)
            ∙ ap (λ c. ok (ok (pos c))) (count_row-without_row id w.documents),
      );
}

abbrev full : Service World
full = record {
  collection_cache = new_cache;
  world = record empty_world {
    documents = new_row "c1" (codes "[1,2]") (codes "n") (codes "text") ∷ [];
  };
}

abbrev emptied : Service World
emptied =
    (handle_delete {T = ℕ} (document_repository naturals test_codec deleting_driver) 5 "d1" full).1

handle_delete-handle_get_example :
    ((handle_get protobuf (document_repository naturals test_codec deleting_driver) "d1" emptied).0
      ≡ err (not_found "d1"))
    × ((handle_delete {T = ℕ}
          (document_repository naturals test_codec deleting_driver)
          6
          "d1"
          emptied).0
        ≡ err (not_found "d1"))
unfolding handle_delete delete_document delete_by_id
handle_delete-handle_get_example =
    handle_delete-handle_get naturals test_codec deleting_driver deleting-DeletesRows protobuf 5 6
      "d1" (record { id = "d1"; deleted_at = 5 }) full emptied refl
