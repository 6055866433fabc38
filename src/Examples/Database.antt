-- ===== src/Examples/Database.antt =====
-- A database of two tables and a transaction, for the tests of the repositories. JSON is a brace and one byte
-- for each value, and a vector is kept as it was written.
use text.Mathlib.Text.{◌==◌}
use mathlib.Core.Path.{subst}
use mathlib.Core.Bool.{false≢true}
use text.Mathlib.TextEquality.{eq_iff}
use vector_sync.Base.{
  ℕ, String, ◌≡◌, ◌≢◌, refl, Bool, true, false, List, [], ◌∷◌, ◌++◌, map, Option, none, some,
  if◌then◌else◌, arith,
}
use vector_sync.Base.Int.{ℤ, pos}
use vector_sync.Base.Text.{Bytes, codes}
use vector_sync.Base.Exec.{no_rows, new_error, Result, ok, err, ok-parts}
use vector_sync.Models.{Metadata}
use vector_sync.Db.Vectors.{string_to_vector}
use vector_sync.Db.Rows.{Row}
use vector_sync.Db.Statements.{Arg, text_arg, id_arg, json_arg, float_arg, count_arg}
use vector_sync.Db.Repository.{Driver, Codec}
use vector_sync.Db.Repository.Stored.{KeepsDocuments}
use vector_sync.Db.Repository.Atomic.{IsTransactional}
use vector_sync.Db.Collections.{CollectionRow, CollectionDriver}
use vector_sync.Db.Collections.Lookup.{KeepsRows}
use vector_sync.Examples.Storing.{digit, value}

pub record World : Type 0 where
  pub documents : List Row
  pub collections : List CollectionRow
  pub pending : List Row
  pub in_transaction : Bool

abbrev pub empty_world : World
empty_world = record { documents = []; collections = []; pending = []; in_transaction = false }

abbrev pub new_row : String → Bytes → Bytes → Bytes → Row
new_row id vector json content = record {
  id = "d1";
  collection_id = id;
  vector_text = vector;
  metadata_bytes = json;
  content = content;
  created_at = 7;
  updated_at = 7;
}

-- The rows of an INSERT with four values for each.
abbrev pub rows_of : List (Arg ℕ Bytes) → List Row
rows_of [] = []
rows_of (count_arg n ∷ rest) = []
rows_of (float_arg n ∷ rest) = []
rows_of (text_arg n ∷ rest) = []
rows_of (json_arg n ∷ rest) = []
rows_of (id_arg id ∷ []) = []
rows_of (id_arg id ∷ (a ∷ [])) = []
rows_of (id_arg id ∷ (a ∷ (b ∷ []))) = []
rows_of (id_arg id ∷ (a ∷ (b ∷ (c ∷ rest)))) = new_row id [] [] [] ∷ rows_of rest

abbrev pub find_row : String → List Row → Result Row
find_row id [] = err no_rows
find_row id (row ∷ rows) = if row.id == id then ok row else find_row id rows

abbrev pub find_collection : String → List CollectionRow → Result CollectionRow
find_collection id [] = err no_rows
find_collection id (row ∷ rows) = if row.id == id then ok row else find_collection id rows

abbrev without_collection : String → List CollectionRow → List CollectionRow
without_collection id [] = []
without_collection id (row ∷ rows) =
    let rest = without_collection id rows in if row.id == id then rest else row ∷ rest

abbrev pub test_driver : Driver ℕ Bytes World
test_driver = record {
  insert_row = λ id vector json content w. (
    ok (new_row id vector json content),
    record w { documents = new_row id vector json content ∷ w.documents },
  );
  upsert_row = λ d id vector json content w. (ok (new_row id vector json content, true), w);
  select_scored = λ statement w. (ok ([], none), w);
  schedule = λ n. [];
  begin = λ w. (ok tt, record w { in_transaction = true });
  set_local = λ w. (ok tt, w);
  insert_rows =
      λ query args w. (ok (map ok (rows_of args), none), record w { pending = rows_of args });
  commit = λ w. (
    ok tt,
    record w { documents = w.pending ++ w.documents; pending = []; in_transaction = false },
  );
  rollback = λ w. record w { pending = []; in_transaction = false };
  statements = record {
    select_page = λ id limit offset include_vector w. (ok ([], none), w);
    select_by_id = λ id w. (find_row id w.documents, w);
    delete_row = λ id w. (ok (ok (pos 0)), w);
    delete_rows = λ ids id w. (ok ([], none), w);
  };
}

abbrev values_of : List (String × ℕ) → Bytes
values_of [] = []
values_of ((key, n) ∷ entries) = n ∷ values_of entries

abbrev entries_of : Bytes → List (String × ℕ)
entries_of [] = []
entries_of (n ∷ s) = ("k", n) ∷ entries_of s

abbrev pub test_marshal : Metadata ℕ → Result Bytes
test_marshal none = ok (codes "n")
test_marshal (some entries) = ok (b'{' ∷ values_of entries)

abbrev pub test_unmarshal : Bytes → Result (Metadata ℕ)
test_unmarshal [] = err (new_error "unexpected end of JSON input")
test_unmarshal (c ∷ s) = ok (some (entries_of s))

abbrev pub test_codec : Codec ℕ ℕ Bytes
test_codec = record {
  format = digit;
  parse = value;
  marshal = test_marshal;
  unmarshal = test_unmarshal;
  nil_json = [];
}

pub test_driver-IsTransactional :
    IsTransactional test_driver (λ w. w.documents) (λ w. w.in_transaction)
test_driver-IsTransactional = record {
  begin_keeps = λ w. refl;
  begin_fails = λ w w' e h. ground arith;
  set_local_keeps = λ w. refl;
  insert_keeps = λ query args w. refl;
  commit_fails = λ w w' e h. ground arith;
  rollback_keeps = λ w. refl;
  rollback_ends = λ w. refl;
}

pub test_driver-KeepsDocuments : KeepsDocuments value (λ json. json) test_driver
test_driver-KeepsDocuments = record {
  row_is_bound = λ id vector json content w w' row h.
      let (p, q) = ok-parts (new_row id vector json content) row _ w' h in
      subst
        (λ r.
          (r.id ≢ "") × (r.collection_id ≡ id) × (r.content ≡ content) × (r.metadata_bytes ≡ json))
        p (λ e. false≢true ((eq_iff "d1" "").1 e), refl, refl, refl);
  row_is_stored = λ id vector json content w w' row h.
      let (p, q) = ok-parts (new_row id vector json content) row _ w' h in
      subst
        (λ r.
          (text : Bytes) × ((test_driver.statements.select_by_id r.id w').0
            ≡ ok (record r { vector_text = text }))
          × (string_to_vector value text ≡ string_to_vector value vector))
        p
        (
          vector,
          subst (λ v. find_row "d1" (v.documents) ≡ ok (new_row id vector json content)) q refl,
          refl,
        );
}

abbrev pub new_collection_row :
    String → ℤ → Bytes → String → Option String → Option String → CollectionRow
new_collection_row name dimension json metric provider model = record {
  id = "c1";
  name = name;
  vector_dim = dimension;
  distance_metric = metric;
  metadata_bytes = json;
  embedding_provider = provider;
  embedding_model = model;
  created_at = 7;
  updated_at = 7;
  document_count = pos 0;
}

abbrev pub test_collection_driver : CollectionDriver Bytes World
test_collection_driver = record {
  insert_collection = λ name dimension json metric provider model w. (
    ok (new_collection_row name dimension json metric provider model),
    record w {
      collections = new_collection_row name dimension json metric provider model ∷ w.collections;
    },
  );
  select_collections =
      λ limit offset w. (ok (map ok w.collections, some (new_error "connection reset by peer")), w);
  select_collection = λ id w. (find_collection id w.collections, w);
  select_by_name = λ name w. (err no_rows, w);
  delete_collection =
      λ id w. (ok (pos 0), record w { collections = without_collection id w.collections });
  spawn = λ statement w. w;
}

pub test_collection_driver-KeepsRows : KeepsRows test_collection_driver
test_collection_driver-KeepsRows = record {
  row_is_bound = λ name dimension json metric provider model w w' row h.
      let (p, q) =
        ok-parts (new_collection_row name dimension json metric provider model) row _ w' h in
      subst
        (λ r.
          (r.id ≢ "")
          × (r.name ≡ name)
          × (r.vector_dim ≡ dimension)
          × (r.distance_metric ≡ metric)
          × (r.embedding_provider ≡ provider)
          × (r.embedding_model ≡ model))
        p (λ e. false≢true ((eq_iff "c1" "").1 e), refl, refl, refl, refl, refl);
  row_is_stored = λ name dimension json metric provider model w w' row h.
      let (p, q) =
        ok-parts (new_collection_row name dimension json metric provider model) row _ w' h in
      subst (λ r. (test_collection_driver.select_collection r.id w').0 ≡ ok r) p
        (subst
          (λ v.
            find_collection "c1" (v.collections)
            ≡ ok (new_collection_row name dimension json metric provider model))
          q refl);
  index_is_hidden = λ indexed ops_class id w. refl;
}
