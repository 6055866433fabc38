-- ===== src/Db/Statements/Batch.antt =====
-- internal/db/document_repo.go: what `BatchInsert` prepares, the statement and its values.
pub mod Placeholders
pub mod Schedule
use vector_sync.Base.{
  ℕ, zero, suc, ◌+◌, ◌*◌, List, [], ◌∷◌, ◌++◌, map, Option, none, some, if◌then◌else◌, ltb, leb,
  length, replicate, get_elem?, set,
}
use vector_sync.Base.Int.{pos}
use vector_sync.Base.Text.{Bytes}
use vector_sync.Base.Exec.{Error, wrapped, lit, num, Result, ok, err}
use vector_sync.Models.{Metadata, Document}
use vector_sync.Db.Rows.{then_result}
use vector_sync.Db.Vectors.{vector_to_string}
use vector_sync.Db.Statements.{Piece, sql, placeholder, Arg, text_arg, id_arg, json_arg}

-- `serialized`: the vector's text, and the metadata or the error of `json.Marshal`.
abbrev pub Serialized : Type 0 → Type 0
Serialized J = Bytes × Result J

module _ {F V J : Type 0} (format : F → Bytes) (marshal : Metadata V → Result J) where
  unfoldable pub serialize : Document F V → Serialized J
  serialize doc = (vector_to_string format doc.vector, marshal doc.metadata)

  -- The goroutine of the index `idx`; a slot that is not written is `none`.
  unfoldable pub write_slot :
      List (Document F V) → ℕ → List (Option (Serialized J)) → List (Option (Serialized J))
  write_slot docs idx slots = elim (get_elem? docs idx) [
    | none ↦ slots
    | some doc ↦ set slots idx (some (serialize doc))
  ]

  -- The goroutines, in the order in which they write; each writes its own slot once.
  unfoldable pub fan_out :
      List (Document F V) → List ℕ → List (Option (Serialized J)) → List (Option (Serialized J))
  fan_out docs [] slots = slots
  fan_out docs (idx ∷ order) slots = fan_out docs order (write_slot docs idx slots)

  -- A slot as the code reads it: one that was never written holds an empty text, a nil slice and no error.
  abbrev pub slot_value : J → Option (Serialized J) → Serialized J
  slot_value nil_json none = ([], ok nil_json)
  slot_value nil_json (some slot) = slot

  -- The slots: goroutines fill those of 32 documents or more, in the order `order`, and a loop those of fewer.
  unfoldable pub prepare : J → List ℕ → List (Document F V) → List (Serialized J)
  prepare nil_json order docs =
      let together = fan_out docs order (replicate (length docs) none) in
      if leb 32 (length docs) then map (slot_value nil_json) together else map serialize docs

-- The check for the errors of marshalling, from the index `i`: the metadata, or the first error.
unfoldable pub check_marshalled : {J : Type 0} → ℕ → List (Serialized J) → Result (List (Bytes × J))
check_marshalled i [] = ok []
check_marshalled i ((text, err e) ∷ prepped) =
    err (wrapped (lit "failed to marshal metadata for doc " ∷ num (pos i) ∷ []) e)
check_marshalled i ((text, ok json) ∷ prepped) =
    then_result (check_marshalled (i + 1) prepped) λ rest. ok ((text, json) ∷ rest)

-- The placeholders of the document at the index `i` of `n`.
unfoldable pub batch_group : ℕ → ℕ → List Piece
batch_group n i =
    let base = i * 4 + 1 in
    sql "("
    ∷ placeholder base
    ∷ sql ","
    ∷ placeholder (base + 1)
    ∷ sql "::vector,"
    ∷ placeholder (base + 2)
    ∷ sql ","
    ∷ placeholder (base + 3)
    ∷ sql ")"
    ∷ (if ltb (i + 1) n then sql "," ∷ [] else [])

-- The loop over the documents from the index `i`, for the query and for the values.
unfoldable pub group_loop : {F V : Type 0} → ℕ → ℕ → List (Document F V) → List Piece
group_loop n i [] = []
group_loop n i (doc ∷ docs) = batch_group n i ++ group_loop n (i + 1) docs

unfoldable pub value_loop :
    {F V J : Type 0} → List (Document F V) → List (Bytes × J) → List (Arg F J)
value_loop [] prepped = []
value_loop (doc ∷ docs) [] = []
value_loop (doc ∷ docs) ((text, json) ∷ prepped) =
    id_arg doc.collection_id
    ∷ text_arg text
    ∷ json_arg json
    ∷ text_arg doc.content
    ∷ value_loop docs prepped

-- The query of `BatchInsert`
unfoldable pub batch_query : {F V : Type 0} → List (Document F V) → List Piece
batch_query docs =
    (sql "INSERT INTO documents (collection_id, vector, metadata, content) VALUES"
      ∷ group_loop (length docs) 0 docs)
    ++ sql " RETURNING id, collection_id, metadata, content, created_at, updated_at" ∷ []
