-- ===== src/Examples/Interleaving.antt =====
-- Two lookups of one collection that both miss, beside the warming of the cache.
use mathlib.Core.Path.{subst}
use vector_sync.Models.{Collection}
use vector_sync.Base.{
  ℕ, zero, suc, ◌+◌, String, ◌≡◌, refl, List, [], ◌∷◌, Option, none, some, arith, ap, ◌∙◌,
  get_elem?,
}
use vector_sync.Base.Int.{pos, to_int32}
use vector_sync.Base.Assoc.{lookup}
use vector_sync.Base.Exec.{Error, Result, ok}
use vector_sync.Cache.{CollectionInfo, WarmRow, row_info}
use vector_sync.Services.Documents.{collection_info}
use vector_sync.Services.Documents.Interleaved.{
  Wanted, sizes, providers, Answer, answered, Rows, System, turn, warm_turn, lookup_turn,
  warming_turn, init, Reach, start, later,
}
use vector_sync.Services.Documents.Interleaved.Moments.{TellsTable, AnswerSaid, EntrySaid}
use vector_sync.Services.Documents.Interleaved.Told.{Reach-AnswerSaid}
use vector_sync.Examples.Requests.{test_collection, test_collections}

abbrev row : WarmRow
row = record {
  id = "c";
  dim = pos 2;
  metric = "cosine";
  provider = some "ollama";
  model = some "m";
}

-- Each query counts the world up.
abbrev test_query : ℕ → Rows × ℕ
test_query w = (ok (ok row ∷ [], none), w + 1)

test_query-TellsTable : TellsTable test_collections test_query
unfolding to_int32
test_query-TellsTable = record {
  told = λ w rows last j r e q.
      row_said w r
        (only_row j r (ap (λ l. get_elem? l j) (rows_of (ok row ∷ []) rows none last e) ∙ q));
}
  where
    rows_of :
        (xs ys : List (Result WarmRow)) (a b : Option Error)
        → ◌≡◌ {A = Rows} (ok (xs, a)) (ok (ys, b))
        → xs ≡ ys
    rows_of xs ys a b e = ground arith

    only_row :
        (j : ℕ) (r : WarmRow)
        → get_elem? {A = Result WarmRow} (ok row ∷ []) j ≡ some (ok r)
        → row ≡ r
    only_row zero r h = ground arith
    only_row (suc j) r h = absurd (ground arith)

    row_said :
        (w : ℕ) (r : WarmRow)
        → row ≡ r
        → (c : Collection ℕ) × ((test_collections.list_by_id r.id w).0 ≡ ok c)
          × (row_info r ≡ collection_info c)
    row_said w r e =
        subst
          (λ x.
            (c : Collection ℕ) × ((test_collections.list_by_id x.id w).0 ≡ ok c)
            × (row_info x ≡ collection_info c))
          e (test_collection, refl, refl)

abbrev wanted : ℕ → Wanted × String
wanted zero = (sizes, "c")
wanted (suc i) = (providers, "c")

abbrev one_turn : ℕ → System ℕ ℕ → System ℕ ℕ
one_turn = turn test_collections test_query wanted

abbrev other_turn : System ℕ ℕ → System ℕ ℕ
other_turn = warm_turn test_collections test_query wanted

-- Both miss and both read; the rows of the warming come in between.
abbrev crossed : System ℕ ℕ
crossed = one_turn 1 (
    other_turn (
      one_turn 0 (
        one_turn 1 (
          one_turn 0
            (other_turn (one_turn 1 (one_turn 0 (init test_collections test_query wanted 0))))))))

crossed-Reach : Reach test_collections test_query wanted 0 crossed
crossed-Reach =
    later
      (later
        (later
          (later
            (later (later (later (later start (lookup_turn 0)) (lookup_turn 1)) warming_turn)
              (lookup_turn 0))
            (lookup_turn 1))
          (lookup_turn 0))
        warming_turn)
      (lookup_turn 1)

Reach-AnswerSaid_example :
    ((i : ℕ) (r : Result Answer)
      → crossed.lookups i ≡ answered r
      → AnswerSaid test_collections crossed.moments (wanted i).0 (wanted i).1 r)
    × ((id : String) (info : CollectionInfo)
        → lookup id crossed.service.collection_cache.cache ≡ some info
        → EntrySaid test_collections crossed.moments id info)
Reach-AnswerSaid_example =
    Reach-AnswerSaid test_collections test_query test_query-TellsTable wanted 0 crossed
      crossed-Reach
