-- ===== src/Db/Collections/Rows.antt =====
-- How `List` answers.
use vector_sync.Base.{◌≡◌, refl, List, [], ◌∷◌, map, Option, none, arith}
use mathlib.Core.Logic.{◌↔◌}
use vector_sync.Base.Text.{Bytes}
use vector_sync.Base.Int.{ℤ}
use vector_sync.Base.Exec.{Error, Result, ok}
use vector_sync.Models.{Metadata, Collection}
use vector_sync.Db.Rows.Complete.{round-Agrees}
use vector_sync.Db.Collections.{
  CollectionRow, CollectionDriver, scan_collection, scan_collections, list_page,
}

module _ {V : Type 0} (unmarshal : Bytes → Result (Metadata V)) where
  scan_collections_iff :
      (rows : List (Result CollectionRow)) (collections : List (Collection V))
      → (scan_collections unmarshal rows ≡ ok collections) ↔ (
          (◌≡◌ {A = Option Error} none none)
          × (map (scan_collection unmarshal) rows ≡ map ok collections))
  unfolding scan_collections
  scan_collections_iff [] [] = ground arith
  scan_collections_iff [] (c ∷ collections) = ground arith
  scan_collections_iff (row ∷ rows) collections =
      round-Agrees (scan_collections unmarshal rows) (map (scan_collection unmarshal) rows) none
        (scan_collection unmarshal row) collections (λ cs. scan_collections_iff rows cs)

module _ {V J W : Type 0} (marshal : Metadata V → Result J)
    (unmarshal : Bytes → Result (Metadata V)) (db : CollectionDriver J W) where
  -- `List` whose query is answered gives collections exactly when none of the rows that came fails to scan or
  -- to decode, and then one for each row, in order. The error that ended the rows is in no case
  -- returned: a page that broke off looks like a short one.
  pub list_page_iff :
      (limit offset : ℤ) (rows : List (Result CollectionRow)) (last : Option Error) (w w' : W)
      (collections : List (Collection V))
      → db.select_collections limit offset w ≡ (ok (rows, last), w')
      → ((list_page marshal unmarshal db limit offset w).0 ≡ ok collections)
        ↔ (map (scan_collection unmarshal) rows ≡ map ok collections)
  unfolding list_page
  list_page_iff limit offset rows last w w' collections h =
      let both = scan_collections_iff unmarshal rows collections in
      rw h (λ e. (both.0 e).1, λ e. both.1 (refl, e))
