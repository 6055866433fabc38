-- ===== src/Handlers/Documents/Scoped.antt =====
-- What the RPC `BatchInsert` stores.
use vector_sync.Base.{String, ◌≡◌, ◌⊎◌, length}
use vector_sync.Base.Int.{ℤ, pos}
use vector_sync.Base.Exec.{Result, ok, err}
use vector_sync.Models.{Document}

-- A document of the collection, with a vector of the dimension.
abbrev pub BelongsTo : {F V : Type 0} → String → ℤ → Document F V → Type 0
BelongsTo id d document = (document.collection_id ≡ id) × (d ≡ pos (length document.vector))

-- An error, with the state `t` or the state `u` behind it.
abbrev pub Rejected : {A S : Type 0} → Result A × S → S → S → Type 0
Rejected (ok a, w) t u = ⊥
Rejected (err e, w) t u = (w ≡ t) ⊎ (w ≡ u)
