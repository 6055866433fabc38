-- ===== src/Handlers/Metadata.antt =====
-- internal/grpc: a `map<string, Struct>` of a message and a `map[string]any` of the models.
use vector_sync.Base.{ℕ, String, ◌≡◌, refl, List, [], ◌∷◌, Option, none, some}
use vector_sync.Base.Exec.{Result, ok, err}
use vector_sync.Models.{Metadata}

-- structpb and timestamppb: a `Struct` as S, a `map[string]any` as M, an `any` as V, a `Timestamp` as
-- T, and an `any` that holds a map or a pointer to a Struct. `as_object` is the type assertion `value.(map[string]any)`.
pub record Protobuf (S M V T : Type 0) : Type 0 where
  pub as_map : S → M
  pub boxed : M → V
  pub boxed_struct : S → V
  pub as_object : V → Option M
  pub new_struct : M → Result S
  pub timestamp : ℕ → T
  pub as_time : T → ℕ

abbrev pub Structs : Type 0 → Type 0
Structs S = List (String × S)

module _ {S M V T : Type 0} (protobuf : Protobuf S M V T) where
  -- `for key, value := range … { metadata[key] = value.AsMap() }`
  unfoldable pub as_maps : Structs S → List (String × V)
  as_maps [] = []
  as_maps ((key, value) ∷ entries) = (key, protobuf.boxed (protobuf.as_map value)) ∷ as_maps entries

  -- `if req.GetMetadata() != nil { … }`
  unfoldable pub from_structs : Option (Structs S) → Metadata V
  from_structs none = none
  from_structs (some entries) = some (as_maps entries)

  -- `if len(metadataFilter) > 0 { … }`
  unfoldable pub from_filter : Structs S → Metadata V
  from_filter [] = none
  from_filter (e ∷ entries) = some (as_maps (e ∷ entries))

  -- `structpb.NewStruct`, whose error skips the entry
  abbrev pub keep_struct : String → Result S → Structs S → Structs S
  keep_struct key (err e) rest = rest
  keep_struct key (ok value) rest = (key, value) ∷ rest

  -- A value that is no object is skipped.
  abbrev pub keep_object : String → Option M → Structs S → Structs S
  keep_object key none rest = rest
  keep_object key (some object) rest = keep_struct key (protobuf.new_struct object) rest

  -- The loop of `convertToProtoDocument` and `convertToProtoCollection`.
  unfoldable pub new_structs : List (String × V) → Structs S
  new_structs [] = []
  new_structs ((key, value) ∷ entries) =
      keep_object key (protobuf.as_object value) (new_structs entries)

  unfoldable pub to_structs : Metadata V → Structs S
  to_structs none = []
  to_structs (some entries) = new_structs entries

-- The loop of `convertToModelDocument`, which stores the Struct itself.
unfoldable pub boxed_structs : {S M V T : Type 0} → Protobuf S M V T → Structs S → List (String × V)
boxed_structs protobuf [] = []
boxed_structs protobuf ((key, value) ∷ entries) =
    (key, protobuf.boxed_struct value) ∷ boxed_structs protobuf entries

abbrev pub or_none : {S : Type 0} → Option (Structs S) → Structs S
or_none none = []
or_none (some entries) = entries

module _ {S M V T : Type 0} (protobuf : Protobuf S M V T)
    (asserts : (m : M) → protobuf.as_object (protobuf.boxed m) ≡ some m)
    (renews : (s : S) → protobuf.new_struct (protobuf.as_map s) ≡ ok s) where
  new_structs-as_maps :
      (entries : Structs S) → new_structs protobuf (as_maps protobuf entries) ≡ entries
  unfolding new_structs as_maps
  new_structs-as_maps [] = refl
  new_structs-as_maps ((key, value) ∷ entries) =
      rw (asserts (protobuf.as_map value), renews value, new_structs-as_maps entries) refl

  -- The metadata of a request come back as the metadata of a response with every entry in its place,
  -- when `NewStruct` undoes `AsMap` and the assertion finds the map that was stored; a request without
  -- metadata gives an empty map.
  pub to_structs-from_structs :
      (metadata : Option (Structs S))
      → to_structs protobuf (from_structs protobuf metadata) ≡ or_none metadata
  unfolding to_structs from_structs
  to_structs-from_structs none = refl
  to_structs-from_structs (some entries) = new_structs-as_maps entries

-- Metadata that `convertToModelDocument` made hold no map, so a message made of them has none.
pub new_structs-boxed_structs :
    {S M V T : Type 0} (protobuf : Protobuf S M V T)
    → ((s : S) → protobuf.as_object (protobuf.boxed_struct s) ≡ none)
    → (entries : Structs S) → new_structs protobuf (boxed_structs protobuf entries) ≡ []
unfolding new_structs boxed_structs
new_structs-boxed_structs protobuf pointers [] = refl
new_structs-boxed_structs protobuf pointers ((key, value) ∷ entries) =
    rw (pointers value) (new_structs-boxed_structs protobuf pointers entries)
