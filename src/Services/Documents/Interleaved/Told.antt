-- ===== src/Services/Documents/Interleaved/Told.antt =====
-- What the lookups answer and what the cache holds, whatever the interleaving.
use mathlib.Core.Path.{subst}
use vector_sync.Base.{
  ℕ, String, ◌≡◌, refl, ap, inl, inr, List, [], ◌∷◌, some, get_elem?, ◌==◌, Bool-cases,
  Option-cases, ==_iff,
}
use vector_sync.Base.Assoc.{lookup}
use vector_sync.Base.Exec.{Result}
use vector_sync.Cache.{CollectionInfo}
use vector_sync.Cache.Entries.{
  IsEverywhere, new_cache-IsEverywhere, insert_info-IsEverywhere, warm_from_db-IsEverywhere,
}
use vector_sync.Services.Interfaces.{CollectionRepository, Service}
use vector_sync.Services.Documents.{collection_info}
use vector_sync.Services.Documents.Lookups.{get_info-hit, get_info-miss}
use vector_sync.Services.Documents.Interleaved.{
  Wanted, Answer, of_info, Pc, asking, missed, fetched, answered, Warming, waiting, loading,
  finished, Rows, advance, warm_up, System, update, turn, warm_turn, Step, lookup_turn,
  warming_turn, changed, Reach, start, later,
}
use vector_sync.Services.Documents.Interleaved.Moments.{
  Said, EntrySaid, AnswerSaid, PcSaid, WarmingSaid, TellsTable, PcSaid-later, EntrySaid-later,
  WarmingSaid-later, after_query-Said,
}

module _ {V W : Type 0} (collections : CollectionRepository V W) where
  -- What one call of a lookup leaves behind.
  advance-Said :
      (moments : List W) (k : Wanted) (id : String) (pc : Pc V) (s : Service W)
      → Said collections moments id ((collections.list_by_id id s.world).0)
      → PcSaid collections moments k id pc
      → IsEverywhere (EntrySaid collections moments) s.collection_cache
      → let (pc', t) = advance collections k id pc s in
        PcSaid collections moments k id pc'
        × IsEverywhere (EntrySaid collections moments) t.collection_cache
  unfolding advance
  advance-Said moments k id asking s now h p =
      elim (Option-cases (lookup id s.collection_cache.cache)) [
        | inl e ↦ rw (get_info-miss id s.collection_cache e) (tt, p)
        | inr (info, e) ↦
            let (c, said, q) = p id info e in
            rw (get_info-hit id info s.collection_cache e) ((c, said, inr (ap (of_info k) q)), p)
      ]
  advance-Said moments k id missed s now h p =
      (after_query-Said collections moments k id ((collections.list_by_id id s.world).0) now, p)
  advance-Said moments k id (fetched c) s now h p = (
    (c, h, inl refl),
    insert_info-IsEverywhere (EntrySaid collections moments) id (collection_info c)
        s.collection_cache (c, h, refl) p,
  )
  advance-Said moments k id (answered r) s now h p = (h, p)

  update-everywhere :
      (P : ℕ → Pc V → Type 0) (f : ℕ → Pc V) (i : ℕ) (pc : Pc V)
      → P i pc
      → ((j : ℕ) → P j (f j))
      → (j : ℕ) → P j (update f i pc j)
  update-everywhere P f i pc p h j = elim (Bool-cases (i == j)) [
    | inl b ↦ rw b (subst (λ n. P n pc) ((==_iff i j).0 b) p)
    | inr b ↦ rw b (h j)
  ]

  -- The moments hold the present, and every entry, every lookup and the rows are of one of them.
  record IsTold (wanted : ℕ → Wanted × String) (s : System V W) : Type 0 where
    now : get_elem? s.moments 0 ≡ some s.service.world
    entries : IsEverywhere (EntrySaid collections s.moments) s.service.collection_cache
    pcs : (i : ℕ) → PcSaid collections s.moments (wanted i).0 (wanted i).1 (s.lookups i)
    rows : WarmingSaid collections s.moments s.warming

  -- A lookup has made its call.
  turned-IsTold :
      (wanted : ℕ → Wanted × String) (i : ℕ) (pc : Pc V) (t : Service W) (s : System V W)
      → IsTold wanted s
      → PcSaid collections s.moments (wanted i).0 (wanted i).1 pc
      → IsEverywhere (EntrySaid collections s.moments) t.collection_cache
      → IsTold wanted
          (record s { service = t; lookups = update s.lookups i pc; moments = t.world ∷ s.moments })
  turned-IsTold wanted i pc t s h p e = record {
    now = refl;
    entries = EntrySaid-later collections t.world s.moments t.collection_cache e;
    pcs =
        update-everywhere (λ j. PcSaid collections (t.world ∷ s.moments) (wanted j).0 (wanted j).1)
          s.lookups i pc (PcSaid-later collections t.world s.moments (wanted i).0 (wanted i).1 pc p)
          (λ j.
            PcSaid-later collections t.world s.moments (wanted j).0 (wanted j).1 (s.lookups j)
              (h.pcs j));
    rows = WarmingSaid-later collections t.world s.moments s.warming h.rows;
  }

  -- The warming has made its call.
  warmed-IsTold :
      (wanted : ℕ → Wanted × String) (x : Warming) (t : Service W) (s : System V W)
      → IsTold wanted s
      → WarmingSaid collections s.moments x
      → IsEverywhere (EntrySaid collections s.moments) t.collection_cache
      → IsTold wanted (record s { service = t; warming = x; moments = t.world ∷ s.moments })
  warmed-IsTold wanted x t s h r e = record {
    now = refl;
    entries = EntrySaid-later collections t.world s.moments t.collection_cache e;
    pcs = λ j.
        PcSaid-later collections t.world s.moments (wanted j).0 (wanted j).1 (s.lookups j)
          (h.pcs j);
    rows = WarmingSaid-later collections t.world s.moments x r;
  }

  module _ (query : W → Rows × W) (tells : TellsTable collections query)
      (wanted : ℕ → Wanted × String) where
    warm_up-Said :
        (moments : List W) (x : Warming) (s : Service W)
        → get_elem? moments 0 ≡ some s.world
        → WarmingSaid collections moments x
        → IsEverywhere (EntrySaid collections moments) s.collection_cache
        → let (y, t) = warm_up query x s in
          WarmingSaid collections moments y
          × IsEverywhere (EntrySaid collections moments) t.collection_cache
    unfolding warm_up
    warm_up-Said moments waiting s now h p = (
      λ rows last j r e q.
          let (c, said, same) = tells.told s.world rows last j r e q in
          (c, (0, s.world, now, said), same),
      p,
    )
    warm_up-Said moments (loading answer) s now h p = (
      tt,
      warm_from_db-IsEverywhere (EntrySaid collections moments) answer s.collection_cache h p,
    )
    warm_up-Said moments (finished e) s now h p = (tt, p)

    Step-IsTold :
        {s t : System V W} → Step collections query wanted s t → IsTold wanted s → IsTold wanted t
    unfolding turn warm_turn
    Step-IsTold {s} (lookup_turn i) h =
        let (pc, t) = advance collections (wanted i).0 (wanted i).1 (s.lookups i) s.service in
        let (p, e) =
          advance-Said s.moments (wanted i).0 (wanted i).1 (s.lookups i) s.service
            (0, s.service.world, h.now, refl) (h.pcs i) h.entries in
        turned-IsTold wanted i pc t s h p e
    Step-IsTold {s} warming_turn h =
        let (x, t) = warm_up query s.warming s.service in
        let (r, e) = warm_up-Said s.moments s.warming s.service h.now h.rows h.entries in
        warmed-IsTold wanted x t s h r e
    Step-IsTold {s} (changed w) h =
        warmed-IsTold wanted s.warming (record s.service { world = w }) s h h.rows h.entries

    Reach-IsTold : {w : W} {s : System V W} → Reach collections query wanted w s → IsTold wanted s
    Reach-IsTold {w} start = record {
      now = refl;
      entries = new_cache-IsEverywhere (EntrySaid collections (w ∷ []));
      pcs = λ i. tt;
      rows = tt;
    }
    Reach-IsTold (later r step) = Step-IsTold step (Reach-IsTold r)

    -- Whatever the interleaving of lookups, of the warming of the cache and of changes of the database: an
    -- answer is what the repository said at a moment since the start (the dimension as it is or as an
    -- int32), an error is what a failed read at such a moment is turned into, and every cached entry is
    -- of such a moment. It asks that the query of the warming says what the repository says.
    pub Reach-AnswerSaid :
        (w : W) (s : System V W)
        → Reach collections query wanted w s
        → ((i : ℕ) (r : Result Answer)
            → s.lookups i ≡ answered r
            → AnswerSaid collections s.moments (wanted i).0 (wanted i).1 r)
          × ((id : String) (info : CollectionInfo)
              → lookup id s.service.collection_cache.cache ≡ some info
              → EntrySaid collections s.moments id info)
    Reach-AnswerSaid w s reach =
        let h = Reach-IsTold reach in
        (
          λ i r e. subst (PcSaid collections s.moments (wanted i).0 (wanted i).1) e (h.pcs i),
          λ id info e. h.entries id info e,
        )
