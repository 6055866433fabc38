-- ===== src/Db/Statements/Binding.antt =====
-- The placeholders of a statement against its values, as it is put together.
use mathlib.Core.Path.{subst}
use text.Mathlib.Text.{◌==◌}
use vector_sync.Base.{
  ℕ, ◌+◌, ◌≤◌, String, ◌≡◌, refl, sym, ap, ◌∙◌, append-nil, append_assoc, map, Bool, true, false,
  List, [], ◌∷◌, ◌++◌, arith, length, length-append, All, All-append, if◌then◌else◌,
}
use vector_sync.Base.Exec.{Result, ok, err}
use vector_sync.Db.Statements.{
  Piece, sql, placeholder, similarity_expression, Statement, bind, Arg, json_arg, filter_loop,
  distance_expression,
}

-- A placeholder names one of the first `n` values.
abbrev pub IsBound : ℕ → Piece → Type 0
IsBound n (sql s) = Unit
IsBound n (placeholder k) = (1 ≤ k) × (k ≤ n)

-- The index is that of the next value, and every placeholder names a value.
abbrev pub IsBinding : {A : Type 0} → Statement A → Type 0
IsBinding s = (s.arg_index ≡ length s.args + 1) × All (IsBound (length s.args)) s.query

pub All-IsBound-weaken :
    (n m : ℕ) (ps : List Piece) → n ≤ m → All (IsBound n) ps → All (IsBound m) ps
All-IsBound-weaken n m [] h k = tt
All-IsBound-weaken n m (sql s ∷ ps) h (_, k) = (tt, All-IsBound-weaken n m ps h k)
All-IsBound-weaken n m (placeholder i ∷ ps) h ((a, b), k) =
    ((a, omega arith), All-IsBound-weaken n m ps h k)

bind-IsBinding :
    {A : Type 0} (before : List Piece) (after : String) (value : A) (s : Statement A)
    → IsBinding s
    → All (IsBound (length s.args)) before
    → IsBinding (bind before after value s)
unfolding bind
bind-IsBinding before after value s (e, q) b =
    let more = length-append s.args (value ∷ []) in
    (
      rw more (omega (arith, e)),
      rw more (
          All-append (IsBound (length s.args + 1)) s.query
            (before ++ (placeholder s.arg_index ∷ sql after ∷ []))
            (All-IsBound-weaken (length s.args) (length s.args + 1) s.query (omega arith) q)
            (All-append (IsBound (length s.args + 1)) before
              (placeholder s.arg_index ∷ sql after ∷ [])
              (All-IsBound-weaken (length s.args) (length s.args + 1) before (omega arith) b)
              ((omega (arith, e), omega (arith, e)), (tt, tt)))),
    )

-- A statement that binds two values, at least.
abbrev pub IsSearch : {A : Type 0} → Statement A → Type 0
IsSearch s = IsBinding s × (2 ≤ length s.args)

pub bind-IsSearch :
    {A : Type 0} (before : List Piece) (after : String) (value : A) (s : Statement A)
    → IsSearch s
    → All (IsBound (length s.args)) before
    → IsSearch (bind before after value s)
unfolding bind
bind-IsSearch before after value s (h, n) b = (
  bind-IsBinding before after value s h b,
  rw (length-append s.args (value ∷ [])) (omega (arith, n)),
)

pub distance_expression-IsBound :
    (n k : ℕ) (metric : String) → 1 ≤ k → k ≤ n → All (IsBound n) (distance_expression metric k)
unfolding distance_expression
distance_expression-IsBound n k metric low high = (tt, (tt, (tt, ((low, high), (tt, tt)))))

pub similarity_expression-IsBound :
    (n : ℕ) (metric : String) (dist : List Piece)
    → All (IsBound n) dist
    → All (IsBound n) (similarity_expression metric dist)
unfolding similarity_expression
similarity_expression-IsBound n metric dist h =
    All-if (metric == "euclidean") _ _ (tt, closed "))")
      (All-if (metric == "inner_product") _ _ (tt, closed ") * -1") (tt, closed ")"))
  where
    closed : (s : String) → All (IsBound n) (dist ++ sql s ∷ [])
    closed s = All-append (IsBound n) dist (sql s ∷ []) h (tt, tt)

    All-if :
        (b : Bool) (ps qs : List Piece)
        → All (IsBound n) ps
        → All (IsBound n) qs
        → All (IsBound n) (if b then ps else qs)
    All-if true ps qs h k = h
    All-if false ps qs h k = k

pub ok-injective : {A : Type 0} (a b : A) → ok a ≡ ok b → a ≡ b
ok-injective a b e = ground arith

module _ {F J : Type 0} where
  pub filter_loop-IsSearch :
      (filters : List (Result J)) (s t : Statement (Arg F J))
      → IsSearch s
      → filter_loop filters s ≡ ok t
      → IsSearch t
  unfolding filter_loop
  filter_loop-IsSearch [] s t h e = subst IsSearch (ok-injective s t e) h
  filter_loop-IsSearch (err x ∷ filters) s t h e = ground arith
  filter_loop-IsSearch (ok json ∷ filters) s t h e =
      filter_loop-IsSearch filters _ t
        (bind-IsSearch (sql " AND metadata @> " ∷ []) "::jsonb" (json_arg json) s h (tt, tt)) e

  -- The values of the filter stand behind those before it.
  pub filter_loop-args :
      (filters : List (Result J)) (s t : Statement (Arg F J))
      → filter_loop filters s ≡ ok t
      → (js : List J) × (filters ≡ map ok js) × (t.args ≡ s.args ++ map json_arg js)
  unfolding filter_loop bind
  filter_loop-args [] s t e =
      ([], refl, ap (λ r. r.args) (sym (ok-injective s t e)) ∙ sym (append-nil s.args))
  filter_loop-args (err x ∷ filters) s t e = ground arith
  filter_loop-args (ok j ∷ filters) s t e =
      let (js, f, a) = filter_loop-args filters _ t e in
      (j ∷ js, ap (◌∷◌ (ok j)) f, a ∙ append_assoc s.args (json_arg j ∷ []) (map json_arg js))
