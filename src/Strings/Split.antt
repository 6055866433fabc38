-- ===== src/Strings/Split.antt =====
-- What `split` and `join` do to one another.
use vector_sync.Base.{
  ℕ, zero, suc, ◌-◌, ◌≡◌, ◌≢◌, refl, sym, ap, ◌∙◌, inl, inr, true, List, [], ◌∷◌, ◌++◌, append-nil,
  append_assoc, arith, length, drop, Bool-cases, ==_iff,
}
use vector_sync.Base.Text.{Bytes}
use vector_sync.Strings.{starts_with, split_loop, split, join}

pub starts_with-drop : (s p : Bytes) → starts_with s p ≡ true → s ≡ p ++ drop (length p) s
unfolding starts_with
starts_with-drop s [] h = refl
starts_with-drop [] (p ∷ ps) h = cc
starts_with-drop (c ∷ s) (p ∷ ps) h = ground (arith, ==_iff c p, starts_with-drop s ps)

split_loop-ne-nil : (sep s : Bytes) (k : ℕ) (cur : Bytes) → split_loop sep s k cur ≢ []
unfolding split_loop
split_loop-ne-nil sep [] k cur = ground arith
split_loop-ne-nil sep (c ∷ s) (suc k) cur = split_loop-ne-nil sep s k cur
split_loop-ne-nil sep (c ∷ s) zero cur =
    ground (arith, split_loop-ne-nil sep s zero (cur ++ c ∷ []))

pub join-cons :
    (p : Bytes) (ps : List Bytes) (sep : Bytes)
    → ps ≢ []
    → join (p ∷ ps) sep ≡ p ++ (sep ++ join ps sep)
unfolding join
join-cons p [] sep h = absurd (h refl)
join-cons p (q ∷ ps) sep h = refl

module _ (sep : Bytes) (nonempty : sep ≢ []) where
  drop_sep : (c : ℕ) (s : Bytes) → drop (length sep) (c ∷ s) ≡ drop (length sep - 1) s
  drop_sep c s = go sep nonempty
    where
      go : (t : Bytes) → t ≢ [] → drop (length t) (c ∷ s) ≡ drop (length t - 1) s
      go [] h = absurd (h refl)
      go (x ∷ t) h = ap (λ k. drop k s) (omega arith)

  join-split_loop :
      (s : Bytes) (k : ℕ) (cur : Bytes) → join (split_loop sep s k cur) sep ≡ cur ++ drop k s
  unfolding split_loop
  join-split_loop [] zero cur = unfold join in sym (append-nil cur)
  join-split_loop [] (suc k) cur = unfold join in sym (append-nil cur)
  join-split_loop (c ∷ s) (suc k) cur = join-split_loop s k cur
  join-split_loop (c ∷ s) zero cur = elim (Bool-cases (starts_with (c ∷ s) sep)) [
    | inl e ↦
        rw (e, split_loop, join-cons cur _ sep (split_loop-ne-nil sep s (length sep - 1) []))
          (ap (λ t. cur ++ (sep ++ t)) (join-split_loop s (length sep - 1) [] ∙ sym (drop_sep c s))
            ∙ ap (◌++◌ cur) (sym (starts_with-drop (c ∷ s) sep e)))
    | inr e ↦
        rw (e, split_loop) (join-split_loop s zero (cur ++ c ∷ []) ∙ append_assoc cur (c ∷ []) s)
  ]

-- Joining the parts of a split by its separator gives the text back.
pub join-split : (s sep : Bytes) → sep ≢ [] → join (split s sep) sep ≡ s
unfolding split
join-split s sep h = join-split_loop sep h s zero []
