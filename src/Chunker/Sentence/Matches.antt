-- ===== src/Chunker/Sentence/Matches.antt =====
-- What the regular expression of `SentenceChunker` matches, and what it drops.
use mathlib.Core.Path.{subst}
use vector_sync.Base.{
  ℕ, zero, suc, ◌≤◌, ◌<◌, ◌≡◌, refl, sym, ap, ◌∙◌, ◌⊎◌, inl, inr, Bool, true, false, not, ◌&&◌, [],
  ◌∷◌, ◌++◌, append-nil, append_assoc, Option, none, some, arith, length, length-append, is_empty,
  All, Bool-cases, Option-cases,
}
use vector_sync.Base.Text.{Bytes}
use vector_sync.Chunker.Sentence.{
  is_terminator, is_gap, span, close_sentence, sentence_match, find_all_loop, find_all,
}

abbrev pub AllAre : (ℕ → Bool) → Bool → Bytes → Type 0
AllAre p b = All (λ c. p c ≡ b)

-- The language of `[^.!?]+([.!?]+(\s+|$)|$)`, with what follows the match, which `$` looks at.
pub data Sentence : Bytes → Bytes → Type 0 where
  open_end : (b : ℕ) (body : Bytes) → AllAre is_terminator false (b ∷ body) → Sentence (b ∷ body) []
  closed :
      (b : ℕ) (body : Bytes) (t : ℕ) (ends gap rest : Bytes)
      → AllAre is_terminator false (b ∷ body)
      → AllAre is_terminator true (t ∷ ends)
      → AllAre is_gap true gap
      → (is_empty gap ≡ false) ⊎ (is_empty rest ≡ true)
      → Sentence ((b ∷ body) ++ ((t ∷ ends) ++ gap)) rest

span-append : (p : ℕ → Bool) (s : Bytes) → (span p s).0 ++ (span p s).1 ≡ s
unfolding span
span-append p [] = refl
span-append p (c ∷ s) = elim (Bool-cases (p c)) [
  | inl e ↦ rw (e, span) (ap (◌∷◌ c) (span-append p s))
  | inr e ↦ rw (e, span) refl
]

span-AllAre : (p : ℕ → Bool) (s : Bytes) → AllAre p true (span p s).0
unfolding span
span-AllAre p [] = tt
span-AllAre p (c ∷ s) = elim (Bool-cases (p c)) [
  | inl e ↦ rw (e, span) (e, span-AllAre p s)
  | inr e ↦ rw (e, span) tt
]

-- A run that is followed by nothing, or by a byte that does not belong to it, is the whole run.
abbrev pub Stops : (ℕ → Bool) → Bytes → Type 0
Stops p [] = Unit
Stops p (c ∷ s) = p c ≡ false

span_run :
    (p : ℕ → Bool) (run rest : Bytes)
    → AllAre p true run
    → Stops p rest
    → span p (run ++ rest) ≡ (run, rest)
unfolding span
span_run p [] [] h stop = refl
span_run p [] (c ∷ rest) h stop = rw stop refl
span_run p (c ∷ run) rest (hc, h) stop = rw (hc, span_run p run rest h stop) refl

AllAre-not : (s : Bytes) → AllAre is_terminator false s → AllAre (λ c. not (is_terminator c)) true s
AllAre-not [] h = tt
AllAre-not (c ∷ s) (hc, h) = (rw hc refl, AllAre-not s h)

not-AllAre : (s : Bytes) → AllAre (λ c. not (is_terminator c)) true s → AllAre is_terminator false s
not-AllAre [] h = tt
not-AllAre (c ∷ s) (hc, h) = (ground arith, not-AllAre s h)

sentence_match-fail :
    (b : ℕ) (body : Bytes) (t : ℕ) (ends : Bytes) (c : ℕ) (rest : Bytes)
    → AllAre is_terminator false (b ∷ body)
    → AllAre is_terminator true (t ∷ ends)
    → is_terminator c ≡ false
    → is_gap c ≡ false
    → sentence_match ((b ∷ body) ++ ((t ∷ ends) ++ (c ∷ rest))) ≡ none
unfolding sentence_match close_sentence
sentence_match-fail b body t ends c rest hb ht hc hg =
    rw
      (
        span_run (λ x. not (is_terminator x)) (b ∷ body) ((t ∷ ends) ++ (c ∷ rest))
            (AllAre-not (b ∷ body) hb) (rw ht.0 refl),
        span_run is_terminator (t ∷ ends) (c ∷ rest) ht hc,
        span_run is_gap [] (c ∷ rest) tt hg,
      )
      refl

span_more :
    (p : ℕ → Bool) (run rest : Bytes)
    → AllAre p true run
    → span p (run ++ rest) ≡ (run ++ (span p rest).0, (span p rest).1)
unfolding span
span_more p [] rest h = refl
span_more p (c ∷ run) rest (hc, h) = rw (hc, span_more p run rest h) refl

span-nil : (p : ℕ → Bool) → span p [] ≡ ([], [])
unfolding span
span-nil p = refl

span_all : (p : ℕ → Bool) (run : Bytes) → AllAre p true run → span p run ≡ (run, [])
span_all p run h = rw append-nil at (span_run p run [] h tt)

span_first :
    (p : ℕ → Bool) (c : ℕ) (s : Bytes)
    → p c ≡ true
    → span p (c ∷ s) ≡ (c ∷ (span p s).0, (span p s).1)
unfolding span
span_first p c s h = rw h refl

gap-terminator : (c : ℕ) → is_gap c ≡ true → is_terminator c ≡ false
unfolding is_gap is_terminator
gap-terminator c h = ground arith

assoc4 : (a b c d : Bytes) → (a ++ (b ++ c)) ++ d ≡ a ++ (b ++ (c ++ d))
assoc4 a b c d = simp append_assoc

-- Where the pattern matches, the code finds a match there: that one, or the one that goes on to
-- the end of the white space.
pub Sentence-sentence_match :
    (m rest : Bytes)
    → Sentence m rest
    → sentence_match (m ++ rest) ≡ some (m ++ (span is_gap rest).0, (span is_gap rest).1)
unfolding sentence_match close_sentence
Sentence-sentence_match _ _ (open_end b body h) =
    simp (append-nil, span-nil)
      (rw (span_all (λ x. not (is_terminator x)) (b ∷ body) (AllAre-not (b ∷ body) h)) refl)
Sentence-sentence_match _ _ (closed b body t ends [] [] hb ht hg e) =
    simp (append-nil, span-nil)
      (rw
        (
          span_run (λ x. not (is_terminator x)) (b ∷ body) (t ∷ ends) (AllAre-not (b ∷ body) hb)
              (rw ht.0 refl),
          span_all is_terminator (t ∷ ends) ht,
          span-nil is_gap,
        )
        (ap (λ x. some ((b ∷ body) ++ x, [])) (append-nil (t ∷ ends))))
Sentence-sentence_match _ _ (closed b body t ends [] (r ∷ rs) hb ht hg e) = ground arith
Sentence-sentence_match _ _ (closed b body t ends (g ∷ gap) rest hb ht hg e) =
    rw
      (
        assoc4 (b ∷ body) (t ∷ ends) (g ∷ gap) rest,
        span_run (λ x. not (is_terminator x)) (b ∷ body) ((t ∷ ends) ++ ((g ∷ gap) ++ rest))
            (AllAre-not (b ∷ body) hb) (rw ht.0 refl),
        span_run is_terminator (t ∷ ends) ((g ∷ gap) ++ rest) ht (gap-terminator g hg.0),
        span_more is_gap (g ∷ gap) rest hg,
      )
      (ap (λ x. some (x, (span is_gap rest).1))
        (sym (assoc4 (b ∷ body) (t ∷ ends) (g ∷ gap) (span is_gap rest).0)))

-- A match that is found is one of the pattern, and stands at the beginning of the text.
abbrev pub Found : Bytes → Option (Bytes × Bytes) → Type 0
Found text none = Unit {0}
Found text (some (m, rest)) = Sentence m rest × (text ≡ m ++ rest)

span-Stops : (p : ℕ → Bool) (s : Bytes) → Stops p (span p s).1
unfolding span
span-Stops p [] = tt
span-Stops p (c ∷ s) = elim (Bool-cases (p c)) [
  | inl e ↦ rw (e, span) (span-Stops p s)
  | inr e ↦ rw (e, span) e
]

span-is_empty : (p : ℕ → Bool) (s : Bytes) → is_empty s ≡ true → is_empty (span p s).1 ≡ true
unfolding span
span-is_empty p [] h = refl
span-is_empty p (c ∷ s) h = cc

close_sentence-Found :
    (body after : Bytes)
    → AllAre is_terminator false body
    → Stops (λ c. not (is_terminator c)) after
    → Found (body ++ after) (close_sentence body after)
unfolding close_sentence
close_sentence-Found [] after h stop = tt
close_sentence-Found (b ∷ body) [] h stop = (open_end b body h, refl)
close_sentence-Found (b ∷ body) (t ∷ s) h stop =
    let run = span is_terminator s in
    let gap = span is_gap run.1 in
    rw (span_first is_terminator t s (ground arith))
      (elim (Bool-cases (is_empty gap.0 && not (is_empty run.1))) [
        | inl e ↦ rw e tt
        | inr e ↦ rw e (
          closed b body t run.0 gap.0 gap.1 h (ground arith, span-AllAre is_terminator s)
              (span-AllAre is_gap run.1) (ground (arith, span-is_empty is_gap run.1)),
          ap (λ x. (b ∷ body) ++ (t ∷ x))
                (sym (span-append is_terminator s)
                  ∙ ap (◌++◌ run.0) (sym (span-append is_gap run.1)))
              ∙ sym (assoc4 (b ∷ body) (t ∷ run.0) gap.0 gap.1),
        )
      ])

pub sentence_match-Found : (text : Bytes) → Found text (sentence_match text)
unfolding sentence_match
sentence_match-Found text =
    let run = span (λ c. not (is_terminator c)) text in
    subst (λ t. Found t (close_sentence run.0 run.1))
      (span-append (λ c. not (is_terminator c)) text)
      (close_sentence-Found run.0 run.1
        (not-AllAre run.0 (span-AllAre (λ c. not (is_terminator c)) text))
        (span-Stops (λ c. not (is_terminator c)) text))

Sentence-pos : {m rest : Bytes} → Sentence m rest → 0 < length m
Sentence-pos (open_end b body h) = omega arith
Sentence-pos (closed b body t ends gap rest hb ht hg e) = omega arith

rest-lt : (text m rest : Bytes) → sentence_match text ≡ some (m, rest) → length rest < length text
rest-lt text m rest e =
    let found : Found text (some (m, rest)) = rw e at (sentence_match-Found text) in
    omega (arith, Sentence-pos found.0, ap length found.1, length-append m rest)

-- The search consumes the text, so that rounds beyond its length change nothing.
find_all_loop_fuel :
    (f g : ℕ) (text : Bytes)
    → length text ≤ f
    → length text ≤ g
    → find_all_loop f text ≡ find_all_loop g text
unfolding find_all_loop
find_all_loop_fuel zero zero text hf hg = refl
find_all_loop_fuel (suc f) (suc g) [] hf hg = refl
find_all_loop_fuel zero (suc g) [] hf hg = refl
find_all_loop_fuel (suc f) zero [] hf hg = refl
find_all_loop_fuel zero (suc g) (c ∷ s) hf hg = absurd (omega arith)
find_all_loop_fuel (suc f) zero (c ∷ s) hf hg = absurd (omega arith)
find_all_loop_fuel (suc f) (suc g) (c ∷ s) hf hg = elim (Option-cases (sentence_match (c ∷ s))) [
  | inl e ↦ rw (e, find_all_loop) (find_all_loop_fuel f g s (omega arith) (omega arith))
  | inr ((m, rest), e) ↦
      rw (e, find_all_loop)
        (ap (◌∷◌ m) (
          find_all_loop_fuel f g rest (omega (arith, rest-lt (c ∷ s) m rest e))
            (omega (arith, rest-lt (c ∷ s) m rest e))))
]

-- The loop of `FindAllString` without its bound on the rounds: the search goes on behind a match,
-- and one byte further where there is none.
pub find_all_lem :
    (c : ℕ) (s : Bytes)
    → find_all (c ∷ s)
      ≡ (elim (sentence_match (c ∷ s)) [ none ↦ find_all s | some (m, rest) ↦ m ∷ find_all rest ])
unfolding find_all find_all_loop
find_all_lem c s = elim (Option-cases (sentence_match (c ∷ s))) [
  | inl e ↦ rw (e, find_all, find_all_loop) refl
  | inr ((m, rest), e) ↦
      rw (e, find_all, find_all_loop)
        (ap (◌∷◌ m) (
          find_all_loop_fuel (length s) (length rest) rest (omega (arith, rest-lt (c ∷ s) m rest e))
            (omega arith)))
]

find_all-none : (c : ℕ) (s : Bytes) → sentence_match (c ∷ s) ≡ none → find_all (c ∷ s) ≡ find_all s
find_all-none c s e = rw (find_all_lem c s, e) refl

sentence_match-terminator :
    (t : ℕ) (s : Bytes) → is_terminator t ≡ true → sentence_match (t ∷ s) ≡ none
unfolding sentence_match close_sentence span
sentence_match-terminator t s h = rw h refl

module _ (c : ℕ) (rest : Bytes) (inside : is_terminator c ≡ false) (no_gap : is_gap c ≡ false) where
  drop_ends :
      (ends : Bytes)
      → AllAre is_terminator true ends
      → find_all (ends ++ (c ∷ rest)) ≡ find_all (c ∷ rest)
  drop_ends [] h = refl
  drop_ends (t ∷ ends) (ht, h) =
      find_all-none t (ends ++ (c ∷ rest)) (sentence_match-terminator t (ends ++ (c ∷ rest)) ht)
      ∙ drop_ends ends h

  drop_body :
      (body : Bytes) (t : ℕ) (ends : Bytes)
      → AllAre is_terminator false body
      → AllAre is_terminator true (t ∷ ends)
      → find_all (body ++ ((t ∷ ends) ++ (c ∷ rest))) ≡ find_all (c ∷ rest)
  drop_body [] t ends hb ht = drop_ends (t ∷ ends) ht
  drop_body (b ∷ body) t ends (hb, hs) ht =
      find_all-none b (body ++ ((t ∷ ends) ++ (c ∷ rest)))
        (sentence_match-fail b body t ends c rest (hb, hs) ht inside no_gap)
      ∙ drop_body body t ends hs ht

-- What stands before a full stop that no white space follows, as the "3." of "3.14" or the "www."
-- of "www.example.com is up", is in no match.
pub find_all-drops :
    (body : Bytes) (t : ℕ) (ends : Bytes) (c : ℕ) (rest : Bytes)
    → AllAre is_terminator false body
    → AllAre is_terminator true (t ∷ ends)
    → is_terminator c ≡ false
    → is_gap c ≡ false
    → find_all (body ++ ((t ∷ ends) ++ (c ∷ rest))) ≡ find_all (c ∷ rest)
find_all-drops body t ends c rest hb ht inside no_gap =
    drop_body c rest inside no_gap body t ends hb ht
