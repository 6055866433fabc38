-- ===== src/Strings/Trim.antt =====
-- `strings.TrimSpace`: the white space of Unicode at both ends, seen as its UTF-8 bytes.
use mathlib.Core.List.{reverse}
use vector_sync.Base.{ℕ, zero, suc, Bool, ◌&&◌, ◌||◌, [], ◌∷◌, ◌==◌, leb, if◌then◌else◌}
use vector_sync.Base.Text.{Bytes}

-- U+0009 to U+000D and U+0020
unfoldable pub is_space1 : ℕ → Bool
is_space1 a = (leb 9 a && leb a 13) || a == 32

-- U+0085 and U+00A0
unfoldable pub is_space2 : ℕ → ℕ → Bool
is_space2 a b = a == 0xC2 && (b == 0x85 || b == 0xA0)

-- U+1680, U+2000 to U+200A, U+2028, U+2029, U+202F, U+205F and U+3000
unfoldable pub is_space3 : ℕ → ℕ → ℕ → Bool
is_space3 a b c =
    (a == 0xE1 && (b == 0x9A && c == 0x80))
    || ((a == 0xE2
          && ((b == 0x80 && ((leb 0x80 c && leb c 0x8A) || (c == 0xA8 || (c == 0xA9 || c == 0xAF))))
              || (b == 0x81 && c == 0x9F)))
        || (a == 0xE3 && (b == 0x80 && c == 0x80)))

-- The length of the white space rune that the text begins with, 0 if it begins with none.
unfoldable pub first_space : Bytes → ℕ
unfolding is_space1 is_space2 is_space3
first_space [] = 0
first_space (a ∷ []) = if is_space1 a then 1 else 0
first_space (a ∷ (b ∷ [])) = if is_space1 a then 1 else if is_space2 a b then 2 else 0
first_space (a ∷ (b ∷ (c ∷ s))) =
    if is_space1 a then 1 else if is_space2 a b then 2 else if is_space3 a b c then 3 else 0

-- The same of a text that is read from its end.
unfoldable pub last_space : Bytes → ℕ
unfolding is_space1 is_space2 is_space3
last_space [] = 0
last_space (a ∷ []) = if is_space1 a then 1 else 0
last_space (a ∷ (b ∷ [])) = if is_space1 a then 1 else if is_space2 b a then 2 else 0
last_space (a ∷ (b ∷ (c ∷ s))) =
    if is_space1 a then 1 else if is_space2 b a then 2 else if is_space3 c b a then 3 else 0

-- Drops white space runes while the text begins with one; the number counts the bytes that are
-- left of the rune that is being dropped.
unfoldable pub trim_loop : (Bytes → ℕ) → Bytes → ℕ → Bytes
trim_loop space [] k = []
trim_loop space (c ∷ s) (suc k) = trim_loop space s k
trim_loop space (c ∷ s) zero = elim (space (c ∷ s)) [ zero ↦ c ∷ s | suc k ↦ trim_loop space s k ]

-- `strings.TrimSpace(s)`
unfoldable pub trim_space : Bytes → Bytes
unfolding trim_loop first_space last_space
trim_space s = reverse (trim_loop last_space (reverse (trim_loop first_space s 0)) 0)
