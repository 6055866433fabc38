-- ===== src/Strings.antt =====
-- The functions of Go's `strings` package that the source calls, on lists of bytes.
pub mod Split
pub mod Trim
use vector_sync.Base.{
  ℕ, zero, suc, ◌+◌, ◌-◌, Bool, true, false, ◌||◌, ◌&&◌, List, [], ◌∷◌, ◌++◌, Option, none, some,
  ◌==◌, leb, if◌then◌else◌, length, is_empty, drop, map, String,
}
use vector_sync.Base.Text.{Bytes, codes}

-- `strings.HasPrefix(s, prefix)`
unfoldable pub starts_with : Bytes → Bytes → Bool
starts_with s [] = true
starts_with [] (p ∷ ps) = false
starts_with (c ∷ s) (p ∷ ps) = c == p && starts_with s ps

-- `strings.Contains(s, substr)`
unfoldable pub contains : Bytes → Bytes → Bool
unfolding starts_with
contains [] sub = is_empty sub
contains (c ∷ s) sub = starts_with (c ∷ s) sub || contains s sub

-- The parts of `s` behind the part `cur` that is being read. The number counts the bytes that are
-- still to be skipped of a separator that was met.
unfoldable pub split_loop : Bytes → Bytes → ℕ → Bytes → List Bytes
unfolding starts_with
split_loop sep [] skip cur = cur ∷ []
split_loop sep (c ∷ s) (suc skip) cur = split_loop sep s skip cur
split_loop sep (c ∷ s) zero cur = elim (starts_with (c ∷ s) sep) [
  | true ↦ cur ∷ split_loop sep s (length sep - 1) []
  | false ↦ split_loop sep s zero (cur ++ c ∷ [])
]

-- `strings.Split(s, sep)`, for a separator that is not empty.
unfoldable pub split : Bytes → Bytes → List Bytes
unfolding split_loop
split s sep = split_loop sep s zero []

-- `strings.Join(parts, sep)`
unfoldable pub join : List Bytes → Bytes → Bytes
join [] sep = []
join (p ∷ []) sep = p
join (p ∷ (q ∷ ps)) sep = p ++ (sep ++ join (q ∷ ps) sep)

-- `unicode.ToLower` on a code point. Beside A to Z only U+0130 and U+212A become ASCII letters;
-- the other code points are left alone, which no comparison with an ASCII word can tell.
unfoldable pub to_lower_rune : ℕ → ℕ
to_lower_rune c =
    if leb b'A' c && leb c b'Z'
    then c + 32
    else if c == 0x130
    then b'i'
    else if c == 0x212A
    then b'k'
    else c

-- `strings.ToLower(s)`, as far as a comparison with ASCII words sees it.
unfoldable pub to_lower : String → Bytes
unfolding to_lower_rune
to_lower s = map to_lower_rune (codes s)
