-- ===== src/Base/Text.antt =====
-- A Go string as the list of its bytes, where the program walks or measures it. Where the program
-- only compares whole strings (ids, names, providers) it is the native `String`.
use Prim.Native.Char.{code}
use vector_sync.Base.{ℕ, String, List, [], ◌∷◌, Bool, true, false, ◌&&◌, ◌==◌ as nat_eq}

abbrev pub Bytes : Type 0
Bytes = List ℕ

-- The code points of a text, which are its bytes where it is ASCII.
abbrev pub codes : String → Bytes
codes String.[] = []
codes (String.◌∷◌ c s) = code c ∷ codes s

abbrev pub bytes_eq : Bytes → Bytes → Bool
bytes_eq [] [] = true
bytes_eq [] (d ∷ t) = false
bytes_eq (c ∷ s) [] = false
bytes_eq (c ∷ s) (d ∷ t) = nat_eq c d && bytes_eq s t
