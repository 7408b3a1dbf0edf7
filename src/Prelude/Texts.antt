-- ===== src/Prelude/Texts.antt =====
-- `std::string` as its bytes, with literals, equality and searches.
use Prim.Native.Char.{code}
use Prim.Native.Nat.{ℕ}
use Prim.Native.String.{String}
use mathlib.Core.Path.{◌≡◌, refl}
use mathlib.Core.Logic.{◌↔◌}
use mathlib.Core.Bool.{Bool, true, false, ◌&&◌, ◌||◌}
use mathlib.Core.List.{List, [], ◌∷◌, ◌++◌}
use native.Mathlib.Omega.{arith}
use bashpp.Prelude.Tests.{◌==◌}

abbrev pub Text : Type 0
Text = List ℕ

-- A string literal of the source; every literal of the program is ASCII.
unfoldable pub lit : String → Text
lit String.[] = []
lit (String.◌∷◌ c s) = code c ∷ lit s

-- `==` of two strings
unfoldable pub same_text : Text → Text → Bool
same_text [] [] = true
same_text (a ∷ s) (b ∷ t) = (a == b) && same_text s t
same_text _ _ = false

pub same_text_iff : (s t : Text) → (same_text s t ≡ true) ↔ (s ≡ t)
unfolding same_text
same_text_iff (a ∷ s) (b ∷ t) = ground (arith, same_text_iff s t)
same_text_iff _ _ = ground arith

pub same_text_refl : (s : Text) → same_text s s ≡ true
same_text_refl s = (same_text_iff s s).1 refl

-- `s.empty()`
abbrev pub is_empty : Text → Bool
is_empty [] = true
is_empty (c ∷ s) = false

-- `s.starts_with(prefix)`, the prefix first
unfoldable pub starts_with : Text → Text → Bool
starts_with [] s = true
starts_with (c ∷ p) [] = false
starts_with (c ∷ p) (d ∷ s) = (c == d) && starts_with p s

-- `s.contains(piece)`, the piece first
unfoldable pub contains : Text → Text → Bool
unfolding starts_with
contains p [] = starts_with p []
contains p (c ∷ s) = starts_with p (c ∷ s) || contains p s

-- `s.contains(byte)`
unfoldable pub contains_byte : ℕ → Text → Bool
contains_byte b [] = false
contains_byte b (c ∷ s) = (c == b) || contains_byte b s

unfoldable pub mem_text : Text → List Text → Bool
unfolding same_text
mem_text t [] = false
mem_text t (s ∷ l) = same_text s t || mem_text t l

-- The pieces of a text that the source joins by `+`.
unfoldable pub concat : List Text → Text
concat [] = []
concat (s ∷ ss) = s ++ concat ss
