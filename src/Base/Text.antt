-- ===== src/Base/Text.antt =====
-- Texts that the code walks byte by byte: lists of numbers, written as literals of ASCII characters.
use Prim.Native.Nat.{ℕ}
use mathlib.Core.Path.{◌≡◌, refl}
use native.Mathlib.Omega.{arith}
use Prim.Native.Char.{code}
use Prim.Native.String.{String}
use mathlib.Core.Bool.{Bool, true, false, ◌&&◌}
use mathlib.Core.List.{List, [], ◌∷◌}
use dynamic_labyrinth.Base.Tests.{◌==◌, if◌then◌else◌, and_true}

abbrev pub codes : String → List ℕ
codes String.[] = []
codes (String.◌∷◌ c s) = code c ∷ codes s

abbrev pub same_text : List ℕ → List ℕ → Bool
same_text [] [] = true
same_text (a ∷ as') (b ∷ bs) = a == b && same_text as' bs
same_text _ _ = false

-- strings.Split at one byte; the first part is never missing.
abbrev pub onto_first : ℕ → List (List ℕ) → List (List ℕ)
onto_first c [] = (c ∷ []) ∷ []
onto_first c (part ∷ parts) = (c ∷ part) ∷ parts

unfoldable pub split_at : ℕ → List ℕ → List (List ℕ)
split_at sep [] = [] ∷ []
split_at sep (c ∷ line) =
    let parts = split_at sep line in if c == sep then [] ∷ parts else onto_first c parts

pub same_text_refl : (p : List ℕ) → same_text p p ≡ true
same_text_refl [] = refl
same_text_refl (c ∷ p) = let same : c == c ≡ true = ground arith in rw (same, same_text_refl p) refl

pub same_text-eq : (a b : List ℕ) → same_text a b ≡ true → a ≡ b
same_text-eq [] [] q = refl
same_text-eq [] (y ∷ b) q = absurd (cc q)
same_text-eq (x ∷ a) [] q = absurd (cc q)
same_text-eq (x ∷ a) (y ∷ b) q =
    let (e, rest) = and_true (x == y) (same_text a b) q in
    let same : x ≡ y = ground arith in rw (same, same_text-eq a b rest) refl
