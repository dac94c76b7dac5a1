-- ===== src/Base/Bytes/Slices.antt =====
-- Slice expressions in closed form: the guard that Go checks, and the bytes.
use dynamic_labyrinth.Base.Tests.{leb, if◌then◌else◌}
use dynamic_labyrinth.Base.Lists.{length, take, drop}
use dynamic_labyrinth.Base.Results.{ok, panic}
use dynamic_labyrinth.Base.Bytes.{slice_to, slice_from, copy_into}
use Prim.Native.Nat.{ℕ, zero, suc, ◌≤◌}
use mathlib.Core.Path.{◌≡◌, refl, ap}
use mathlib.Core.List.{List, [], ◌∷◌, ◌++◌}
use native.Mathlib.Omega.{arith}

module _ {ℓ} {E : Type ℓ} where
  pub slice_to-eq :
      (bs : List ℕ) (n : ℕ)
      → slice_to {E = E} bs n ≡ (if leb n (length bs) then ok (take n bs) else panic)
  slice_to-eq bs zero = ground arith
  slice_to-eq [] (suc n) = ground arith
  slice_to-eq (b ∷ bs) (suc n) = ground (arith, slice_to-eq bs n)

  pub slice_from-eq :
      (bs : List ℕ) (n : ℕ)
      → slice_from {E = E} bs n ≡ (if leb n (length bs) then ok (drop n bs) else panic)
  slice_from-eq bs zero = ground arith
  slice_from-eq [] (suc n) = ground arith
  slice_from-eq (b ∷ bs) (suc n) = ground (arith, slice_from-eq bs n)

pub copy_into-take : (n : ℕ) (bs : List ℕ) → n ≤ length bs → copy_into n (take n bs) ≡ take n bs
copy_into-take zero bs h = refl
copy_into-take (suc n) [] h = absurd (omega arith)
copy_into-take (suc n) (b ∷ bs) h = ap (λ s. b ∷ s) (copy_into-take n bs (omega arith))

pub copy_into-append : (src rest : List ℕ) → copy_into (length src) (src ++ rest) ≡ src
copy_into-append [] rest = refl
copy_into-append (b ∷ src) rest = ap (λ s. b ∷ s) (copy_into-append src rest)

pub take-length {ℓ} : {A : Type ℓ} (xs : List A) → take (length xs) xs ≡ xs
take-length [] = refl
take-length (x ∷ xs) = ap (λ s. x ∷ s) (take-length xs)
