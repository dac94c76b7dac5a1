-- ===== src/Base/Bytes.antt =====
-- Go slices of bytes as lists of numbers, and the big-endian words of encoding/binary.
-- A slice expression is checked against the length: the slices that the modelled functions receive
-- have no spare capacity.
pub mod Slices
use Prim.Native.Nat.{ℕ, zero, suc, ◌+◌, ◌-◌, ◌*◌, ◌/◌, ◌%◌, ◌≤◌, ◌<◌}
use mathlib.Core.Path.{◌≡◌, refl, ap}
use mathlib.Core.List.{List, [], ◌∷◌, ◌++◌}
use native.Mathlib.Omega.{arith}
use dynamic_labyrinth.Base.Tests.{leb, if◌then◌else◌}
use dynamic_labyrinth.Base.Lists.{length, All}
use dynamic_labyrinth.Base.Results.{Outcome, ok, panic, ◌>>=◌}

abbrev pub IsByte : ℕ → Type 0
IsByte b = b < 256

abbrev pub IsU16 : ℕ → Type 0
IsU16 v = v < 65536

abbrev pub IsU32 : ℕ → Type 0
IsU32 v = v < 4294967296

module _ {ℓ} {E : Type ℓ} where
  -- data[i]
  abbrev pub index : List ℕ → ℕ → Outcome E ℕ
  index [] i = panic
  index (b ∷ bs) zero = ok b
  index (b ∷ bs) (suc i) = index bs i

  -- data[i:]
  abbrev pub slice_from : List ℕ → ℕ → Outcome E (List ℕ)
  slice_from bs zero = ok bs
  slice_from [] (suc i) = panic
  slice_from (b ∷ bs) (suc i) = slice_from bs i

  -- data[:n]
  abbrev pub slice_to : List ℕ → ℕ → Outcome E (List ℕ)
  slice_to bs zero = ok []
  slice_to [] (suc n) = panic
  slice_to (b ∷ bs) (suc n) = slice_to bs n >>= λ front. ok (b ∷ front)

  -- data[i:j]
  abbrev pub slice : List ℕ → ℕ → ℕ → Outcome E (List ℕ)
  slice bs i j = if leb i j then (slice_from bs i >>= λ rest. slice_to rest (j - i)) else panic

  -- binary.BigEndian.Uint16 and Uint32
  abbrev pub be_u16 : List ℕ → Outcome E ℕ
  be_u16 (a ∷ b ∷ _) = ok (a * 256 + b)
  be_u16 _ = panic

  abbrev pub be_u32 : List ℕ → Outcome E ℕ
  be_u32 (a ∷ b ∷ c ∷ d ∷ _) = ok (a * 16777216 + b * 65536 + c * 256 + d)
  be_u32 _ = panic

-- binary.BigEndian.PutUint16 and PutUint32
abbrev pub put_u16 : ℕ → List ℕ
put_u16 v = (v / 256 % 256) ∷ (v % 256) ∷ []

abbrev pub put_u32 : ℕ → List ℕ
put_u32 v = (v / 16777216 % 256) ∷ (v / 65536 % 256) ∷ (v / 256 % 256) ∷ (v % 256) ∷ []

-- copy(buf[i:i+n], src) into a zeroed buffer: at most n bytes of src, then zeros.
abbrev pub copy_into : ℕ → List ℕ → List ℕ
copy_into zero src = []
copy_into (suc n) [] = 0 ∷ copy_into n []
copy_into (suc n) (b ∷ src) = b ∷ copy_into n src

pub copy_into-length : (src : List ℕ) → copy_into (length src) src ≡ src
copy_into-length [] = refl
copy_into-length (b ∷ src) = ap (λ s. b ∷ s) (copy_into-length src)

-- copy(buf, src): what fits of src over the front of buf.
abbrev pub overlay : List ℕ → List ℕ → List ℕ
overlay [] buf = buf
overlay (b ∷ src) [] = []
overlay (b ∷ src) (x ∷ buf) = b ∷ overlay src buf

-- copy(buf[start:], src)
abbrev pub put_at : List ℕ → ℕ → List ℕ → List ℕ
put_at buf zero src = overlay src buf
put_at [] (suc n) src = []
put_at (x ∷ buf) (suc n) src = x ∷ put_at buf n src
