-- ===== src/Services/Decoder/Walk.antt =====
-- Where the reader of honeytrap/services/decoder can stand, and what it reads of bytes that are there.
use dynamic_labyrinth.Base.{
  ℕ, suc, ◌+◌, ◌-◌, ◌*◌, ◌≤◌, ◌≡◌, none, List, [], ◌∷◌, ◌++◌, length, arith, ok, refl,
  length-append, append_assoc, drop-append, take-append, Option,
}
use dynamic_labyrinth.Base.Bytes.{index, slice}
use dynamic_labyrinth.Base.Bytes.Slices.{slice_to-eq, slice_from-eq}
use dynamic_labyrinth.Base.Int.{pos, negsuc, int16, int32}
use dynamic_labyrinth.Services.Decoder.{
  OutOfBounds, Decode, Stuck, has_bytes, byte, read_int16, read_int32, copy, seek,
}

-- The offset is in the data.
abbrev pub IsInside : Decode → Type 0
IsInside d = d.offset ≤ length d.bytes

-- The reader before `rest`, `front` being read.
abbrev pub at : List ℕ → List ℕ → Option OutOfBounds → Decode
at front rest e = record { offset = length front; bytes = front ++ rest; lasterror = e }

slice-append :
    (front xs rest : List ℕ) (n : ℕ)
    → n ≡ length front + length xs
    → slice {E = Stuck} (front ++ (xs ++ rest)) (length front) n ≡ ok xs
slice-append front xs rest n e = ground (
  arith,
  slice_from-eq {E = Stuck} (front ++ (xs ++ rest)) (length front),
  slice_to-eq {E = Stuck} (xs ++ rest) (n - length front),
  drop-append front (xs ++ rest),
  take-append xs rest,
  length-append front (xs ++ rest),
  length-append xs rest,
)

index-append :
    (front rest : List ℕ) (b : ℕ) → index {E = Stuck} (front ++ (b ∷ rest)) (length front) ≡ ok b
index-append [] rest b = refl
index-append (x ∷ front) rest b = index-append front rest b

-- The reader behind `xs`.
pub at-append :
    (front xs rest : List ℕ) (e : Option OutOfBounds)
    → record (at front (xs ++ rest) e) { offset = length front + length xs }
      ≡ at (front ++ xs) rest e
at-append front xs rest e = rw (append_assoc front xs rest, length-append front xs) refl

has_bytes-at :
    (front xs rest : List ℕ) (n : ℕ) (e : Option OutOfBounds)
    → n ≡ length xs
    → has_bytes (at front (xs ++ rest) e) (pos n) ≡ none
unfolding has_bytes
has_bytes-at front xs rest n e h =
    ground (arith, length-append front (xs ++ rest), length-append xs rest)

pub byte-at :
    (front rest : List ℕ) (b : ℕ) (e : Option OutOfBounds)
    → byte (at front (b ∷ rest) e) ≡ ok (b, at (front ++ (b ∷ [])) rest e)
unfolding byte
byte-at front rest b e =
    rw
      (
        byte,
        has_bytes-at front (b ∷ []) rest 1 e refl,
        index-append front rest b,
        at-append front (b ∷ []) rest e,
      )
      refl

pub read_int16-at :
    (front rest : List ℕ) (a b : ℕ) (e : Option OutOfBounds)
    → read_int16 (at front (a ∷ b ∷ rest) e)
      ≡ ok (int16 (a * 256 + b), at (front ++ (a ∷ b ∷ [])) rest e)
unfolding read_int16
read_int16-at front rest a b e =
    rw
      (
        read_int16,
        has_bytes-at front (a ∷ b ∷ []) rest 2 e refl,
        slice-append front (a ∷ b ∷ []) rest (length front + 2) refl,
        at-append front (a ∷ b ∷ []) rest e,
      )
      refl

pub read_int32-at :
    (front rest : List ℕ) (a b c d : ℕ) (e : Option OutOfBounds)
    → read_int32 (at front (a ∷ b ∷ c ∷ d ∷ rest) e)
      ≡ ok (
        int32 (a * 16777216 + b * 65536 + c * 256 + d),
        at (front ++ (a ∷ b ∷ c ∷ d ∷ [])) rest e,
      )
unfolding read_int32
read_int32-at front rest a b c d e =
    rw
      (
        read_int32,
        has_bytes-at front (a ∷ b ∷ c ∷ d ∷ []) rest 4 e refl,
        slice-append front (a ∷ b ∷ c ∷ d ∷ []) rest (length front + 4) refl,
        at-append front (a ∷ b ∷ c ∷ d ∷ []) rest e,
      )
      refl

pub copy-at :
    (front xs rest : List ℕ) (e : Option OutOfBounds)
    → copy (pos (length xs)) (at front (xs ++ rest) e) ≡ ok (xs, at (front ++ xs) rest e)
unfolding copy
copy-at front xs rest e =
    rw
      (
        copy,
        has_bytes-at front xs rest (length xs) e refl,
        slice-append front xs rest (length front + length xs) refl,
        at-append front xs rest e,
      )
      refl

-- Back over what was read last.
pub seek-at :
    (front xs rest : List ℕ) (n : ℕ) (e : Option OutOfBounds)
    → length xs ≡ suc n
    → seek (negsuc n) (at (front ++ xs) rest e) ≡ at front (xs ++ rest) e
unfolding seek has_bytes
seek-at front xs rest n e h = ground (
  arith,
  length-append front xs,
  append_assoc front xs rest,
  length-append front (xs ++ rest),
  length-append xs rest,
)
