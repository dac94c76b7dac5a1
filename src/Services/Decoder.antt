-- ===== src/Services/Decoder.antt =====
-- honeytrap/services/decoder: a reader that walks a byte slice and keeps the last error, and the writer.
-- `offset` is never negative, since nothing moves it below 0.
pub mod Walk
pub mod Bounds
pub mod Inverse
pub mod Monad
use dynamic_labyrinth.Base.{
  ℕ, ◌+◌, ◌-◌, ◌%◌, Bool, Option, none, some, List, [], ◌∷◌, ◌++◌, length, take, drop, leb,
  if◌then◌else◌, Outcome, ok, panic, ◌>>=◌,
}
use dynamic_labyrinth.Base.Bytes.{slice, index, be_u16, be_u32, put_u16, put_u32}
use dynamic_labyrinth.Base.Int.{ℤ, pos, negsuc, int16, int32, uint16, uint32, move}

-- `ErrOutOfBounds`, whose Min is always 0.
pub record OutOfBounds : Type 0 where
  pub max : ℕ
  pub got : ℤ

pub record Decode : Type 0 where
  pub offset : ℕ
  pub bytes : List ℕ
  pub lasterror : Option OutOfBounds

-- A loop that has used up its fuel; no outcome of Go.
pub data Stuck : Type 0 where
  stuck : Stuck

-- A method: it returns a value and changes the reader, or it panics.
abbrev pub Read {ℓ} : Type ℓ → Type ℓ
Read A = Decode → Outcome Stuck (A × Decode)

abbrev pub new_decoder : List ℕ → Decode
new_decoder bytes = record { offset = 0; bytes = bytes; lasterror = none }

abbrev pub available : Decode → ℕ
available d = length d.bytes - d.offset

-- `HasBytes`: the error, or nil.
abbrev pub check_place : Decode → ℤ → Option OutOfBounds
check_place d (pos n) =
    if leb n (length d.bytes) then none else some (record { max = length d.bytes; got = pos n })
check_place d (negsuc n) = some (record { max = length d.bytes; got = negsuc n })

unfoldable pub has_bytes : Decode → ℤ → Option OutOfBounds
has_bytes d size = check_place d (move d.offset size)

abbrev pub fail {ℓ} : {A : Type ℓ} → Decode → OutOfBounds → A → Outcome Stuck (A × Decode)
fail d e a = ok (a, record d { lasterror = some e })

-- `Byte`, `Int16`, `Uint32` and `Int32`: 0 and an error where there are too few bytes.
unfoldable pub byte : Read ℕ
byte d = elim (has_bytes d (pos 1)) [
  | some e ↦ fail d e 0
  | none ↦ index d.bytes d.offset >>= λ b. ok (b, record d { offset = d.offset + 1 })
]

unfoldable pub read_int16 : Read ℤ
read_int16 d = elim (has_bytes d (pos 2)) [
  | some e ↦ fail d e (pos 0)
  | none ↦ slice d.bytes d.offset (d.offset + 2) >>= be_u16 >>= λ v.
      ok (int16 v, record d { offset = d.offset + 2 })
]

unfoldable pub read_uint32 : Read ℕ
read_uint32 d = elim (has_bytes d (pos 4)) [
  | some e ↦ fail d e 0
  | none ↦ slice d.bytes d.offset (d.offset + 4) >>= be_u32 >>= λ v.
      ok (v, record d { offset = d.offset + 4 })
]

unfoldable pub read_int32 : Read ℤ
read_int32 d = elim (has_bytes d (pos 4)) [
  | some e ↦ fail d e (pos 0)
  | none ↦ slice d.bytes d.offset (d.offset + 4) >>= be_u32 >>= λ v.
      ok (int32 v, record d { offset = d.offset + 4 })
]

unfoldable pub peek_byte : Read ℕ
peek_byte d = elim (has_bytes d (pos 1)) [
  | some e ↦ fail d e 0
  | none ↦ index d.bytes d.offset >>= λ b. ok (b, d)
]

unfoldable pub peek_int16 : Read ℤ
peek_int16 d = elim (has_bytes d (pos 2)) [
  | some e ↦ fail d e (pos 0)
  | none ↦ slice d.bytes d.offset (d.offset + 2) >>= be_u16 >>= λ v. ok (int16 v, d)
]

-- `Copy`: nil where there are too few bytes; `make` panics on a negative size.
unfoldable pub copy : ℤ → Read (List ℕ)
copy size d = elim (has_bytes d size) [
  | some e ↦ fail d e []
  | none ↦ elim size [
    | negsuc n ↦ panic
    | pos n ↦
        slice d.bytes d.offset (d.offset + n) >>= λ c. ok (c, record d { offset = d.offset + n })
  ]
]

-- `Data`: a length and as many bytes.
unfoldable pub read_data : Read (List ℕ)
read_data d = read_int16 d >>= λ (l, d'). copy l d'

-- `Seek`, from where the reader stands.
abbrev pub moved : Decode → ℤ → Decode
moved d (pos n) = record d { offset = n }
moved d (negsuc n) = d

unfoldable pub seek : ℤ → Decode → Decode
seek by d = elim (has_bytes d by) [
  | some e ↦ record d { lasterror = some e }
  | none ↦ moved d (move d.offset by)
]

-- The writer: what each method appends.
unfoldable pub write_uint8 : ℕ → List ℕ → List ℕ
write_uint8 b buf = buf ++ (b ∷ [])

unfoldable pub write_uint16 : ℤ → List ℕ → List ℕ
write_uint16 v buf = buf ++ put_u16 (uint16 v)

unfoldable pub write_uint32 : ℤ → List ℕ → List ℕ
write_uint32 v buf = buf ++ put_u32 (uint32 v)

-- `WriteData`: the length is cut to an int16.
unfoldable pub write_data : List ℕ → Bool → List ℕ → List ℕ
write_data v zero buf =
    if zero then write_uint16 (pos 0) buf else (write_uint16 (int16 (length v % 65536)) buf ++ v)
