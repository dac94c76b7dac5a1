-- ===== src/Services/Decoder/Inverse.antt =====
-- The reader of honeytrap/services/decoder reads back what the writer writes.
use dynamic_labyrinth.Base.{
  ℕ, ◌+◌, ◌*◌, ◌/◌, ◌%◌, ◌<◌, ◌≡◌, false, Option, List, [], ◌∷◌, ◌++◌, length, arith, ok, refl, sym,
  ap, ◌∙◌, length-append, append_assoc,
}
use dynamic_labyrinth.Base.Bytes.{put_u16}
use dynamic_labyrinth.Base.Int.{pos, int16, uint16}
use dynamic_labyrinth.Services.Decoder.{OutOfBounds, read_data, write_data, write_uint16}
use dynamic_labyrinth.Services.Decoder.Walk.{at, read_int16-at, copy-at, at-append}

-- A text on the wire.
abbrev pub text_bytes : List ℕ → List ℕ
text_bytes v = put_u16 (length v) ++ v

pub write_data-eq :
    (v buf : List ℕ) → length v < 32768 → write_data v false buf ≡ buf ++ text_bytes v
unfolding write_data write_uint16
write_data-eq v buf h =
    let same : uint16 (int16 (length v % 65536)) ≡ length v = ground arith in
    rw same (append_assoc buf (put_u16 (length v)) v)

pub read_data-at :
    (front v rest : List ℕ) (e : Option OutOfBounds)
    → length v < 32768
    → read_data (at front (text_bytes v ++ rest) e) ≡ ok (v, at (front ++ text_bytes v) rest e)
unfolding read_data
read_data-at front v rest e h =
    let hi = length v / 256 % 256 in
    let lo = length v % 256 in
    let same : int16 (hi * 256 + lo) ≡ pos (length v) = ground arith in
    let shift : ((front ++ (hi ∷ lo ∷ [])) ++ v) ≡ front ++ text_bytes v =
      append_assoc front (hi ∷ lo ∷ []) v in
    rw
      (
        read_data,
        read_int16-at front (v ++ rest) hi lo e,
        same,
        copy-at (front ++ (hi ∷ lo ∷ [])) v rest e,
        shift,
      )
      refl

-- A text of fewer than 32768 bytes that `WriteData` appends to a buffer is what `Data` reads there,
-- with anything behind it; the reader then stands behind it.
pub read_data-write_data :
    (buf v rest : List ℕ) (e : Option OutOfBounds)
    → length v < 32768
    → let written = write_data v false buf in
      read_data (record { offset = length buf; bytes = written ++ rest; lasterror = e })
      ≡ ok (v, record { offset = length written; bytes = written ++ rest; lasterror = e })
read_data-write_data buf v rest e h =
    rw
      (
        write_data-eq v buf h,
        append_assoc buf (text_bytes v) rest,
        length-append buf (text_bytes v),
      )
      (read_data-at buf v rest e h
        ∙ ap (λ d. ok (v, d)) (sym (at-append buf (text_bytes v) rest e)))
