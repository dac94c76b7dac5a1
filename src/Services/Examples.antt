-- ===== src/Services/Examples.antt =====
-- Concrete inputs for the theorems on honeytrap/services.
use dynamic_labyrinth.Base.{ℕ, ◌≡◌, ok, err, none, List, [], ◌∷◌, ◌⊎◌, arith}
use dynamic_labyrinth.Base.Int.{ℤ, pos, negsuc}
use dynamic_labyrinth.Services.Decoder.{
  Decode, new_decoder, copy, write_data, write_uint8, write_uint16, byte, read_int16, read_int32,
  read_uint32, peek_byte, peek_int16, read_data, seek, stuck,
}
use dynamic_labyrinth.Services.Decoder.Walk.{IsInside}
use dynamic_labyrinth.Services.Ipp.Values.{Value, val_str, decode_str, encode_value, encode_strs}
use dynamic_labyrinth.Services.Ipp.Message.{decode_message}
use dynamic_labyrinth.Services.Decoder.Bounds.{Returns, methods-Returns}
use dynamic_labyrinth.Services.Ipp.Values.Inverse.{decode_str-encode_value}
use dynamic_labyrinth.Services.Ipp.Message.Endless.{decode_message-stuck}

abbrev three : Decode
three = record { offset = 1; bytes = 7 ∷ 8 ∷ 9 ∷ []; lasterror = none }

abbrev two : Decode
two = record { offset = 2; bytes = 7 ∷ 8 ∷ 9 ∷ []; lasterror = none }

abbrev used_up : Decode
used_up = record { offset = 3; bytes = 7 ∷ 8 ∷ 9 ∷ []; lasterror = none }

methods-Returns_example :
    Returns byte three
    × Returns read_int16 three
    × Returns read_int32 three
    × Returns read_uint32 three
    × Returns peek_byte three
    × Returns peek_int16 three
    × ((n : ℕ) → Returns (copy (pos n)) three)
    × (Returns read_data three
        ⊎ ((n : ℕ) × (after : Decode) × (read_int16 three ≡ ok (negsuc n, after))))
    × ((by : ℤ) → IsInside (seek by three) × ((seek by three).bytes ≡ 7 ∷ 8 ∷ 9 ∷ []))
methods-Returns_example = methods-Returns three (omega arith)

-- Two keywords behind the two first bytes, and the end tag.
abbrev keywords : Value
keywords = val_str 68 (97 ∷ []) ((98 ∷ []) ∷ (99 ∷ 100 ∷ []) ∷ [])

abbrev keywords_bytes : List ℕ
keywords_bytes = 1 ∷ 2 ∷ 68 ∷ 0 ∷ 1 ∷ 97 ∷ 0 ∷ 1 ∷ 98 ∷ 68 ∷ 0 ∷ 0 ∷ 0 ∷ 2 ∷ 99 ∷ 100 ∷ 3 ∷ []

decode_str-encode_value_example :
    decode_str 1 68 (record { offset = 3; bytes = keywords_bytes; lasterror = none })
    ≡ ok (keywords, record { offset = 16; bytes = keywords_bytes; lasterror = none })
unfolding encode_value encode_strs write_data write_uint16 write_uint8
decode_str-encode_value_example =
    decode_str-encode_value 1 68 3 (97 ∷ []) (98 ∷ []) ((99 ∷ 100 ∷ []) ∷ []) (1 ∷ 2 ∷ []) [] none
      (λ q. omega arith) (omega arith) (omega arith, (omega arith, (omega arith, tt)))

-- A print job whose only group has no end tag.
decode_message-stuck_example :
    decode_message 100 (new_decoder (1 ∷ 1 ∷ 0 ∷ 2 ∷ 0 ∷ 0 ∷ 0 ∷ 1 ∷ 1 ∷ [])) ≡ err stuck
decode_message-stuck_example =
    decode_message-stuck 100 1 1 0 2 0 0 0 1 (1 ∷ []) (omega arith)
      ((omega arith, λ q. omega arith), tt)
