-- ===== src/Services/Ipp/Values.antt =====
-- honeytrap/services/ipp/values.go and group.go: attributes and groups of attributes. Loops run on fuel;
-- `err stuck` is a loop that has used it up.
pub mod Inverse
pub mod Endless
use dynamic_labyrinth.Base.{
  ℕ, zero, suc, Bool, true, false, List, [], ◌∷◌, ◌++◌, ltb, ◌==◌, if◌then◌else◌,
}
use dynamic_labyrinth.Base.Int.{ℤ, pos, negsuc}
use dynamic_labyrinth.Services.Decoder.{
  Decode, Read, byte, read_int16, read_int32, read_data, write_uint8, write_uint16, write_uint32,
  write_data, OutOfBounds,
}
use dynamic_labyrinth.Services.Decoder.Monad.{◌>>=◌, ◌>>◌, return, out_of_fuel, nil_call, seek_by}
use dynamic_labyrinth.Base.{Option, none, some}

-- `ValueType`: valInt, valStr, valBool and valRangeInt, each with its tag and name.
pub data Value : Type 0 where
  val_int : ℕ → List ℕ → List ℤ → Value
  val_str : ℕ → List ℕ → List (List ℕ) → Value
  val_bool : ℕ → List ℕ → List Bool → Value
  val_range_int : ℕ → List ℕ → ℤ → ℤ → Value

abbrev pub tag_of : Value → ℕ
tag_of (val_int tag name v) = tag
tag_of (val_str tag name v) = tag
tag_of (val_bool tag name v) = tag
tag_of (val_range_int tag name low high) = tag

-- The loops of `encode`: after the first value the name is empty.
unfoldable pub encode_ints : ℕ → List ℕ → Bool → List ℤ → List ℕ → List ℕ
encode_ints tag name z [] buf = buf
encode_ints tag name z (v ∷ vs) buf =
    encode_ints tag name true vs
      (write_uint32 v (write_uint16 (pos 4) (write_data name z (write_uint8 tag buf))))

unfoldable pub encode_strs : ℕ → List ℕ → Bool → List (List ℕ) → List ℕ → List ℕ
encode_strs tag name z [] buf = buf
encode_strs tag name z (v ∷ vs) buf =
    encode_strs tag name true vs (write_data v false (write_data name z (write_uint8 tag buf)))

abbrev pub bool_byte : Bool → ℕ
bool_byte true = 1
bool_byte false = 0

unfoldable pub encode_bools : ℕ → List ℕ → Bool → List Bool → List ℕ → List ℕ
encode_bools tag name z [] buf = buf
encode_bools tag name z (v ∷ vs) buf =
    encode_bools tag name true vs
      (write_uint8 (bool_byte v) (write_uint16 (pos 1) (write_data name z (write_uint8 tag buf))))

unfoldable pub encode_value : Value → List ℕ → List ℕ
encode_value (val_int tag name vs) buf = encode_ints tag name false vs buf
encode_value (val_str tag name vs) buf = encode_strs tag name false vs buf
encode_value (val_bool tag name vs) buf = encode_bools tag name false vs buf
encode_value (val_range_int tag name low high) buf =
    write_uint32 high
      (write_uint32 low (write_uint16 (pos 8) (write_data name false (write_uint8 tag buf))))

abbrev pub is_zero : ℤ → Bool
is_zero (pos zero) = true
is_zero _ = false

-- `valInt.decode`: at most two values.
unfoldable pub decode_int : ℕ → Read Value
decode_int tag = do
  name ← read_data
  _ ← read_int16
  v ← read_int32
  vtag ← byte
  if vtag == tag
      then (read_int16 >>= λ l.
          if is_zero l
          then (read_int16 >>= λ _. read_int32 >>= λ w. return (val_int tag name (v ∷ w ∷ [])))
          else (seek_by (negsuc 2) >> return (val_int tag name (v ∷ []))))
      else (seek_by (negsuc 0) >> return (val_int tag name (v ∷ [])))

-- The loop of `valStr.decode`, on the tag that was read last.
unfoldable pub more_strs : ℕ → ℕ → ℕ → List (List ℕ) → Read (List (List ℕ))
more_strs zero tag vtag vs = if vtag == tag then out_of_fuel else return vs
more_strs (suc fuel) tag vtag vs =
    if vtag == tag
    then (read_int16 >>= λ l.
        if is_zero l
        then (read_data >>= λ v. byte >>= λ next. more_strs fuel tag next (vs ++ (v ∷ [])))
        else (seek_by (negsuc 1) >> return vs))
    else return vs

unfoldable pub decode_str : ℕ → ℕ → Read Value
decode_str fuel tag = do
  name ← read_data
  v ← read_data
  vtag ← byte
  vs ← more_strs fuel tag vtag (v ∷ [])
  seek_by (negsuc 0)
  return (val_str tag name vs)

-- The loop of `valBool.decode` goes on while the tag is another.
unfoldable pub more_bools : ℕ → ℕ → ℕ → List Bool → Read (List Bool)
more_bools zero tag vtag vs = if vtag == tag then return vs else out_of_fuel
more_bools (suc fuel) tag vtag vs =
    if vtag == tag
    then return vs
    else (read_int16 >>= λ l.
        if is_zero l
        then (byte >>= λ b. byte >>= λ next. more_bools fuel tag next (vs ++ ((b == 1) ∷ [])))
        else (seek_by (negsuc 1) >> return vs))

-- It reads one byte of the two of the length.
unfoldable pub decode_bool : ℕ → ℕ → Read Value
decode_bool fuel tag = do
  name ← read_data
  _ ← byte
  b ← byte
  vtag ← byte
  vs ← more_bools fuel tag vtag ((b == 1) ∷ [])
  seek_by (negsuc 0)
  return (val_bool tag name vs)

unfoldable pub decode_range_int : ℕ → Read Value
decode_range_int tag = do
  name ← read_data
  _ ← read_int16
  low ← read_int32
  high ← read_int32
  return (val_range_int tag name low high)

-- The value tags that `attribGroup.decode` knows.
pub data Kind : Type 0 where
  int_kind str_kind bool_kind no_kind : Kind

abbrev pub kind_of : ℕ → Kind
kind_of tag =
    if tag == 33
    then int_kind
    else (if tag == 34
        then bool_kind
        else (if tag == 68
            then str_kind
            else (if tag == 71
                then str_kind
                else (if tag == 69
                    then str_kind
                    else (if tag == 51
                        then int_kind
                        else (if tag == 72
                            then str_kind
                            else (if tag == 73
                                then str_kind
                                else (if tag == 65
                                    then str_kind
                                    else (if tag == 35
                                        then int_kind
                                        else (if tag == 66 then str_kind else no_kind))))))))))

-- The switch of `attribGroup.decode`: for another tag the value stays nil, and its method panics.
abbrev pub decode_kind : ℕ → Kind → ℕ → Read Value
decode_kind fuel int_kind tag = decode_int tag
decode_kind fuel str_kind tag = decode_str fuel tag
decode_kind fuel bool_kind tag = decode_bool fuel tag
decode_kind fuel no_kind tag = nil_call

-- `attribGroup`
pub record Group : Type 0 where
  pub tag : ℕ
  pub vals : List Value

abbrev pub last_error : Read (Option OutOfBounds)
last_error d = return d.lasterror d

-- The loop of `attribGroup.decode`: the values, or the error that ends it.
unfoldable pub decode_values : ℕ → ℕ → List Value → Read (List Value × Option OutOfBounds)
decode_values zero vtag vals =
    if ltb 5 vtag then out_of_fuel else (seek_by (negsuc 0) >> return (vals, none))
decode_values (suc fuel) vtag vals =
    if ltb 5 vtag
    then (last_error >>= λ e. elim e [
      | some x ↦ return (vals, some x)
      | none ↦ decode_kind fuel (kind_of vtag) vtag >>= λ v.
          byte >>= λ next. decode_values fuel next (vals ++ (v ∷ []))
    ])
    else (seek_by (negsuc 0) >> return (vals, none))

unfoldable pub decode_group : ℕ → ℕ → Read (Group × Option OutOfBounds)
decode_group fuel tag = do
  vtag ← byte
  r ← decode_values fuel vtag []
  return (record { tag = tag; vals = r.0 }, r.1)

unfoldable pub encode_values : List Value → List ℕ → List ℕ
encode_values [] buf = buf
encode_values (v ∷ vs) buf = encode_values vs (encode_value v buf)

unfoldable pub encode_group : Group → List ℕ → List ℕ
encode_group g buf = encode_values g.vals (write_uint8 g.tag buf)
