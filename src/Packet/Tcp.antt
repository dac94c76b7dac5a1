-- ===== src/Packet/Tcp.antt =====
-- honeytrap/listener/canary/tcp/tcp.go: the TCP header, its options, its parser and its writer.
-- `Unmarshal` fills the header and returns an error beside it, so a call comes to a header and an
-- optional error, or to a panic. `err stuck` is no outcome of Go: the option loop ran out of fuel.
pub mod Options
pub mod Bounds
use Prim.Native.Nat.{bit_and, bit_or}
use dynamic_labyrinth.Base.{
  ℕ, zero, suc, ◌+◌, ◌-◌, ◌*◌, ◌/◌, ◌%◌, Bool, Option, none, some, List, [], ◌∷◌, ◌++◌, length,
  replicate, ltb, ◌==◌, if◌then◌else◌, Outcome, ok, err, ◌>>=◌,
}
use dynamic_labyrinth.Base.Bytes.{
  slice, slice_from, slice_to, index, be_u16, be_u32, put_u16, put_u32, put_at,
}

-- The flag bits of `Flag`.
abbrev pub fin : ℕ
fin = 1

abbrev pub syn : ℕ
syn = 2

abbrev pub rst : ℕ
rst = 4

abbrev pub psh : ℕ
psh = 8

abbrev pub ack : ℕ
ack = 16

-- `Option` of the package.
pub record TcpOption : Type 0 where
  pub kind : ℕ
  pub len : ℕ
  pub content : List ℕ

pub record Header : Type 0 where
  pub source : ℕ
  pub destination : ℕ
  pub seq_num : ℕ
  pub ack_num : ℕ
  pub data_offset : ℕ
  pub reserved : ℕ
  pub ecn : ℕ
  pub ctrl : ℕ
  pub window : ℕ
  pub checksum : ℕ
  pub urgent : ℕ
  pub options : List TcpOption
  pub padding : List ℕ
  pub payload : List ℕ

-- Header{}
abbrev pub blank : Header
blank = record {
  source = 0;
  destination = 0;
  seq_num = 0;
  ack_num = 0;
  data_offset = 0;
  reserved = 0;
  ecn = 0;
  ctrl = 0;
  window = 0;
  checksum = 0;
  urgent = 0;
  options = [];
  padding = [];
  payload = [];
}

pub data Error : Type 0 where
  invalid_data_offset : ℕ → Error
  offset_beyond_packet : Error
  invalid_option_length : ℕ → Error
  option_exceeds : ℕ → ℕ → Error
  invalid_checksum : Error

pub data Stuck : Type 0 where
  stuck : Stuck

abbrev pub Filled : Type 0
Filled = Outcome Stuck (Header × Option Error)

-- hdr.Options = append(hdr.Options, o)
abbrev pub add_option : Header → TcpOption → Header
add_option h o = record h { options = h.options ++ (o ∷ []) }

-- The default case of the loop, on an option with a length byte: the option as far as it is filled,
-- the error, and the bytes after it.
unfoldable pub read_option : ℕ → List ℕ → Outcome Stuck (TcpOption × Option Error × List ℕ)
read_option kind rest = index rest 0 >>= λ len.
    let o : TcpOption = record { kind = kind; len = len; content = [] } in
    let size = length (kind ∷ rest) in
    if ltb len 2
    then ok (o, some (invalid_option_length len), [])
    else (if ltb size len
        then ok (o, some (option_exceeds len size), [])
        else (slice (kind ∷ rest) 2 len >>= λ content. slice_from (kind ∷ rest) len >>= λ more.
            ok (record o { content = content }, none, more)))

-- The options without a length byte.
abbrev pub bare_option : ℕ → TcpOption
bare_option kind = record { kind = kind; len = 1; content = [] }

-- The loop over the option bytes. Each round takes a byte at least.
unfoldable pub read_options : ℕ → Header → List ℕ → Filled
read_options fuel h [] = ok (h, none)
read_options zero h (kind ∷ rest) = err stuck
read_options (suc fuel) h (kind ∷ rest) =
    let after_nop = read_options fuel (add_option h (bare_option kind)) rest in
    let default = read_option kind rest >>= λ (o, error, more). elim error [
      | some e ↦ ok (add_option h o, some e)
      | none ↦ read_options fuel (add_option h o) more
    ] in
    if kind == 0
    then ok (record (add_option h (bare_option kind)) { padding = rest }, none)
    else (if kind == 1 then after_nop else default)

-- The fixed fields.
unfoldable pub read_fixed : Header → List ℕ → Outcome Stuck Header
read_fixed h bytes = do
  source ← slice bytes 0 2 >>= be_u16
  destination ← slice bytes 2 4 >>= be_u16
  seq_num ← slice bytes 4 8 >>= be_u32
  ack_num ← slice bytes 8 12 >>= be_u32
  offset ← index bytes 12
  bits ← index bytes 13
  window ← slice bytes 14 16 >>= be_u16
  checksum ← slice bytes 16 18 >>= be_u16
  urgent ← slice bytes 18 20 >>= be_u16
  ok (record h {
    source = source;
    destination = destination;
    seq_num = seq_num;
    ack_num = ack_num;
    data_offset = offset / 16;
    ecn = bits / 64 % 8;
    ctrl = bits % 64;
    window = window;
    checksum = checksum;
    urgent = urgent;
    options = [];
  })

-- What follows the fixed fields: the checks on the data offset, the payload and the options.
unfoldable pub read_rest : Header → List ℕ → Filled
read_rest h bytes =
    let data_start = h.data_offset * 4 in
    if ltb h.data_offset 5
    then ok (h, some (invalid_data_offset h.data_offset))
    else (if ltb (length bytes) data_start
        then ok (record h { payload = [] }, some offset_beyond_packet)
        else (slice_from bytes data_start >>= λ payload. slice bytes 20 data_start >>= λ options.
            read_options (length options) (record h { payload = payload }) options))

unfoldable pub unmarshal : Header → List ℕ → Filled
unmarshal h bytes = read_fixed h bytes >>= λ h'. read_rest h' bytes

unfoldable pub has_flag : Header → ℕ → Bool
has_flag h flag = bit_and h.ctrl flag == flag

-- The bytes that an option takes in `Marshal`.
unfoldable pub option_size : TcpOption → ℕ
option_size o = if ltb o.kind 2 then 1 else 2 + length o.content

unfoldable pub option_length : List TcpOption → ℕ
unfolding option_size
option_length [] = 0
option_length (o ∷ os) = option_size o + option_length os

-- The loop that writes the options into the buffer behind the fixed part; `start` counts from
-- there. OptionLength is a uint8, and `start` advances by it.
unfoldable pub write_options : List ℕ → ℕ → List TcpOption → List ℕ × ℕ
write_options buf start [] = (buf, start)
write_options buf start (o ∷ os) =
    let len = (length o.content + 2) % 256 in
    let short = put_at buf start (o.kind ∷ []) in
    let long = put_at buf start (o.kind ∷ len ∷ o.content) in
    if ltb o.kind 2 then write_options short (start + 1) os else write_options long (start + len) os

-- `Marshal` returns the bytes, and leaves a new padding and data offset in the header.
unfoldable pub marshal : Header → List ℕ × Header
marshal h =
    let optlen = option_length h.options in
    let rem = optlen % 4 in
    let padding = if rem == 0 then h.padding else replicate (4 - rem) 0 in
    let offset = (length padding + optlen + 20) / 4 % 256 in
    let buf = replicate (optlen + length padding) 0 ++ h.payload in
    let (filled, start) = write_options buf 0 h.options in
    let fixed =
      put_u16 h.source
      ++ (put_u16 h.destination
          ++ (put_u32 h.seq_num
              ++ (put_u32 h.ack_num
                  ++ ((offset * 16 % 256) ∷ bit_or (h.ecn * 64 % 256) h.ctrl ∷ []
                      ++ (put_u16 h.window ++ (0 ∷ 0 ∷ [] ++ put_u16 h.urgent)))))) in
    (fixed ++ put_at filled start padding, record h { padding = padding; data_offset = offset })
