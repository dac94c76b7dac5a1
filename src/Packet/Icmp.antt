-- ===== src/Packet/Icmp.antt =====
-- honeytrap/listener/canary/icmp/icmp.go: the ICMP header. `type_of` and `code_of` are the methods
-- Type and Code of ICMPv4TypeCode.
pub mod Parse
use dynamic_labyrinth.Base.{
  ℕ, ◌*◌, ◌+◌, ◌/◌, ◌%◌, List, [], ◌∷◌, length, ltb, if◌then◌else◌, Outcome, ok, err, ◌>>=◌,
}
use dynamic_labyrinth.Base.Bytes.{slice, index, be_u16, put_u16}

pub record Icmpv4 : Type 0 where
  pub type_code : ℕ
  pub checksum : ℕ
  pub id : ℕ
  pub seq : ℕ

unfoldable pub type_of : ℕ → ℕ
type_of a = a / 256 % 256

unfoldable pub code_of : ℕ → ℕ
code_of a = a % 256

-- SerializeTo, on a buffer of two bytes.
unfoldable pub serialize_to : ℕ → List ℕ
serialize_to a = put_u16 a

-- ICMPv4TypeCode(binary.BigEndian.Uint16([]byte{typ, code}))
unfoldable pub create_type_code : ℕ → ℕ → ℕ
create_type_code typ code = typ * 256 + code

-- The error carries the size of the input.
unfoldable pub parse : List ℕ → Outcome ℕ Icmpv4
unfolding create_type_code
parse bytes = if ltb (length bytes) 8 then err (length bytes) else do
  typ ← index bytes 0
  code ← index bytes 1
  checksum ← slice bytes 2 4 >>= be_u16
  id ← slice bytes 4 6 >>= be_u16
  seq ← slice bytes 6 8 >>= be_u16
  let i : Icmpv4 = record {
    type_code = create_type_code typ code;
    checksum = checksum;
    id = id;
    seq = seq;
  }
  ok i
