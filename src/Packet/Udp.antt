-- ===== src/Packet/Udp.antt =====
-- honeytrap/listener/canary/udp/udp.go: the UDP header, its parser and its writer.
pub mod Inverse
use dynamic_labyrinth.Base.{
  ℕ, ◌+◌, ◌≡◌, List, ◌++◌, length, ltb, ◌==◌, if◌then◌else◌, Outcome, ok, err, ◌>>=◌,
}
use dynamic_labyrinth.Base.Bytes.{IsU16, slice, slice_from, be_u16, put_u16}

pub record Header : Type 0 where
  pub source : ℕ
  pub destination : ℕ
  pub len : ℕ
  pub checksum : ℕ
  pub payload : List ℕ

pub data Error : Type 0 where
  incorrect_size : ℕ → Error
  length_mismatch : ℕ → ℕ → Error

unfoldable pub unmarshal : List ℕ → Outcome Error Header
unmarshal bytes = if ltb (length bytes) 8 then err (incorrect_size (length bytes)) else do
  source ← slice bytes 0 2 >>= be_u16
  destination ← slice bytes 2 4 >>= be_u16
  len ← slice bytes 4 6 >>= be_u16
  checksum ← slice bytes 6 8 >>= be_u16
  payload ← slice_from bytes 8
  let hdr : Header = record {
    source = source;
    destination = destination;
    len = len;
    checksum = checksum;
    payload = payload;
  }
  if length bytes == len then ok hdr else err (length_mismatch (length bytes) len)

unfoldable pub marshal : Header → List ℕ
marshal hdr =
    put_u16 hdr.source
    ++ (put_u16 hdr.destination ++ (put_u16 hdr.len ++ (put_u16 hdr.checksum ++ hdr.payload)))

-- What the Go types of the fields say, and that the length field counts the whole datagram.
pub record IsWellFormed (h : Header) : Type 0 where
  pub source : IsU16 h.source
  pub destination : IsU16 h.destination
  pub checksum : IsU16 h.checksum
  pub len : IsU16 h.len
  pub counted : h.len ≡ 8 + length h.payload
