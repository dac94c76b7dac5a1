-- ===== src/Packet/Segment.antt =====
-- honeytrap/listener/canary/tcp/tcp.go: `UnmarshalWithChecksum`, `MarshalWithChecksum`, `to4byte`.
pub mod Accepts
use dynamic_labyrinth.Base.{
  ℕ, ◌/◌, ◌%◌, ◌==◌, Option, some, none, List, length, leb, set, if◌then◌else◌, Outcome, ok, err,
  panic, ◌>>=◌, map,
}
use dynamic_labyrinth.Base.Ip.{Ip, v4}
use dynamic_labyrinth.Packet.Checksum.{Quad, csum}
use dynamic_labyrinth.Packet.Tcp

-- What `UnmarshalWithChecksum` reports beside the header.
pub data Refusal : Type 0 where
  invalid_checksum : Refusal
  malformed : Tcp.Error → Refusal

-- `to4byte` of the text of an address: on one that is not IPv4 log.Fatalf ends the program.
unfoldable pub to4byte : Ip → Outcome Tcp.Stuck Quad
to4byte (v4 a b c d) = ok (record { a = a; b = b; c = c; d = d })
to4byte _ = panic

abbrev pub refuse : Option Tcp.Error → Option Refusal
refuse none = none
refuse (some e) = some (malformed e)

-- A wrong checksum hides an error of `Unmarshal`.
unfoldable pub unmarshal_with_checksum :
    List ℕ → Quad → Quad → Outcome Tcp.Stuck (Tcp.Header × Option Refusal)
unmarshal_with_checksum bytes src dst = Tcp.unmarshal Tcp.blank bytes >>= λ (h, e).
    ok (h, (if csum bytes src dst == h.checksum then refuse e else some invalid_checksum))

unfoldable pub marshal_with_checksum : Tcp.Header → Quad → Quad → List ℕ
marshal_with_checksum h src dst =
    let bytes = (Tcp.marshal h).0 in
    let sum = csum bytes src dst in set (set bytes 16 (sum / 256 % 256)) 17 (sum % 256)
