-- ===== src/Canary/Machine/Wire.antt =====
-- The bytes of the SYN|ACK that `send` makes, as a parser reads them.
use dynamic_labyrinth.Base.{
  ℕ, ◌+◌, ◌*◌, ◌/◌, ◌%◌, ◌<◌, ◌≡◌, true, false, none, List, [], ◌∷◌, drop, length, ok, refl, arith,
  Bool-cases, inl, inr, ltb, Bool, if◌then◌else◌,
}
use dynamic_labyrinth.Base.Bytes.{put_u16}
use dynamic_labyrinth.Packet.Checksum.{Quad, update_tcp_checksum, update_ip_checksum}
use dynamic_labyrinth.Packet.Ipv4
use dynamic_labyrinth.Packet.Ipv4.{Platform, linux, freebsd, darwin, dragonfly, netbsd}
use dynamic_labyrinth.Packet.Tcp
use dynamic_labyrinth.Packet.Tcp.{Header, syn, ack, rst, fin, psh, has_flag}
use dynamic_labyrinth.Canary.Types.{State}
use dynamic_labyrinth.Canary.Send.{tcp_header, ip_header, quad_of, ip_packet}
use dynamic_labyrinth.Canary.Send.Frame.{IsV4}

-- A word has two bytes, in whatever order.
two_bytes :
    (little : Bool) (n : ℕ)
    → (a : ℕ) × (b : ℕ) × ((if little then (n % 256) ∷ (n / 256 % 256) ∷ [] else put_u16 n)
        ≡ a ∷ b ∷ [])
two_bytes true n = (_, _, refl)
two_bytes false n = (_, _, refl)

put_word-two :
    (p : Platform) (g : Ipv4.Goos) (n : ℕ) → (a : ℕ) × (b : ℕ) × (Ipv4.put_word p g n ≡ a ∷ b ∷ [])
unfolding Ipv4.put_word
put_word-two p linux n = (_, _, refl)
put_word-two p freebsd n = elim (Bool-cases (ltb p.freebsd_version 1100000)) [
  | inl e ↦ rw e (two_bytes p.little_endian n)
  | inr e ↦ rw e (_, _, refl)
]
put_word-two p darwin n = two_bytes p.little_endian n
put_word-two p dragonfly n = two_bytes p.little_endian n
put_word-two p netbsd n = two_bytes p.little_endian n

-- The segment in a packet is the one with that State's numbers.
pub packet_segment :
    (platform : Platform) (s : State)
    → IsV4 s
    → (packet : List ℕ) × (src : Quad) × (dst : Quad) × (ip_packet platform s [] 18 ≡ ok packet)
      × (drop 20 packet ≡ update_tcp_checksum (Tcp.marshal (tcp_header s [] 18)).0 src dst)
unfolding ip_packet Ipv4.marshal quad_of ip_header update_ip_checksum
packet_segment platform s v =
    let n = 20 + length (Tcp.marshal (tcp_header s [] 18)).0 in
    let (a, b, e) = put_word-two platform platform.goos n in
    let (c, d, f) = put_word-two platform platform.goos 0 in
    rw (v.src, v.dest, e, f)
      (
        _,
        record { a = v.e; b = v.f; c = v.g; d = v.h },
        record { a = v.a; b = v.b; c = v.c; d = v.d },
        refl,
        refl,
      )

-- What a header says of a State that sends SYN|ACK.
pub record Says (s : State) (r : Header) : Type 0 where
  pub flags : r.ctrl ≡ 18
  pub source : r.source ≡ s.dest_port
  pub destination : r.destination ≡ s.src_port
  pub seq_num : r.seq_num ≡ s.send_next
  pub ack_num : r.ack_num ≡ s.recv_next
  pub payload : r.payload ≡ []

be_u32-put_u32 :
    (v : ℕ)
    → v < 4294967296
    → v / 16777216 % 256 * 16777216 + v / 65536 % 256 * 65536 + v / 256 % 256 * 256 + v % 256 ≡ v
be_u32-put_u32 v h = omega arith

pub read_segment :
    (s : State) (src dst : Quad)
    → s.dest_port < 65536
    → s.src_port < 65536
    → s.send_next < 4294967296
    → s.recv_next < 4294967296
    → (r : Header) × (Tcp.unmarshal Tcp.blank
          (update_tcp_checksum (Tcp.marshal (tcp_header s [] 18)).0 src dst)
        ≡ ok (r, none))
      × Says s r
unfolding Tcp.unmarshal Tcp.read_fixed Tcp.read_rest Tcp.read_options update_tcp_checksum
    Tcp.marshal tcp_header Tcp.option_length Tcp.write_options
read_segment s src dst a b c d = (
  _,
  refl,
  record {
    flags = refl;
    source = omega arith;
    destination = omega arith;
    seq_num = be_u32-put_u32 s.send_next c;
    ack_num = be_u32-put_u32 s.recv_next d;
    payload = refl;
  },
)
