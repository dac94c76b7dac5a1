-- ===== src/Packet/Examples.antt =====
-- The packet formats at concrete inputs.
use dynamic_labyrinth.Base.{
  Option, none, some, ℕ, ◌+◌, ◌≤◌, ◌<◌, ◌≡◌, ◌≢◌, ◌↔◌, ◌⊎◌, true, List, [], ◌∷◌, ◌++◌, arith, ok,
  err, panic, All, length, refl, ◌>>=◌,
}
use dynamic_labyrinth.Base.Bytes.{IsByte}
use dynamic_labyrinth.Base.Ip.{v4}
use dynamic_labyrinth.Packet.Checksum.{Quad, carry, csum, update_tcp_checksum}
use dynamic_labyrinth.Packet.Checksum.Verify.{
  IsQuad, pseudo_sum, total_words, checksum_at, csum-update_tcp_checksum, carry-update_tcp_checksum,
}
use dynamic_labyrinth.Packet.Tcp
use dynamic_labyrinth.Packet.Tcp.Bounds.{HasLoneOption, unmarshal-eq-panic}
use dynamic_labyrinth.Packet.Checksum.{add_words}
use dynamic_labyrinth.Packet.Segment.{
  Refusal, invalid_checksum, unmarshal_with_checksum, marshal_with_checksum,
}
use dynamic_labyrinth.Packet.Segment.Accepts.{unmarshal_with_checksum-marshal_with_checksum}
use dynamic_labyrinth.Packet.Udp
use dynamic_labyrinth.Packet.Udp.Inverse.{unmarshal-eq-ok}
use dynamic_labyrinth.Packet.Ipv4
use dynamic_labyrinth.Packet.Ipv4.Inverse
use dynamic_labyrinth.Packet.Ipv4.Inverse.{parse-marshal}
use dynamic_labyrinth.Packet.Ipv4.Bounds.{parse-eq-panic_total}
use dynamic_labyrinth.Packet.Arp
use dynamic_labyrinth.Packet.Icmp
use dynamic_labyrinth.Packet.Ethernet

abbrev server : Quad
server = record { a = 10; b = 0; c = 0; d = 1 }

abbrev client : Quad
client = record { a = 192; b = 168; c = 1; d = 77 }

server-IsQuad : IsQuad server
server-IsQuad = record { a = omega arith; b = omega arith; c = omega arith; d = omega arith }

client-IsQuad : IsQuad client
client-IsQuad = record { a = omega arith; b = omega arith; c = omega arith; d = omega arith }

-- A SYN|ACK with three bytes of payload.
abbrev segment : List ℕ
segment =
    0 ∷ 80 ∷ 200 ∷ 17 ∷ 0 ∷ 0 ∷ 1 ∷ 44 ∷ 255 ∷ 0 ∷ 9 ∷ 8 ∷ 80 ∷ 18 ∷ 255 ∷ 255 ∷ 0 ∷ 0 ∷ 0 ∷ 0 ∷ 71
    ∷ 69 ∷ 84 ∷ []

segment_bytes : All IsByte segment
segment_bytes = ground arith

csum-update_tcp_checksum_example :
    (length (update_tcp_checksum segment server client) ≡ 23)
    × (csum (update_tcp_checksum segment server client) server client
        ≡ checksum_at (update_tcp_checksum segment server client))
csum-update_tcp_checksum_example =
    csum-update_tcp_checksum segment server client segment_bytes (omega arith) (omega arith)

carry-update_tcp_checksum_example :
    carry 4 (pseudo_sum server client 23 + total_words (update_tcp_checksum segment server client))
    ≡ 65535
carry-update_tcp_checksum_example =
    carry-update_tcp_checksum segment server client segment_bytes (omega arith) (omega arith)
      server-IsQuad client-IsQuad

-- An IPv4 header of 20 bytes for a datagram of 20, without its checksum.
abbrev ip_bytes : List ℕ
ip_bytes =
    69 ∷ 0 ∷ 0 ∷ 20 ∷ 18 ∷ 52 ∷ 0 ∷ 0 ∷ 128 ∷ 6 ∷ 0 ∷ 0 ∷ 10 ∷ 0 ∷ 0 ∷ 1 ∷ 192 ∷ 168 ∷ 1 ∷ 77 ∷ []

-- A segment whose one option byte, 8, has no length byte behind it.
abbrev lone_option : List ℕ
lone_option =
    0 ∷ 80 ∷ 200 ∷ 17 ∷ 0 ∷ 0 ∷ 1 ∷ 44 ∷ 255 ∷ 0 ∷ 9 ∷ 8 ∷ 96 ∷ 2 ∷ 255 ∷ 255 ∷ 0 ∷ 0 ∷ 0 ∷ 0 ∷ 1
    ∷ 1 ∷ 1 ∷ 8 ∷ []

lone_option_panics : Tcp.unmarshal Tcp.blank lone_option ≡ panic
unfolding Tcp.unmarshal Tcp.read_fixed Tcp.read_rest Tcp.read_options Tcp.read_option
lone_option_panics = refl

unmarshal-eq-panic_example :
    (Tcp.unmarshal Tcp.blank lone_option ≢ err Tcp.stuck)
    × ((Tcp.unmarshal Tcp.blank lone_option ≡ panic) ↔ ((24 < 20) ⊎ HasLoneOption lone_option))
unmarshal-eq-panic_example = unmarshal-eq-panic Tcp.blank lone_option

abbrev datagram : List ℕ
datagram = 0 ∷ 53 ∷ 4 ∷ 0 ∷ 0 ∷ 10 ∷ 171 ∷ 205 ∷ 104 ∷ 105 ∷ []

abbrev datagram_header : Udp.Header
datagram_header = record {
  source = 53;
  destination = 1024;
  len = 10;
  checksum = 43981;
  payload = 104 ∷ 105 ∷ [];
}

datagram_read : Udp.unmarshal datagram ≡ ok datagram_header
unfolding Udp.unmarshal
datagram_read = refl

unmarshal-eq-ok_example :
    (Udp.unmarshal datagram ≡ ok datagram_header)
    ↔ (Udp.IsWellFormed datagram_header × (Udp.marshal datagram_header ≡ datagram))
unmarshal-eq-ok_example = unmarshal-eq-ok datagram datagram_header (ground arith)

abbrev amd64 : Ipv4.Platform
amd64 = record { goos = Ipv4.linux; freebsd_version = 0; little_endian = true }

abbrev ip_header : Ipv4.Header
ip_header = record {
  version = 4;
  len = 24;
  tos = 16;
  total_len = 27;
  id = 4660;
  flags = 2;
  frag_off = 5;
  ttl = 64;
  protocol = 17;
  checksum = 48879;
  src = v4 10 0 0 1;
  dst = v4 192 168 1 77;
  options = 7 ∷ 4 ∷ 0 ∷ 0 ∷ [];
  payload = 7 ∷ 4 ∷ 0 ∷ 0 ∷ 97 ∷ 98 ∷ 99 ∷ [];
}

ip_header-IsWellFormed : Ipv4.Inverse.IsWellFormed ip_header (97 ∷ 98 ∷ 99 ∷ [])
ip_header-IsWellFormed = record {
  version = refl;
  len = refl;
  words = refl;
  fits = omega arith;
  tos = omega arith;
  total_len = omega arith;
  counted = refl;
  id = omega arith;
  flags = omega arith;
  frag_off = omega arith;
  ttl = omega arith;
  protocol = omega arith;
  checksum = omega arith;
  payload = refl;
}

parse-marshal_example :
    (Ipv4.marshal amd64 ip_header >>= λ bs. Ipv4.parse amd64 (bs ++ (97 ∷ 98 ∷ 99 ∷ [])))
    ≡ ok ip_header
parse-marshal_example =
    parse-marshal amd64 ip_header (97 ∷ 98 ∷ 99 ∷ []) refl ip_header-IsWellFormed 10 0 0 1 192 168 1
      77 refl refl

-- A header that claims a datagram of 19 bytes.
abbrev short_total : List ℕ
short_total =
    69 ∷ 0 ∷ 0 ∷ 19 ∷ 18 ∷ 52 ∷ 0 ∷ 0 ∷ 128 ∷ 6 ∷ 0 ∷ 0 ∷ 10 ∷ 0 ∷ 0 ∷ 1 ∷ 192 ∷ 168 ∷ 1 ∷ 77 ∷ []

parse-eq-panic_total_example :
    (Ipv4.parse amd64 short_total ≡ panic) ↔ ((20 ≤ 20) × (20 ≤ 20) × (19 < 20))
parse-eq-panic_total_example = parse-eq-panic_total amd64 short_total refl

-- A request of 28 bytes, and the same with hardware addresses of 20 bytes claimed.
abbrev arp_bytes : ℕ → List ℕ
arp_bytes size =
    0 ∷ 1 ∷ 8 ∷ 0 ∷ size ∷ 4 ∷ 0 ∷ 1 ∷ 2 ∷ 0 ∷ 0 ∷ 0 ∷ 0 ∷ 1 ∷ 10 ∷ 0 ∷ 0 ∷ 1 ∷ 0 ∷ 0 ∷ 0 ∷ 0 ∷ 0
    ∷ 0 ∷ 10 ∷ 0 ∷ 0 ∷ 2 ∷ []

abbrev request : Arp.Frame
request = record {
  hardware_type = 1;
  protocol_type = 2048;
  hardware_size = 6;
  protocol_size = 4;
  opcode = 1;
  sender_mac = 2 ∷ 0 ∷ 0 ∷ 0 ∷ 0 ∷ 1 ∷ [];
  sender_ip = 10 ∷ 0 ∷ 0 ∷ 1 ∷ [];
  target_mac = 0 ∷ 0 ∷ 0 ∷ 0 ∷ 0 ∷ 0 ∷ [];
  target_ip = 10 ∷ 0 ∷ 0 ∷ 2 ∷ [];
  sender_hardware_address = 2 ∷ 0 ∷ 0 ∷ 0 ∷ 0 ∷ 1 ∷ [];
  sender_protocol_address = 10 ∷ 0 ∷ 0 ∷ 1 ∷ [];
  target_hardware_address = 0 ∷ 0 ∷ 0 ∷ 0 ∷ 0 ∷ 0 ∷ [];
  target_protocol_address = 10 ∷ 0 ∷ 0 ∷ 2 ∷ [];
}

request_read : Arp.parse (arp_bytes 6) ≡ ok request
unfolding Arp.parse Arp.addresses Arp.next_address
request_read = refl

-- An echo request.
abbrev echo : List ℕ
echo = 8 ∷ 0 ∷ 247 ∷ 255 ∷ 0 ∷ 1 ∷ 0 ∷ 9 ∷ 120 ∷ []

abbrev echo_header : Icmp.Icmpv4
echo_header = record { type_code = 2048; checksum = 63487; id = 1; seq = 9 }

echo_read : Icmp.parse echo ≡ ok echo_header
unfolding Icmp.parse
echo_read = refl

abbrev frame_bytes : List ℕ
frame_bytes = 2 ∷ 0 ∷ 0 ∷ 0 ∷ 0 ∷ 1 ∷ 2 ∷ 0 ∷ 0 ∷ 0 ∷ 0 ∷ 2 ∷ 8 ∷ 0 ∷ 69 ∷ []

abbrev frame : Ethernet.Frame
frame = record {
  source = 2 ∷ 0 ∷ 0 ∷ 0 ∷ 0 ∷ 2 ∷ [];
  destination = 2 ∷ 0 ∷ 0 ∷ 0 ∷ 0 ∷ 1 ∷ [];
  type = 2048;
  payload = 69 ∷ [];
}

frame_read : Ethernet.parse frame_bytes ≡ ok frame
unfolding Ethernet.parse
frame_read = refl

-- A SYN|ACK with two bytes of payload.
abbrev answer : Tcp.Header
answer = record Tcp.blank {
  source = 80;
  destination = 51217;
  seq_num = 1000;
  ack_num = 501;
  ctrl = 18;
  window = 65535;
  payload = 104 ∷ 105 ∷ [];
}

-- What is read back from it: the data offset and the checksum are filled in.
abbrev answer_read : Tcp.Header
answer_read = record answer { data_offset = 5; checksum = 44338 }

answer_bytes : All IsByte (Tcp.marshal answer).0
unfolding Tcp.marshal Tcp.option_length Tcp.write_options
answer_bytes = ground arith

answer_accepted :
    unmarshal_with_checksum (marshal_with_checksum answer server client) server client
    ≡ ok (answer_read, none)
unfolding unmarshal_with_checksum marshal_with_checksum csum add_words carry Tcp.marshal
    Tcp.option_length Tcp.write_options Tcp.unmarshal Tcp.read_fixed Tcp.read_rest Tcp.read_options
answer_accepted = refl

unmarshal_with_checksum-marshal_with_checksum_example :
    ◌≢◌ {A = Option Refusal} none (some invalid_checksum)
unmarshal_with_checksum-marshal_with_checksum_example =
    unmarshal_with_checksum-marshal_with_checksum answer server client answer_read none answer_bytes
      answer_accepted
