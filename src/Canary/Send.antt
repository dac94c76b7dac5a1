-- ===== src/Canary/Send.antt =====
-- `send` of honeytrap/listener/canary/canary_linux.go: the frame that answers a segment. It reads
-- the State, the ARP cache and the routes, and counts up the State's IP id. What it hands to the
-- ring buffer and to epoll is returned as effects. Addresses of sixteen bytes stand as `v4`.
pub mod Frame
use dynamic_labyrinth.Base.{
  ℕ, ◌+◌, ◌/◌, ◌%◌, Option, none, some, List, [], ◌∷◌, ◌++◌, length, if◌then◌else◌, Outcome, ok,
  panic, ◌>>=◌,
}
use dynamic_labyrinth.Base.Ip.{Ip, v4}
use dynamic_labyrinth.Packet.Checksum.{Quad, u32, update_tcp_checksum, update_ip_checksum}
use dynamic_labyrinth.Packet.Tcp
use dynamic_labyrinth.Packet.Ipv4
use dynamic_labyrinth.Packet.Ethernet
use dynamic_labyrinth.Canary.Types.{State, Env, ArpEntry, Route, arp_get, contains, descriptor}

-- What a packet handler does besides changing the State, in order.
pub data Effect : Type 0 where
  -- c.buffer.Write of the two length bytes and of the frame
  buffer_write : List ℕ → Effect
  -- EpollCtl, to be told when the descriptor can be written
  epoll_modify : ℕ → Effect
  -- c.stateTable.Remove(state)
  removed : Effect
  -- state.socket.write and state.socket.flush
  socket_write : List ℕ → Effect
  socket_flush : Effect
  -- the goroutine that serves the new connection, for this destination port
  serve : ℕ → Effect
  -- c.knockChan <- KnockTCPPort, with the destination port
  knock_tcp : ℕ → Effect

unfoldable pub tcp_header : State → List ℕ → ℕ → Tcp.Header
tcp_header s payload flags = record Tcp.blank {
  source = s.dest_port;
  destination = s.src_port;
  seq_num = s.send_next;
  ack_num = s.recv_next;
  ctrl = flags;
  window = s.receive_window;
  payload = payload;
}

unfoldable pub ip_header : State → ℕ → Ipv4.Header
ip_header s segment_len = record {
  version = 4;
  len = 20;
  tos = 0;
  total_len = 20 + segment_len;
  id = s.id;
  flags = 0;
  frag_off = 0;
  ttl = 128;
  protocol = 6;
  checksum = 0;
  src = s.dest_ip;
  dst = s.src_ip;
  options = [];
  payload = [];
}

-- iph.Src[12], … : Go panics on a nil address. An address that is not IPv4 has been refused before.
unfoldable pub quad_of : Ip → Outcome Ipv4.Error Quad
quad_of (v4 a b c d) = ok (record { a = a; b = b; c = c; d = d })
quad_of _ = panic

-- c.ac.Get of the first route's gateway that has the address in its network.
unfoldable pub via_route : List ArpEntry → List Route → Ip → Option ArpEntry
via_route ac [] dst = none
via_route ac (r ∷ rt) dst = if contains r dst then arp_get ac r.gateway else via_route ac rt dst

unfoldable pub next_hop : Env → Ip → Option ArpEntry
unfolding via_route
next_hop env dst = elim (arp_get env.arp_cache dst) [
  | some ae ↦ some ae
  | none ↦ via_route env.arp_cache env.routes dst
]

-- The IP packet: the header with its checksum, and the segment with its own.
unfoldable pub ip_packet : Ipv4.Platform → State → List ℕ → ℕ → Outcome Ipv4.Error (List ℕ)
unfolding tcp_header ip_header quad_of
ip_packet platform s payload flags =
    let segment = (Tcp.marshal (tcp_header s payload flags)).0 in
    Ipv4.marshal platform (ip_header s (length segment)) >>= λ header. quad_of s.dest_ip >>= λ src.
    quad_of s.src_ip >>= λ dst.
    ok (update_ip_checksum header ++ update_tcp_checksum segment src dst)

-- The frame around it: nil for an ARP entry that is missing, and no interface, are panics.
unfoldable pub frame_effects : Env → Option ArpEntry → List ℕ → Outcome Ipv4.Error (List Effect)
frame_effects env none packet = panic
frame_effects env (some ae) packet = elim env.interfaces [
  | [] ↦ panic
  | i ∷ is ↦
      let frame =
        Ethernet.marshal (record {
          source = i.hardware_addr;
          destination = ae.hardware_address;
          type = 2048;
          payload = [];
        })
        ++ packet in
      ok (
        buffer_write ((length frame / 256 % 256) ∷ (length frame % 256) ∷ [])
        ∷ buffer_write frame
        ∷ epoll_modify (descriptor env.descriptors ae.interface)
        ∷ [])
]

-- Callers drop the error that `send` returns; the id was not counted then.
unfoldable pub send :
    Ipv4.Platform → Env → State → List ℕ → ℕ → Outcome Ipv4.Error (State × List Effect)
send platform env s payload flags = ip_packet platform s payload flags >>= λ packet.
    frame_effects env (next_hop env s.src_ip) packet >>= λ effects.
    ok (record s { id = u32 (s.id + 1) }, effects)
