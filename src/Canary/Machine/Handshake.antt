-- ===== src/Canary/Machine/Handshake.antt =====
-- A SYN in LISTEN is answered.
use dynamic_labyrinth.Base.{ℕ, ◌+◌, ◌≡◌, true, some, List, [], ◌∷◌, ok, refl}
use dynamic_labyrinth.Packet.Checksum.{u32}
use dynamic_labyrinth.Packet.Ipv4.{Platform}
use dynamic_labyrinth.Packet.Tcp.{Header, syn, has_flag}
use dynamic_labyrinth.Canary.Types.{
  listen, syn_received, same_state, State, Env, ArpEntry, Interface,
}
use dynamic_labyrinth.Canary.Send.{next_hop, ip_packet}
use dynamic_labyrinth.Canary.Send.Frame.{IsV4, sent, send-ok}
use dynamic_labyrinth.Canary.Machine.{after_send, transmit, on_listen, segment_flow, handle_segment}

-- The State as `handleTCP` prepares it for the answer to a SYN.
abbrev pub begun : Header → ℕ → State → State
begun hdr now s = record s {
  t = now;
  send_unacknowledged = s.initial_send_sequence_number;
  send_next = u32 (s.initial_send_sequence_number + 1);
  recv_next = u32 (hdr.seq_num + 1);
}

pub begun-IsV4 : (hdr : Header) (now : ℕ) (s : State) → IsV4 s → IsV4 (begun hdr now s)
begun-IsV4 hdr now s v = record {
  a = v.a;
  b = v.b;
  c = v.c;
  d = v.d;
  src = v.src;
  e = v.e;
  f = v.f;
  g = v.g;
  h = v.h;
  dest = v.dest;
}

-- In LISTEN, between IPv4 addresses, with a next hop and an interface, a SYN is answered by one frame
-- with SYN|ACK and nothing else; the State goes to SYN-RECEIVED, expects the number behind the
-- SYN, and has counted its own sequence number up by two.
pub handle_segment-opens :
    (platform : Platform) (env : Env) (hdr : Header) (now : ℕ) (s : State) (ae : ArpEntry)
    (i : Interface) (is : List Interface)
    → s.state ≡ listen
    → has_flag hdr syn ≡ true
    → IsV4 s
    → next_hop env s.src_ip ≡ some ae
    → env.interfaces ≡ i ∷ is
    → (packet : List ℕ) × (ip_packet platform (begun hdr now s) [] 18 ≡ ok packet)
      × (handle_segment platform env hdr now s
          ≡ ok (record {
            state = record (begun hdr now s) {
              id = u32 (s.id + 1);
              send_next = u32 (u32 (s.initial_send_sequence_number + 1) + 1);
              state = syn_received;
            };
            effects = sent env i ae packet;
          }))
unfolding handle_segment segment_flow on_listen transmit after_send
handle_segment-opens platform env hdr now s ae i is l f v hop ifs =
    let v' = begun-IsV4 hdr now s v in
    let (packet, e, k) = send-ok platform env (begun hdr now s) [] 18 ae i is v' hop ifs in
    let in_listen : same_state s.state listen ≡ true = rw l refl in
    (packet, e, rw (in_listen, f, k) refl)
