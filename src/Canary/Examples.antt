-- ===== src/Canary/Examples.antt =====
-- The state table and the TCP machine at concrete inputs.
use dynamic_labyrinth.Base.{
  ◌<◌, List, arith, ℕ, ◌≡◌, ◌⊎◌, ◌↔◌, true, false, none, some, [], ◌∷◌, ok, panic, refl,
}
use dynamic_labyrinth.Base.Ip.{v4}
use dynamic_labyrinth.Packet.Ipv4.{Platform, linux}
use dynamic_labyrinth.Packet.Tcp
use dynamic_labyrinth.Packet.Tcp.{Header, has_flag}
use dynamic_labyrinth.Canary.Types.{syn_received, established, State, Env}
use dynamic_labyrinth.Canary.Send.{serve, socket_write}
use dynamic_labyrinth.Canary.StateTable.{Heap, Table, matches, get, add, reusable, idle}
use dynamic_labyrinth.Canary.StateTable.Search.{
  InTable, there, here, IsDistinct, empty, free, taken,
}
use dynamic_labyrinth.Canary.StateTable.Slots.{Placed, NoSlot, add_cases}
use dynamic_labyrinth.Canary.Machine.{
  Proc, handle_segment, segment_flow, on_listen, on_rst, on_syn, on_acked, on_closing, on_handshake,
  on_ack, on_data, on_knock, on_fin,
}
use dynamic_labyrinth.Canary.Machine.Diagram.{◌⟶◌, handle_segment-⟶}
use dynamic_labyrinth.Canary.Machine.Silence.{quiet, handle_segment-quiet}
use dynamic_labyrinth.Canary.Types.{listen, ArpEntry, Interface, arp_get, is_me}
use dynamic_labyrinth.Canary.Send.{next_hop, send}
use dynamic_labyrinth.Canary.Send.Frame.{IsV4, send-eq-panic}
use dynamic_labyrinth.Canary.Machine.Opened.{Opens, handle_segment-Opens}
use dynamic_labyrinth.Packet.Ethernet
use dynamic_labyrinth.Packet.Ipv4
use dynamic_labyrinth.Packet.Checksum.{csum, add_words, carry}
use dynamic_labyrinth.Packet.Segment.{to4byte, unmarshal_with_checksum}
use dynamic_labyrinth.Canary.StateTable.{find_slot}
use dynamic_labyrinth.Canary.Handlers.{
  Node, Draw, receive, handle_frame, handle_ip, handle_tcp, handle_parsed, filter_segment,
  accept_segment, run_state, apply_removes, reports, tcp,
}
use dynamic_labyrinth.Canary.Handlers.Tables.{IsValid}
use dynamic_labyrinth.Canary.Handlers.Soundness.{receive-Kept}
use dynamic_labyrinth.Canary.Handlers.Changes.{Kept}

abbrev amd64 : Platform
amd64 = record { goos = linux; freebsd_version = 0; little_endian = true }

-- No interface and no route: enough for segments that are not answered.
abbrev offline : Env
offline = record { arp_cache = []; routes = []; interfaces = []; descriptors = [] }

abbrev connection : State
connection = record {
  src_ip = v4 192 168 1 77;
  src_port = 51217;
  dest_ip = v4 10 0 0 1;
  dest_port = 80;
  id = 4660;
  state = syn_received;
  send_unacknowledged = 1000;
  send_next = 1002;
  initial_send_sequence_number = 1000;
  recv_next = 501;
  receive_window = 65535;
  t = 10;
}

-- The last segment of the handshake.
abbrev handshake_ack : Header
handshake_ack = record Tcp.blank {
  source = 51217;
  destination = 80;
  seq_num = 501;
  ack_num = 1001;
  ctrl = 16;
}

abbrev accepted : Proc
accepted = record {
  state = record connection { state = established; send_unacknowledged = 1001; t = 20 };
  effects = serve 80 ∷ socket_write [] ∷ [];
}

handshake_run : handle_segment amd64 offline handshake_ack 20 connection ≡ ok accepted
unfolding handle_segment segment_flow on_listen on_rst on_syn on_acked on_closing on_handshake
    on_ack on_data on_knock on_fin has_flag
handshake_run = refl

handle_segment-⟶_example : syn_received ⟶ established
handle_segment-⟶_example =
    handle_segment-⟶ amd64 offline handshake_ack 20 connection accepted handshake_run

handle_segment-quiet_example : quiet (serve 80 ∷ socket_write [] ∷ []) ≡ true
handle_segment-quiet_example =
    handle_segment-quiet amd64 offline handshake_ack 20 connection accepted handshake_run

abbrev open_connection : State
open_connection = record connection { state = established }

abbrev reset : Header
reset = record Tcp.blank { source = 51217; destination = 80; ctrl = 4 }

reset_flags : (has_flag reset 4 ≡ true) × (has_flag reset 16 ≡ false)
unfolding has_flag
reset_flags = (refl, refl)

abbrev heap : Heap
heap = connection ∷ record connection { dest_port = 23; t = 50 } ∷ []

abbrev table : Table
table = some 1 ∷ none ∷ some 0 ∷ []

abbrev full : Table
full = some 1 ∷ some 0 ∷ []

table-IsDistinct : IsDistinct table
table-IsDistinct = taken (λ m. other m) (free (taken (λ m. elim m [ ]) empty))
  where
    other : ¬ InTable 1 (none ∷ some 0 ∷ [])
    other m = elim m [ there m' ↦ elim m' [ there m'' ↦ elim m'' [ ] ] ]

add_cases_example :
    ((t : Table) × (add heap 60 2 full ≡ ok t) × Placed (reusable heap) 2 full t)
    ⊎ (NoSlot (reusable heap) full
          × ((t : Table) × (add heap 60 2 full ≡ ok t) × Placed (idle heap 60) 2 full t)
        ⊎ (NoSlot (reusable heap) full × NoSlot (idle heap 60) full × (add heap 60 2 full ≡ panic)))
add_cases_example = add_cases heap 60 2 full

abbrev card : Interface
card = record { hardware_addr = 2 ∷ 0 ∷ 0 ∷ 0 ∷ 0 ∷ 1 ∷ []; addrs = v4 10 0 0 1 ∷ [] }

abbrev peer : ArpEntry
peer = record {
  ip = v4 192 168 1 77;
  hardware_address = 2 ∷ 0 ∷ 0 ∷ 0 ∷ 0 ∷ 2 ∷ [];
  interface = "eth0";
}

abbrev online : Env
online = record {
  arp_cache = peer ∷ [];
  routes = [];
  interfaces = card ∷ [];
  descriptors = ("eth0", 7) ∷ [];
}

online_hop : next_hop online (v4 192 168 1 77) ≡ some peer
unfolding next_hop arp_get
online_hop = refl

abbrev listening : State
listening = record connection { state = listen }

listening-IsV4 : IsV4 listening
listening-IsV4 = record {
  a = 192;
  b = 168;
  c = 1;
  d = 77;
  src = refl;
  e = 10;
  f = 0;
  g = 0;
  h = 1;
  dest = refl;
}

abbrev opening : Header
opening = record Tcp.blank { source = 51217; destination = 80; seq_num = 500; ctrl = 2 }

opening_flag : has_flag opening 2 ≡ true
unfolding has_flag
opening_flag = refl

handle_segment-Opens_example : Opens amd64 online peer card opening 20 21 listening
handle_segment-Opens_example =
    handle_segment-Opens amd64 online opening 20 21 listening peer card [] refl opening_flag
      listening-IsV4 online_hop refl (omega arith) (omega arith) (omega arith)

send-eq-panic_example :
    (send amd64 offline listening [] 18 ≡ panic)
    ↔ ((next_hop offline (v4 192 168 1 77) ≡ none) ⊎ (offline.interfaces ≡ []))
send-eq-panic_example = send-eq-panic amd64 offline listening [] 18 listening-IsV4

-- The last segment of the handshake as a frame.
abbrev handshake_frame : List ℕ
handshake_frame =
    2 ∷ 0 ∷ 0 ∷ 0 ∷ 0 ∷ 1 ∷ 2 ∷ 0 ∷ 0 ∷ 0 ∷ 0 ∷ 2 ∷ 8 ∷ 0 ∷ 69 ∷ 0 ∷ 0 ∷ 40 ∷ 0 ∷ 1 ∷ 0 ∷ 0 ∷ 64 ∷ 6
    ∷ 0 ∷ 0 ∷ 192 ∷ 168 ∷ 1 ∷ 77 ∷ 10 ∷ 0 ∷ 0 ∷ 1 ∷ 200 ∷ 17 ∷ 0 ∷ 80 ∷ 0 ∷ 0 ∷ 1 ∷ 245 ∷ 0 ∷ 0 ∷ 3
    ∷ 233 ∷ 80 ∷ 16 ∷ 255 ∷ 255 ∷ 0 ∷ 0 ∷ 0 ∷ 0 ∷ []

abbrev before : Node
before = record { heap = connection ∷ []; table = none ∷ some 0 ∷ [] }

abbrev after : Node
after = record { heap = accepted.state ∷ []; table = none ∷ some 0 ∷ [] }

abbrev draw : Draw
draw = record { random_id = 1; random_iss = 2; now = 20 }

before_within : (p : ℕ) → InTable p before.table → p < 1
before_within _ (there here) = omega arith
before_within p (there (there m)) = elim m [ ]

before-IsValid : IsValid before
before-IsValid = record { distinct = free (taken (λ m. elim m [ ]) empty); within = before_within }

frame_run :
    receive amd64 online draw true before handshake_frame
    ≡ ok (after, tcp (serve 80) ∷ tcp (socket_write []) ∷ [])
unfolding receive handle_frame handle_ip handle_tcp handle_parsed filter_segment accept_segment
    run_state apply_removes reports Ethernet.parse Ipv4.parse Ipv4.read_fields Ipv4.read_payload
    to4byte unmarshal_with_checksum csum add_words carry Tcp.unmarshal Tcp.read_fixed Tcp.read_rest
    Tcp.read_options is_me get find_slot matches handle_segment segment_flow on_listen on_rst on_syn
    on_acked on_closing on_handshake on_ack on_data on_knock on_fin has_flag
frame_run = refl

receive-Kept_example : Kept before after
receive-Kept_example =
    receive-Kept amd64 online draw true before handshake_frame after
      (tcp (serve 80) ∷ tcp (socket_write []) ∷ []) before-IsValid frame_run
