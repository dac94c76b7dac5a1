-- ===== src/Canary/Machine/Opened.antt =====
-- The two segments by which a client opens a connection, and the bytes that are sent between them.
use dynamic_labyrinth.Base.{
  ℕ, ◌+◌, ◌<◌, ◌≡◌, ◌∙◌, true, false, none, some, List, [], ◌∷◌, drop, ok, refl, arith, ap, leb,
  ◌≤◌, ◌>>=◌,
}
use dynamic_labyrinth.Packet.Checksum.{u32}
use dynamic_labyrinth.Packet.Ipv4.{Platform}
use dynamic_labyrinth.Packet.Tcp
use dynamic_labyrinth.Packet.Tcp.{Header, syn, ack, rst, fin, psh, has_flag}
use dynamic_labyrinth.Canary.Types.{
  listen, syn_received, established, State, Env, ArpEntry, Interface,
}
use dynamic_labyrinth.Canary.Send.{next_hop, serve, socket_write}
use dynamic_labyrinth.Canary.Send.Frame.{IsV4, sent}
use dynamic_labyrinth.Canary.Machine.{
  Proc, emit, enter, finish, advance_recv, handle_segment, segment_flow, on_listen, on_rst, on_syn,
  on_acked, on_closing, on_handshake, on_ack, on_data, on_knock, on_fin,
}
use dynamic_labyrinth.Canary.Machine.Wire.{packet_segment, read_segment}
use dynamic_labyrinth.Canary.Machine.Handshake.{begun, begun-IsV4, handle_segment-opens}

-- A reply with ACK and neither SYN, RST nor FIN, and without data, which acknowledges what the other end of the
-- connection sent.
pub record Acknowledges (sent_segment reply : Header) : Type 0 where
  pub has_ack : has_flag reply ack ≡ true
  pub no_syn : has_flag reply syn ≡ false
  pub no_rst : has_flag reply rst ≡ false
  pub no_fin : has_flag reply fin ≡ false
  pub no_psh : has_flag reply psh ≡ false
  pub payload : reply.payload ≡ []
  pub ack_num : reply.ack_num ≡ sent_segment.seq_num + 1

module _ (platform : Platform) (env : Env) (r reply : Header) (a : Acknowledges r reply) where
  -- A State through every part of the function, each of which leaves it or goes on with the next.
  run_through :
      (p q q' q'' : Proc)
      → on_listen platform env reply p ≡ ok p
      → on_closing platform env reply p ≡ ok p
      → on_handshake platform env reply p ≡ ok q
      → on_ack platform env reply q ≡ ok q'
      → on_data platform env reply q' ≡ ok q''
      → finish (
          on_listen platform env reply p
          >>= on_rst platform env reply
          >>= on_syn platform env reply
          >>= on_acked platform env reply)
        ≡ ok q''
  unfolding on_acked on_rst on_syn on_knock on_fin
  run_through p q q' q'' listened closing shaken acked taken =
      rw
        (listened, a.no_rst, a.no_syn, a.has_ack, closing, shaken, acked, taken, a.no_syn, a.no_fin)
        refl

  -- In ESTABLISHED, without data.
  on_data-empty :
      (p : Proc)
      → p.state.state ≡ established
      → on_data platform env reply p ≡ ok (advance_recv (emit p (socket_write [])) 0)
  unfolding on_data
  on_data-empty p e = rw (a.no_psh, e, a.payload) refl

  -- In SYN-RECEIVED an acknowledgement of a number from SND.UNA to SND.NXT establishes the connection.
  establishes :
      (now : ℕ) (s : State)
      → s.state ≡ syn_received
      → s.send_unacknowledged ≤ r.seq_num + 1
      → r.seq_num + 1 ≤ s.send_next
      → (p : Proc) × (handle_segment platform env reply now s ≡ ok p)
        × (p.state.state ≡ established)
        × (p.state.send_unacknowledged ≡ r.seq_num + 1)
        × (p.effects ≡ serve reply.destination ∷ socket_write [] ∷ [])
  unfolding handle_segment segment_flow on_listen on_closing on_handshake on_ack
  establishes now s st low high =
      let from : leb s.send_unacknowledged reply.ack_num ≡ true = ground (arith, a.ack_num) in
      let to : leb reply.ack_num s.send_next ≡ true = ground (arith, a.ack_num) in
      let p : Proc = record { state = record s { t = now }; effects = [] } in
      let q : Proc = emit (enter p established) (serve reply.destination) in
      let q' : Proc = record q { state = record q.state { send_unacknowledged = reply.ack_num } } in
      let q'' : Proc = advance_recv (emit q' (socket_write [])) 0 in
      (
        q'',
        run_through p q q' q'' (rw st refl) (rw st refl) (rw (st, from, to) refl)
            (rw (from, to) refl) (on_data-empty q' refl),
        refl,
        a.ack_num,
        refl,
      )

-- What a SYN|ACK says to the client: the ports exchanged, and the number behind its SYN acknowledged.
pub record IsAnswer (s : State) (opening answer : Header) : Type 0 where
  pub flags : answer.ctrl ≡ syn + ack
  pub source : answer.source ≡ s.dest_port
  pub destination : answer.destination ≡ s.src_port
  pub ack_num : answer.ack_num ≡ u32 (opening.seq_num + 1)
  pub payload : answer.payload ≡ []

-- The segment with which a client completes the handshake, by what it has read.
abbrev pub reply_to : Header → Header
reply_to answer = record Tcp.blank {
  source = answer.destination;
  destination = answer.source;
  seq_num = answer.ack_num;
  ack_num = u32 (answer.seq_num + 1);
  ctrl = ack;
}

reply_to-Acknowledges :
    (answer : Header) → answer.seq_num + 1 < 4294967296 → Acknowledges answer (reply_to answer)
unfolding has_flag
reply_to-Acknowledges answer h = record {
  has_ack = refl;
  no_syn = refl;
  no_rst = refl;
  no_fin = refl;
  no_psh = refl;
  payload = refl;
  ack_num = omega arith;
}

-- How a connection opens: the first segment is answered by one frame, and the reply to what stands in it establishes
-- the connection, to the port of the State.
pub record Opens (platform : Platform) (env : Env) (ae : ArpEntry) (i : Interface)
    (opening : Header) (now later : ℕ) (s : State) : Type 0 where
  pub first : Proc
  pub packet : List ℕ
  pub answer : Header
  pub second : Proc
  pub answered : handle_segment platform env opening now s ≡ ok first
  pub framed : first.effects ≡ sent env i ae packet
  pub read : Tcp.unmarshal Tcp.blank (drop 20 packet) ≡ ok (answer, none)
  pub answers : IsAnswer s opening answer
  pub completed : handle_segment platform env (reply_to answer) later first.state ≡ ok second
  pub is_established : second.state.state ≡ established
  pub effects : second.effects ≡ serve s.dest_port ∷ socket_write [] ∷ []

-- In LISTEN, between IPv4 addresses, with a next hop and an interface, with ports of 16 bits and an initial sequence
-- number at least three below 2 ^ 32, a SYN is answered by one frame and nothing else; the bytes of the segment in
-- it are parsed as a SYN|ACK between the same ports that acknowledges the SYN; and a client's ACK of the number that
-- it reads there brings the State to ESTABLISHED and starts the service of the port.
pub handle_segment-Opens :
    (platform : Platform) (env : Env) (hdr : Header) (now later : ℕ) (s : State) (ae : ArpEntry)
    (i : Interface) (is : List Interface)
    → s.state ≡ listen
    → has_flag hdr syn ≡ true
    → IsV4 s
    → next_hop env s.src_ip ≡ some ae
    → env.interfaces ≡ i ∷ is
    → s.dest_port < 65536
    → s.src_port < 65536
    → s.initial_send_sequence_number + 2 < 4294967296
    → Opens platform env ae i hdr now later s
handle_segment-Opens platform env hdr now later s ae i is l f v hop ifs to from iss =
    let s' = begun hdr now s in
    let v' : IsV4 s' = begun-IsV4 hdr now s v in
    let (packet, e, k) = handle_segment-opens platform env hdr now s ae i is l f v hop ifs in
    let (packet', src, dst, e', inside) = packet_segment platform s' v' in
    let same : packet ≡ packet' = cc (e, e') in
    let (answer, q, says) = read_segment s' src dst to from (omega arith) (omega arith) in
    let second_seq : answer.seq_num ≡ s.initial_send_sequence_number + 1 =
      says.seq_num ∙ (omega arith) in
    let (second, c, st, una, es) =
      establishes platform env answer (reply_to answer)
        (reply_to-Acknowledges answer (omega (arith, second_seq))) later
        (record s' {
          id = u32 (s.id + 1);
          send_next = u32 (u32 (s.initial_send_sequence_number + 1) + 1);
          state = syn_received;
        })
        refl (omega (arith, second_seq)) (omega (arith, second_seq)) in
    record {
      first = _;
      packet = packet;
      answer = answer;
      second = second;
      answered = k;
      framed = refl;
      read =
          ap (λ b. Tcp.unmarshal Tcp.blank (drop 20 b)) same
          ∙ ap (Tcp.unmarshal Tcp.blank) inside
          ∙ q;
      answers = record {
        flags = says.flags;
        source = says.source;
        destination = says.destination;
        ack_num = says.ack_num;
        payload = says.payload;
      };
      completed = c;
      is_established = st;
      effects = es ∙ ap (λ n. serve n ∷ socket_write [] ∷ []) says.source;
    }
