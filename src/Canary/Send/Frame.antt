-- ===== src/Canary/Send/Frame.antt =====
-- When `send` of canary_linux.go emits a frame, and when it panics.
use dynamic_labyrinth.Base.{
  ℕ, ◌+◌, ◌/◌, ◌%◌, ◌≡◌, ◌↔◌, ◌⊎◌, Option, none, some, List, [], ◌∷◌, ◌++◌, length, ok, err, panic,
  arith, refl, Outcome, ◌>>=◌,
}
use dynamic_labyrinth.Base.Ip.{v4}
use dynamic_labyrinth.Packet.Checksum.{u32}
use dynamic_labyrinth.Packet.Ipv4
use dynamic_labyrinth.Packet.Ipv4.{Platform}
use dynamic_labyrinth.Packet.Ethernet
use dynamic_labyrinth.Canary.Types.{State, Env, ArpEntry, Interface, descriptor}
use dynamic_labyrinth.Canary.Send.{
  Effect, buffer_write, epoll_modify, quad_of, ip_header, next_hop, ip_packet, frame_effects, send,
}

-- Both ends are IPv4 addresses.
pub record IsV4 (s : State) : Type 0 where
  pub a : ℕ
  pub b : ℕ
  pub c : ℕ
  pub d : ℕ
  pub src : s.src_ip ≡ v4 a b c d
  pub e : ℕ
  pub f : ℕ
  pub g : ℕ
  pub h : ℕ
  pub dest : s.dest_ip ≡ v4 e f g h

-- The Ethernet frame around a packet.
abbrev pub framed : Interface → ArpEntry → List ℕ → List ℕ
framed i ae packet =
    Ethernet.marshal (record {
      source = i.hardware_addr;
      destination = ae.hardware_address;
      type = 2048;
      payload = [];
    })
    ++ packet

-- What `send` hands over: the length of the frame as two bytes, the frame, and the wish to write.
abbrev pub sent : Env → Interface → ArpEntry → List ℕ → List Effect
sent env i ae packet =
    let n = length (framed i ae packet) in
    buffer_write ((n / 256 % 256) ∷ (n % 256) ∷ [])
    ∷ buffer_write (framed i ae packet)
    ∷ epoll_modify (descriptor env.descriptors ae.interface)
    ∷ []

ip_packet-ok :
    (platform : Platform) (s : State) (payload : List ℕ) (flags : ℕ)
    → IsV4 s
    → (packet : List ℕ) × (ip_packet platform s payload flags ≡ ok packet)
unfolding ip_packet Ipv4.marshal quad_of ip_header
ip_packet-ok platform s payload flags v = rw (v.src, v.dest) (_, refl)

pub send-ok :
    (platform : Platform) (env : Env) (s : State) (payload : List ℕ) (flags : ℕ) (ae : ArpEntry)
    (i : Interface) (is : List Interface)
    → IsV4 s
    → next_hop env s.src_ip ≡ some ae
    → env.interfaces ≡ i ∷ is
    → (packet : List ℕ) × (ip_packet platform s payload flags ≡ ok packet)
      × (send platform env s payload flags
          ≡ ok (record s { id = u32 (s.id + 1) }, sent env i ae packet))
unfolding send frame_effects
send-ok platform env s payload flags ae i is v hop ifs =
    let (packet, e) = ip_packet-ok platform s payload flags v in (packet, e, rw (e, hop, ifs) refl)

before_ok :
    {A B : Type 0} (m : Outcome Ipv4.Error A) (f : A → B)
    → (m >>= λ x. ok (f x)) ≡ panic
    → m ≡ panic
before_ok (ok x) f h = cc
before_ok (err e) f h = cc
before_ok panic f h = refl

frame_effects-eq-panic :
    (env : Env) (o : Option ArpEntry) (packet : List ℕ)
    → (frame_effects env o packet ≡ panic) ↔ ((o ≡ none) ⊎ (env.interfaces ≡ []))
unfolding frame_effects
frame_effects-eq-panic env o packet = ground arith

-- Between IPv4 addresses, `send` panics exactly where neither the ARP cache nor the gateway of a
-- route gives a next hop, or where there is no interface.
pub send-eq-panic :
    (platform : Platform) (env : Env) (s : State) (payload : List ℕ) (flags : ℕ)
    → IsV4 s
    → (send platform env s payload flags ≡ panic)
      ↔ ((next_hop env s.src_ip ≡ none) ⊎ (env.interfaces ≡ []))
unfolding send
send-eq-panic platform env s payload flags v =
    let (packet, e) = ip_packet-ok platform s payload flags v in
    let (to, from) = frame_effects-eq-panic env (next_hop env s.src_ip) packet in
    rw e (
      (λ q. to (before_ok (frame_effects env (next_hop env s.src_ip) packet) _ q)),
      (λ q. rw (from q) refl),
    )
