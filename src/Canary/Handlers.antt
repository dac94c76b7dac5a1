-- ===== src/Canary/Handlers.antt =====
-- The handlers of honeytrap/listener/canary/canary_linux.go: `handleTCP` as a whole, `handleUDP`,
-- `handleICMP`, `handleARP`, and what `Start` does with a frame it has read. The goroutine of
-- `handleUDP` stands as what it does first: call the decoder of the port, or send a knock.
pub mod Tables
pub mod Changes
pub mod Soundness
use dynamic_labyrinth.Base.{
  ℕ, ◌+◌, Bool, true, false, not, ◌&&◌, ◌||◌, Option, none, some, List, [], ◌∷◌, ◌++◌, length,
  get_elem?, set, ◌==◌, if◌then◌else◌, Outcome, ok, err, panic, ◌>>=◌,
}
use dynamic_labyrinth.Base.Ip.{Ip}
use dynamic_labyrinth.Packet.Ethernet
use dynamic_labyrinth.Packet.Arp
use dynamic_labyrinth.Packet.Icmp
use dynamic_labyrinth.Packet.Udp
use dynamic_labyrinth.Packet.Ipv4
use dynamic_labyrinth.Packet.Ipv4.{Platform}
use dynamic_labyrinth.Packet.Tcp
use dynamic_labyrinth.Packet.Tcp.{syn, ack, has_flag}
use dynamic_labyrinth.Packet.Segment.{
  Refusal, invalid_checksum, malformed, to4byte, unmarshal_with_checksum,
}
use dynamic_labyrinth.Canary.Types.{State, listen, Env, new_state, is_me}
use dynamic_labyrinth.Canary.Send.{Effect, removed}
use dynamic_labyrinth.Canary.StateTable.{Heap, Table, add, get, remove}
use dynamic_labyrinth.Canary.Machine.{Proc, handle_segment}

-- The States that the listener has made, and its table.
pub record Node : Type 0 where
  pub heap : Heap
  pub table : Table

-- What a handler reports besides the effects of the TCP machine.
pub data Report : Type 0 where
  tcp : Effect → Report
  -- c.knockChan, with the destination port
  knock_udp : Ip → Ip → ℕ → Report
  knock_icmp : Ip → Ip → Report
  -- the decoder of this port, on the payload
  decode_udp : ℕ → List ℕ → Report
  -- an event of this category
  udp_event : Udp.Header → Report
  arp_event : Arp.Frame → Report

abbrev pub Handled : Type 0
Handled = Outcome (Unit {0}) (Node × List Report)

-- The draws of `NewState` and the time.
pub record Draw : Type 0 where
  pub random_id : ℕ
  pub random_iss : ℕ
  pub now : ℕ

abbrev pub is_removed : Effect → Bool
is_removed removed = true
is_removed _ = false

-- c.stateTable.Remove(state), for every time that the machine has called it.
unfoldable pub apply_removes : ℕ → List Effect → Table → Table
apply_removes p [] table = table
apply_removes p (e ∷ es) table = apply_removes p es (if is_removed e then remove p table else table)

unfoldable pub reports : List Effect → List Report
reports [] = []
reports (e ∷ es) = tcp e ∷ reports es

-- The ports that have a decoder.
abbrev pub has_decoder : ℕ → Bool
has_decoder port =
    port == 53 || (port == 123 || (port == 1900 || (port == 5060 || (port == 161 || port == 162))))

-- `Start` drops the error of a handler.
abbrev pub drop_error : Node → Handled → Handled
drop_error node (ok r) = ok r
drop_error node (err e) = ok (node, [])
drop_error node panic = panic

module _ (platform : Platform) (env : Env) (draw : Draw) where
  -- The rest of `handleTCP`, on the State that a pointer leads to.
  unfoldable pub run_state : Node → Tcp.Header → ℕ → Handled
  run_state node hdr p = elim (get_elem? node.heap p) [
    | none ↦ panic
    | some s ↦ handle_segment platform env hdr draw.now s >>= λ proc. ok (
      record { heap = set node.heap p proc.state; table = apply_removes p proc.effects node.table },
      reports proc.effects,
    )
  ]

  -- A SYN without ACK makes a State in LISTEN, whether or not one was found.
  unfoldable pub accept_segment : Node → Ipv4.Header → Tcp.Header → Handled
  accept_segment node iph hdr =
      let s =
        new_state iph.src hdr.source iph.dst hdr.destination draw.random_id draw.random_iss
          draw.now in
      let heap = node.heap ++ (record s { state = listen } ∷ []) in
      let p = length node.heap in
      if has_flag hdr syn && not (has_flag hdr ack)
      then (add heap draw.now p node.table >>= λ table.
          run_state (record { heap = heap; table = table }) hdr p)
      else elim (get node.heap node.table iph.src iph.dst hdr.source hdr.destination) [
        | none ↦ ok (node, [])
        | some q ↦ run_state node hdr q
      ]

  -- The checks on the address and on port 22.
  unfoldable pub filter_segment : Node → Ipv4.Header → Tcp.Header → Handled
  filter_segment node iph hdr =
      if not (is_me env.interfaces iph.dst)
      then ok (node, [])
      else (if hdr.source == 22 || hdr.destination == 22
          then ok (node, [])
          else accept_segment node iph hdr)

  -- A wrong checksum is let through; any other error ends the handler.
  unfoldable pub handle_parsed :
      Node → Ipv4.Header → Outcome Tcp.Stuck (Tcp.Header × Option Refusal) → Handled
  handle_parsed node iph (ok (hdr, none)) = filter_segment node iph hdr
  handle_parsed node iph (ok (hdr, some invalid_checksum)) = filter_segment node iph hdr
  handle_parsed node iph (ok (hdr, some (malformed e))) = err tt
  handle_parsed node iph (err e) = err tt
  handle_parsed node iph panic = panic

  unfoldable pub handle_tcp : Node → Ipv4.Header → List ℕ → Handled
  handle_tcp node iph bytes =
      handle_parsed node iph (
        to4byte iph.dst >>= λ src. to4byte iph.src >>= λ dst. unmarshal_with_checksum bytes src dst)

  unfoldable pub handle_udp : Node → Ipv4.Header → List ℕ → Handled
  handle_udp node iph bytes = elim (Udp.unmarshal bytes) [
    | err e ↦ ok (node, [])
    | panic ↦ panic
    | ok hdr ↦
        if not (is_me env.interfaces iph.dst)
        then ok (node, [])
        else (if has_decoder hdr.destination
            then ok (node, decode_udp hdr.destination hdr.payload ∷ [])
            else ok (node, knock_udp iph.src iph.dst hdr.destination ∷ udp_event hdr ∷ []))
  ]

  unfoldable pub handle_icmp : Node → Ipv4.Header → List ℕ → Handled
  handle_icmp node iph bytes = elim (Icmp.parse bytes) [
    | err e ↦ err tt
    | panic ↦ panic
    | ok i ↦
        if is_me env.interfaces iph.dst
        then ok (node, knock_icmp iph.src iph.dst ∷ [])
        else ok (node, [])
  ]

  unfoldable pub handle_arp : Node → List ℕ → Handled
  handle_arp node bytes = elim (Arp.parse bytes) [
    | err e ↦ err tt
    | panic ↦ panic
    | ok f ↦ ok (node, arp_event f ∷ [])
  ]

  -- The switch on the protocol.
  unfoldable pub handle_ip : Node → Ipv4.Header → Handled
  handle_ip node iph =
      if iph.protocol == 1
      then handle_icmp node iph iph.payload
      else (if iph.protocol == 6
          then handle_tcp node iph iph.payload
          else (if iph.protocol == 17 then handle_udp node iph iph.payload else ok (node, [])))

  -- The branches of the loop of `Start` on a parsed frame; `do_arp` is the option of the listener.
  unfoldable pub handle_frame : Bool → Node → Ethernet.Frame → Handled
  handle_frame do_arp node eh =
      if eh.type == 2054 && do_arp
      then drop_error node (handle_arp node eh.payload)
      else (if eh.type == 2048
          then elim (Ipv4.parse platform eh.payload) [
            | err e ↦ ok (node, [])
            | panic ↦ panic
            | ok iph ↦ drop_error node (handle_ip node iph)
          ]
          else ok (node, []))

  -- What the loop of `Start` does with one frame that it has read.
  unfoldable pub receive : Bool → Node → List ℕ → Handled
  receive do_arp node [] = ok (node, [])
  receive do_arp node (b ∷ bytes) = elim (Ethernet.parse (b ∷ bytes)) [
    | err e ↦ ok (node, [])
    | panic ↦ panic
    | ok eh ↦ handle_frame do_arp node eh
  ]
