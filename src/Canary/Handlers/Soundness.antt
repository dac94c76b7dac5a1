-- ===== src/Canary/Handlers/Soundness.antt =====
-- Every frame that `Start` handles leaves a sound table of connections.
use dynamic_labyrinth.Base.{
  ℕ, ◌≡◌, Bool, not, ◌&&◌, ◌||◌, Option, none, some, List, [], ◌∷◌, ◌++◌, length, get_elem?, set,
  arith, ◌==◌, ok, err, panic, ◌>>=◌, >>=-ok, Outcome,
}
use dynamic_labyrinth.Packet.Ethernet
use dynamic_labyrinth.Packet.Ipv4
use dynamic_labyrinth.Packet.Ipv4.{Platform}
use dynamic_labyrinth.Packet.Tcp
use dynamic_labyrinth.Packet.Segment.{Refusal, invalid_checksum, malformed}
use dynamic_labyrinth.Canary.Types.{State, Env, is_me}
use dynamic_labyrinth.Canary.StateTable.{add, get}
use dynamic_labyrinth.Canary.Machine.{handle_segment}
use dynamic_labyrinth.Canary.Handlers.{
  Node, Report, Handled, Draw, apply_removes, reports, run_state, accept_segment, filter_segment,
  handle_parsed, handle_tcp, handle_udp, handle_icmp, handle_arp, handle_ip, handle_frame, receive,
  drop_error,
}
use dynamic_labyrinth.Canary.Handlers.Tables.{IsValid}
use dynamic_labyrinth.Canary.Handlers.Changes.{
  Kept, Preserves, Kept-trans, Kept-refl, Preserves-same, Preserves-err, Preserves-panic,
  Preserves-if, written_back, added,
}

module _ (platform : Platform) (env : Env) (draw : Draw) where
  run_state-Preserves :
      (node : Node) (hdr : Tcp.Header) (p : ℕ)
      → IsValid node
      → Preserves node (run_state platform env draw node hdr p)
  unfolding run_state
  run_state-Preserves node hdr p v = at_state (get_elem? node.heap p)
    where
      at_state :
          (o : Option State)
          → Preserves node (elim o as (λ x. Handled) [
            | none ↦ panic
            | some s ↦ handle_segment platform env hdr draw.now s >>= λ proc. ok (
              record {
                heap = set node.heap p proc.state;
                table = apply_removes p proc.effects node.table;
              },
              reports proc.effects,
            )
          ])
      at_state none node' rs q = cc
      at_state (some s) node' rs q =
          let (proc, _, k) = >>=-ok (handle_segment platform env hdr draw.now s) _ q in
          let e : record {
            heap = set node.heap p proc.state;
            table = apply_removes p proc.effects node.table;
          }
              ≡ node' =
            cc k in
          rw (← e) (written_back node p proc v)

  opened-Preserves :
      (node : Node) (s : State) (hdr : Tcp.Header)
      → IsValid node
      → Preserves node (
          add (node.heap ++ (s ∷ [])) draw.now (length node.heap) node.table >>= λ table.
          run_state platform env draw
            (record { heap = node.heap ++ (s ∷ []); table = table })
            hdr
            (length node.heap))
  opened-Preserves node s hdr v node' rs q =
      let (table, a, r) =
        >>=-ok (add (node.heap ++ (s ∷ [])) draw.now (length node.heap) node.table) _ q in
      let kept = added node s draw.now table v a in
      Kept-trans kept (run_state-Preserves _ hdr (length node.heap) kept.valid node' rs r)

  found-Preserves :
      (node : Node) (hdr : Tcp.Header) (o : Option ℕ)
      → IsValid node
      → Preserves node (elim o as (λ x. Handled) [
        | none ↦ ok (node, [])
        | some p ↦ run_state platform env draw node hdr p
      ])
  found-Preserves node hdr none v = Preserves-same node [] v
  found-Preserves node hdr (some p) v = run_state-Preserves node hdr p v

  filter_segment-Preserves :
      (node : Node) (iph : Ipv4.Header) (hdr : Tcp.Header)
      → IsValid node
      → Preserves node (filter_segment platform env draw node iph hdr)
  unfolding filter_segment accept_segment
  filter_segment-Preserves node iph hdr v =
      Preserves-if node (not (is_me env.interfaces iph.dst)) _ _ (Preserves-same node [] v) (
        Preserves-if node (hdr.source == 22 || hdr.destination == 22) _ _ (Preserves-same node [] v)
          (Preserves-if node _ _ _ (opened-Preserves node _ hdr v) (
            found-Preserves node hdr
              (get node.heap node.table iph.src iph.dst hdr.source hdr.destination) v)))

  handle_parsed-Preserves :
      (node : Node) (iph : Ipv4.Header) (o : Outcome Tcp.Stuck (Tcp.Header × Option Refusal))
      → IsValid node
      → Preserves node (handle_parsed platform env draw node iph o)
  unfolding handle_parsed
  handle_parsed-Preserves node iph (ok (hdr, none)) v = filter_segment-Preserves node iph hdr v
  handle_parsed-Preserves node iph (ok (hdr, some invalid_checksum)) v =
      filter_segment-Preserves node iph hdr v
  handle_parsed-Preserves node iph (ok (hdr, some (malformed e))) v = Preserves-err node
  handle_parsed-Preserves node iph (err e) v = Preserves-err node
  handle_parsed-Preserves node iph panic v = Preserves-panic node

  handle_udp-same :
      (node : Node) (iph : Ipv4.Header) (bytes : List ℕ) (node' : Node) (rs : List Report)
      → handle_udp platform env draw node iph bytes ≡ ok (node', rs)
      → node' ≡ node
  unfolding handle_udp
  handle_udp-same node iph bytes node' rs q = ground arith

  handle_udp-Preserves :
      (node : Node) (iph : Ipv4.Header) (bytes : List ℕ)
      → IsValid node
      → Preserves node (handle_udp platform env draw node iph bytes)
  handle_udp-Preserves node iph bytes v node' rs q =
      rw (handle_udp-same node iph bytes node' rs q) (Kept-refl v)

  handle_icmp-same :
      (node : Node) (iph : Ipv4.Header) (bytes : List ℕ) (node' : Node) (rs : List Report)
      → handle_icmp platform env draw node iph bytes ≡ ok (node', rs)
      → node' ≡ node
  unfolding handle_icmp
  handle_icmp-same node iph bytes node' rs q = ground arith

  handle_icmp-Preserves :
      (node : Node) (iph : Ipv4.Header) (bytes : List ℕ)
      → IsValid node
      → Preserves node (handle_icmp platform env draw node iph bytes)
  handle_icmp-Preserves node iph bytes v node' rs q =
      rw (handle_icmp-same node iph bytes node' rs q) (Kept-refl v)

  handle_ip-Preserves :
      (node : Node) (iph : Ipv4.Header)
      → IsValid node
      → Preserves node (handle_ip platform env draw node iph)
  unfolding handle_ip handle_tcp
  handle_ip-Preserves node iph v =
      Preserves-if node (iph.protocol == 1) _ _ (handle_icmp-Preserves node iph iph.payload v) (
        Preserves-if node (iph.protocol == 6) _ _ (handle_parsed-Preserves node iph _ v) (
          Preserves-if node (iph.protocol == 17) _ _ (handle_udp-Preserves node iph iph.payload v)
            (Preserves-same node [] v)))

drop_error-Preserves :
    (node : Node) (h : Handled)
    → IsValid node
    → Preserves node h
    → Preserves node (drop_error node h)
drop_error-Preserves node (ok r) v k = k
drop_error-Preserves node (err e) v k = Preserves-same node [] v
drop_error-Preserves node panic v k = Preserves-panic node

module _ (platform : Platform) (env : Env) (draw : Draw) where
  handle_arp-same :
      (node : Node) (bytes : List ℕ) (node' : Node) (rs : List Report)
      → handle_arp platform env draw node bytes ≡ ok (node', rs)
      → node' ≡ node
  unfolding handle_arp
  handle_arp-same node bytes node' rs q = ground arith

  handle_arp-Preserves :
      (node : Node) (bytes : List ℕ)
      → IsValid node
      → Preserves node (handle_arp platform env draw node bytes)
  handle_arp-Preserves node bytes v node' rs q =
      rw (handle_arp-same node bytes node' rs q) (Kept-refl v)

  packet-Preserves :
      (node : Node) (o : Outcome Ipv4.Error Ipv4.Header)
      → IsValid node
      → Preserves node (elim o as (λ x. Handled) [
        | err e ↦ ok (node, [])
        | panic ↦ panic
        | ok iph ↦ drop_error node (handle_ip platform env draw node iph)
      ])
  packet-Preserves node (ok iph) v =
      drop_error-Preserves node _ v (handle_ip-Preserves platform env draw node iph v)
  packet-Preserves node (err e) v = Preserves-same node [] v
  packet-Preserves node panic v = Preserves-panic node

  frame-Preserves :
      (do_arp : Bool) (node : Node) (eh : Ethernet.Frame)
      → IsValid node
      → Preserves node (handle_frame platform env draw do_arp node eh)
  unfolding handle_frame
  frame-Preserves do_arp node eh v =
      Preserves-if node (eh.type == 2054 && do_arp) _ _
        (drop_error-Preserves node _ v (handle_arp-Preserves node eh.payload v))
        (Preserves-if node (eh.type == 2048) _ _
          (packet-Preserves node (Ipv4.parse platform eh.payload) v) (Preserves-same node [] v))

  parsed-Preserves :
      (do_arp : Bool) (node : Node) (o : Outcome (Unit {0}) Ethernet.Frame)
      → IsValid node
      → Preserves node (elim o as (λ x. Handled) [
        | err e ↦ ok (node, [])
        | panic ↦ panic
        | ok eh ↦ handle_frame platform env draw do_arp node eh
      ])
  parsed-Preserves do_arp node (ok eh) v = frame-Preserves do_arp node eh v
  parsed-Preserves do_arp node (err e) v = Preserves-same node [] v
  parsed-Preserves do_arp node panic v = Preserves-panic node

-- Where the pointers of the table are distinct and lead to States, they are so after any frame that
-- does not make the listener panic; the table keeps its size, and no State is lost from the heap.
pub receive-Kept :
    (platform : Platform) (env : Env) (draw : Draw) (do_arp : Bool) (node : Node) (bytes : List ℕ)
    (node' : Node) (rs : List Report)
    → IsValid node
    → receive platform env draw do_arp node bytes ≡ ok (node', rs)
    → Kept node node'
unfolding receive
receive-Kept platform env draw do_arp node [] node' rs v = Preserves-same node [] v node' rs
receive-Kept platform env draw do_arp node (b ∷ bytes) node' rs v =
    parsed-Preserves platform env draw do_arp node (Ethernet.parse (b ∷ bytes)) v node' rs
