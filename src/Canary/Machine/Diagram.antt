-- ===== src/Canary/Machine/Diagram.antt =====
-- The transitions of the TCP machine of canary_linux.go, as a diagram.
use dynamic_labyrinth.Base.{ℕ, ◌≡◌, ◌≢◌, ◌⊎◌, inl, inr, arith, ok, err, panic, ap, [], ◌∙◌, ◌>>=◌}
use dynamic_labyrinth.Packet.Ipv4.{Platform}
use dynamic_labyrinth.Packet.Tcp.{Header}
use dynamic_labyrinth.Canary.Types.{
  SocketState, closed, listen, syn_received, established, fin_wait1, fin_wait2, closing, time_wait,
  close_wait, State, Env,
}
use dynamic_labyrinth.Canary.Machine.{
  Proc, Flow, finish, on_listen, on_rst, on_syn, on_data, on_knock, on_fin, on_acked, segment_flow,
  handle_segment,
}
use dynamic_labyrinth.Canary.Machine.Phases.{
  status, Ends, bind-Ends, bind-ok, bind-err, after_ack, on_listen-ok, on_listen-err, on_rst-ok,
  on_rst-err, on_syn-Ends, on_data-ok, on_data-ne-err, on_fin-Ends, acks, acks-ok, acks-err,
}

infix 40 ◌⟶◌
pub data ◌⟶◌ : SocketState → SocketState → Type 0 where
  stay : {s : SocketState} → s ⟶ s
  -- a SYN opens, a RST during the handshake reopens, and the ACK of the handshake establishes
  open_syn : listen ⟶ syn_received
  reopen : syn_received ⟶ listen
  accept : syn_received ⟶ established
  -- a FIN of the peer
  accept_fin : syn_received ⟶ close_wait
  peer_fin : established ⟶ close_wait
  -- after a FIN of our own
  fin_acked : fin_wait1 ⟶ fin_wait2
  fin_and_ack : fin_wait1 ⟶ time_wait
  second : fin_wait2 ⟶ time_wait
  closed_both : closing ⟶ time_wait
  -- a RST after the close
  reset_close : close_wait ⟶ closed
  reset_time : time_wait ⟶ closed

ruleset edges = (
  stay, open_syn, reopen, accept, accept_fin, peer_fin, fin_acked, fin_and_ack, second, closed_both,
  reset_close, reset_time,
)

stay_of : {a b : SocketState} → b ≡ a → a ⟶ b
stay_of e = rw e stay

rst_edge :
    {a b : SocketState}
    → ((a ≡ syn_received) × (b ≡ listen))
      ⊎ ((a ≡ close_wait) × (b ≡ closed))
      ⊎ ((a ≡ time_wait) × (b ≡ closed))
    → a ⟶ b
rst_edge h = grind (arith, edges)

-- The phases on the ACK, and then what a FIN may do.
acked_edge :
    (a b : SocketState)
    → (b ≡ after_ack a)
      ⊎ ((after_ack a ≡ syn_received) × (b ≡ close_wait))
      ⊎ ((after_ack a ≡ established) × (b ≡ close_wait))
      ⊎ ((after_ack a ≡ fin_wait1) × (b ≡ closing))
      ⊎ ((after_ack a ≡ fin_wait2) × (b ≡ time_wait))
    → a ⟶ b
acked_edge a b h = grind (arith, edges)

-- The state before the FIN check put into what the check may do.
acked_cases :
    (a : SocketState) {m b : SocketState}
    → m ≡ after_ack a
    → (b ≡ m)
      ⊎ ((m ≡ syn_received) × (b ≡ close_wait))
      ⊎ ((m ≡ established) × (b ≡ close_wait))
      ⊎ ((m ≡ fin_wait1) × (b ≡ closing))
      ⊎ ((m ≡ fin_wait2) × (b ≡ time_wait))
    → (b ≡ after_ack a)
      ⊎ ((after_ack a ≡ syn_received) × (b ≡ close_wait))
      ⊎ ((after_ack a ≡ established) × (b ≡ close_wait))
      ⊎ ((after_ack a ≡ fin_wait1) × (b ≡ closing))
      ⊎ ((after_ack a ≡ fin_wait2) × (b ≡ time_wait))
acked_cases a e h = rw (← e) h

finish-ok : (f : Flow) {p : Proc} → finish f ≡ ok p → Ends f p
finish-ok (ok q) h = inl (ground arith)
finish-ok (err q) h = inr (ground arith)
finish-ok panic h = cc

module _ (platform : Platform) (env : Env) (hdr : Header) where
  on_knock-ok : (p p' : Proc) → on_knock platform env hdr p ≡ ok p' → status p' ≡ status p
  unfolding on_knock
  on_knock-ok p p' h = ground arith

  on_knock-ne-err : (p p' : Proc) → on_knock platform env hdr p ≢ err p'
  unfolding on_knock
  on_knock-ne-err p p' h = cc

  -- The state before the FIN check, and that none of these phases but the first returns early.
  data_knock-ok :
      (p q : Proc)
      → (acks platform env hdr p >>= on_data platform env hdr >>= on_knock platform env hdr) ≡ ok q
      → status q ≡ after_ack (status p)
  data_knock-ok p q h =
      let (q2, h2, k) = bind-ok _ (on_knock platform env hdr) h in
      let (q1, h1, d) = bind-ok _ (on_data platform env hdr) h2 in
      on_knock-ok q2 q k ∙ on_data-ok platform env hdr q1 q2 d ∙ acks-ok platform env hdr p q1 h1

  data_knock-err :
      (p q : Proc)
      → (acks platform env hdr p >>= on_data platform env hdr >>= on_knock platform env hdr) ≡ err q
      → status q ≡ status p
  data_knock-err p q h = elim (bind-err _ (on_knock platform env hdr) h) [
    | inl (q2, _, k) ↦ absurd (on_knock-ne-err q2 q k)
    | inr h2 ↦ elim (bind-err _ (on_data platform env hdr) h2) [
      | inl (q1, _, d) ↦ absurd (on_data-ne-err platform env hdr q1 q d)
      | inr h1 ↦ acks-err platform env hdr p q h1
    ]
  ]

  on_acked-Ends : (p p' : Proc) → Ends (on_acked platform env hdr p) p' → status p ⟶ status p'
  unfolding on_acked acks
  on_acked-Ends p p' h = elim (bind-Ends _ (on_fin platform env hdr) h) [
    | inr e ↦ stay_of (data_knock-err p p' e)
    | inl (q, e, f) ↦
        acked_edge (status p) (status p')
          (acked_cases (status p) (data_knock-ok p q e) (on_fin-Ends platform env hdr q p' f))
  ]

  checked-ok :
      (p q : Proc)
      → (on_listen platform env hdr p >>= on_rst platform env hdr >>= on_syn platform env hdr)
        ≡ ok q
      → status q ≡ status p
  checked-ok p q h =
      let (q2, h2, y) = bind-ok _ (on_syn platform env hdr) h in
      let (q1, h1, r) = bind-ok _ (on_rst platform env hdr) h2 in
      ap status (
        on_syn-Ends platform env hdr q2 q (inl y)
        ∙ on_rst-ok platform env hdr q1 q2 r
        ∙ on_listen-ok platform env hdr p q1 h1)

  checked-err :
      (p q : Proc)
      → (on_listen platform env hdr p >>= on_rst platform env hdr >>= on_syn platform env hdr)
        ≡ err q
      → status p ⟶ status q
  checked-err p q h = elim (bind-err _ (on_syn platform env hdr) h) [
    | inl (q2, h2, y) ↦
        let (q1, h1, r) = bind-ok _ (on_rst platform env hdr) h2 in
        stay_of (
          ap status (
            on_syn-Ends platform env hdr q2 q (inr y)
            ∙ on_rst-ok platform env hdr q1 q2 r
            ∙ on_listen-ok platform env hdr p q1 h1))
    | inr h2 ↦ elim (bind-err _ (on_rst platform env hdr) h2) [
      | inl (q1, h1, r) ↦
          rw (← on_listen-ok platform env hdr p q1 h1)
            (rst_edge (on_rst-err platform env hdr q1 q r))
      | inr h1 ↦ let (a, b) = on_listen-err platform env hdr p q h1 in rw (a, b) open_syn
    ]
  ]

  segment_flow-Ends :
      (now : ℕ) (s : State) (p' : Proc)
      → Ends (segment_flow platform env hdr now s) p'
      → s.state ⟶ status p'
  unfolding segment_flow
  segment_flow-Ends now s p' h =
      let p : Proc = record { state = record s { t = now }; effects = [] } in
      elim (bind-Ends _ (on_acked platform env hdr) h) [
        | inl (q, e, f) ↦ rw (← checked-ok p q e) (on_acked-Ends q p' f)
        | inr e ↦ checked-err p p' e
      ]

-- Every segment moves the socket state along an edge of the diagram, or leaves it. So SYN-SENT,
-- CLOSING and LAST-ACK are never entered, ESTABLISHED is entered from SYN-RECEIVED only, and
-- CLOSED is left by no segment.
pub handle_segment-⟶ :
    (platform : Platform) (env : Env) (hdr : Header) (now : ℕ) (s : State) (p : Proc)
    → handle_segment platform env hdr now s ≡ ok p
    → s.state ⟶ p.state.state
unfolding handle_segment
handle_segment-⟶ platform env hdr now s p h =
    segment_flow-Ends platform env hdr now s p (finish-ok (segment_flow platform env hdr now s) h)
