-- ===== src/Canary/Machine/Phases.antt =====
-- What each phase of `handleTCP` in canary_linux.go does to the socket state.
use dynamic_labyrinth.Base.{◌≡◌, ◌≢◌, ◌⊎◌, inl, inr, arith, ok, err, panic, refl, ◌>>=◌}
use dynamic_labyrinth.Packet.Ipv4.{Platform}
use dynamic_labyrinth.Packet.Tcp.{Header}
use dynamic_labyrinth.Canary.Types.{
  SocketState, closed, listen, syn_received, established, fin_wait1, fin_wait2, closing, time_wait,
  close_wait, Env,
}
use dynamic_labyrinth.Canary.Send.{send}
use dynamic_labyrinth.Canary.Machine.{
  Proc, Flow, after_send, transmit, on_listen, on_rst, on_syn, on_closing, on_handshake, on_ack,
  on_data, on_fin,
}

abbrev pub status : Proc → SocketState
status p = p.state.state

-- The phase ends in this process, early or not.
abbrev pub Ends : Flow → Proc → Type 0
Ends f p = (f ≡ ok p) ⊎ (f ≡ err p)

pub bind-ok :
    (m : Flow) (f : Proc → Flow) {p : Proc}
    → (m >>= f) ≡ ok p
    → (q : Proc) × (m ≡ ok q) × (f q ≡ ok p)
bind-ok (ok q) f h = (q, refl, h)
bind-ok (err q) f h = cc
bind-ok panic f h = cc

pub bind-err :
    (m : Flow) (f : Proc → Flow) {p : Proc}
    → (m >>= f) ≡ err p
    → ((q : Proc) × (m ≡ ok q) × (f q ≡ err p)) ⊎ (m ≡ err p)
bind-err (ok q) f h = inl (q, refl, h)
bind-err (err q) f h = inr h
bind-err panic f h = cc

pub bind-Ends :
    (m : Flow) (f : Proc → Flow) {p : Proc}
    → Ends (m >>= f) p
    → ((q : Proc) × (m ≡ ok q) × Ends (f q) p) ⊎ (m ≡ err p)
bind-Ends (ok q) f h = inl (q, refl, h)
bind-Ends (err q) f (inl h) = cc
bind-Ends (err q) f (inr h) = inr h
bind-Ends panic f (inl h) = cc
bind-Ends panic f (inr h) = cc

-- The state after the phases between the SYN check and the FIN check.
abbrev pub after_ack : SocketState → SocketState
after_ack closing = time_wait
after_ack syn_received = established
after_ack fin_wait1 = fin_wait2
after_ack fin_wait2 = time_wait
after_ack st = st

module _ (platform : Platform) (env : Env) (hdr : Header) where
  pub on_listen-ok : (p p' : Proc) → on_listen platform env hdr p ≡ ok p' → p' ≡ p
  unfolding on_listen
  on_listen-ok p p' h = ground arith

  pub on_listen-err :
      (p p' : Proc)
      → on_listen platform env hdr p ≡ err p'
      → (status p ≡ listen) × (status p' ≡ syn_received)
  unfolding on_listen transmit after_send send
  on_listen-err p p' h = ground arith

  pub on_rst-ok : (p p' : Proc) → on_rst platform env hdr p ≡ ok p' → p' ≡ p
  unfolding on_rst
  on_rst-ok p p' h = ground arith

  pub on_rst-err :
      (p p' : Proc)
      → on_rst platform env hdr p ≡ err p'
      → ((status p ≡ syn_received) × (status p' ≡ listen))
        ⊎ ((status p ≡ close_wait) × (status p' ≡ closed))
        ⊎ ((status p ≡ time_wait) × (status p' ≡ closed))
  unfolding on_rst
  on_rst-err p p' h = ground arith

  pub on_syn-Ends : (p p' : Proc) → Ends (on_syn platform env hdr p) p' → p' ≡ p
  unfolding on_syn
  on_syn-Ends p p' h = ground arith

  pub on_data-ok : (p p' : Proc) → on_data platform env hdr p ≡ ok p' → status p' ≡ status p
  unfolding on_data transmit after_send send
  on_data-ok p p' h = ground arith

  pub on_data-ne-err : (p p' : Proc) → on_data platform env hdr p ≢ err p'
  unfolding on_data transmit after_send send
  on_data-ne-err p p' h = ground arith

  pub on_fin-Ends :
      (p p' : Proc)
      → Ends (on_fin platform env hdr p) p'
      → (status p' ≡ status p)
        ⊎ ((status p ≡ syn_received) × (status p' ≡ close_wait))
        ⊎ ((status p ≡ established) × (status p' ≡ close_wait))
        ⊎ ((status p ≡ fin_wait1) × (status p' ≡ closing))
        ⊎ ((status p ≡ fin_wait2) × (status p' ≡ time_wait))
  unfolding on_fin transmit after_send send
  on_fin-Ends p p' h = ground arith

  -- The phases on the ACK, as far as the data.
  unfoldable pub acks : Proc → Flow
  acks p =
      on_closing platform env hdr p >>= on_handshake platform env hdr >>= on_ack platform env hdr

  pub acks-ok : (p p' : Proc) → acks p ≡ ok p' → status p' ≡ after_ack (status p)
  unfolding acks on_closing on_handshake on_ack
  acks-ok p p' h = ground arith

  pub acks-err : (p p' : Proc) → acks p ≡ err p' → status p' ≡ status p
  unfolding acks on_closing on_handshake on_ack
  acks-err p p' h = ground arith
