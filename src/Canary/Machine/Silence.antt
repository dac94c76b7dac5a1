-- ===== src/Canary/Machine/Silence.antt =====
-- What `handleTCP` in canary_linux.go means to do and never does: report a TCP port scan, and close
-- an established connection on a RST.
use dynamic_labyrinth.Base.{
  ℕ, ◌≡◌, Bool, true, false, not, ◌&&◌, ◌||◌, List, [], ◌∷◌, ◌++◌, arith, ok, err, panic, refl,
  >>=-ok, ◌>>=◌, if◌then◌else◌, Outcome, Option,
}
use dynamic_labyrinth.Packet.Ipv4
use dynamic_labyrinth.Packet.Ipv4.{Platform}
use dynamic_labyrinth.Packet.Tcp.{Header, fin, syn, rst, psh, ack, has_flag}
use dynamic_labyrinth.Canary.Types.{
  closed, listen, syn_received, established, fin_wait1, fin_wait2, closing, time_wait, close_wait,
  State, Env, ArpEntry,
}
use dynamic_labyrinth.Canary.Send.{
  Effect, removed, socket_write, socket_flush, serve, knock_tcp, send, frame_effects, ip_packet,
  next_hop,
}
use dynamic_labyrinth.Canary.Machine.{
  Proc, Flow, emit, enter, advance_send, advance_recv, at_seq, is_in, finish, after_send, transmit,
  on_listen, on_rst, on_syn, on_closing, on_handshake, on_ack, on_data, on_knock, on_fin, on_acked,
  segment_flow, handle_segment,
}
use dynamic_labyrinth.Canary.Machine.Phases.{bind-ok}

abbrev pub not_knock : Effect → Bool
not_knock (knock_tcp port) = false
not_knock _ = true

-- No TCP knock is among the effects.
abbrev pub quiet : List Effect → Bool
quiet [] = true
quiet (e ∷ es) = not_knock e && quiet es

quiet-append : (xs ys : List Effect) → quiet xs ≡ true → quiet ys ≡ true → quiet (xs ++ ys) ≡ true
quiet-append [] ys h k = k
quiet-append (x ∷ xs) ys h k = ground (arith, quiet-append xs ys)

quiet-emit :
    (p : Proc) (e : Effect)
    → quiet p.effects ≡ true
    → not_knock e ≡ true
    → quiet (p.effects ++ e ∷ []) ≡ true
quiet-emit p e h k = quiet-append p.effects (e ∷ []) h (ground arith)

-- However the phase ends, it has reported no knock.
data Quiet : Flow → Type 0 where
  going : (p : Proc) → quiet p.effects ≡ true → Quiet (ok p)
  stopped : (p : Proc) → quiet p.effects ≡ true → Quiet (err p)
  crashed : Quiet panic

Quiet-bind :
    (m : Flow) (f : Proc → Flow)
    → Quiet m
    → ((p : Proc) → m ≡ ok p → quiet p.effects ≡ true → Quiet (f p))
    → Quiet (m >>= f)
Quiet-bind (ok p) f (going _ h) k = k p refl h
Quiet-bind (err p) f (stopped _ h) k = stopped p h
Quiet-bind panic f crashed k = crashed

Quiet-if : (b : Bool) (x y : Flow) → Quiet x → Quiet y → Quiet (if b then x else y)
Quiet-if true x y h k = h
Quiet-if false x y h k = k

quiet-if :
    (b : Bool) (p q : Proc)
    → quiet p.effects ≡ true
    → quiet q.effects ≡ true
    → quiet (if b then p else q).effects ≡ true
quiet-if true p q h k = h
quiet-if false p q h k = k

frame_effects-quiet :
    (env : Env) (o : Option ArpEntry) (packet : List ℕ) (es : List Effect)
    → frame_effects env o packet ≡ ok es
    → quiet es ≡ true
unfolding frame_effects
frame_effects-quiet env o packet es h = ground arith

after_send-quiet :
    (p : Proc) (o : Outcome Ipv4.Error (State × List Effect))
    → quiet p.effects ≡ true
    → ((s : State) (es : List Effect) → o ≡ ok (s, es) → quiet es ≡ true)
    → Quiet (after_send p o)
unfolding after_send
after_send-quiet p (ok (s, es)) q all = going _ (quiet-append p.effects es q (all s es refl))
after_send-quiet p (err e) q all = going p q
after_send-quiet p panic q all = crashed

module _ (platform : Platform) (env : Env) where
  send-quiet :
      (s s' : State) (payload : List ℕ) (flags : ℕ) (es : List Effect)
      → send platform env s payload flags ≡ ok (s', es)
      → quiet es ≡ true
  unfolding send
  send-quiet s s' payload flags es h =
      let (packet, _, k) = >>=-ok (ip_packet platform s payload flags) _ h in
      let (es', e, k') = >>=-ok (frame_effects env (next_hop env s.src_ip) packet) _ k in
      let same : es' ≡ es = cc k' in
      rw (← same) (frame_effects-quiet env (next_hop env s.src_ip) packet es' e)

  transmit-Quiet :
      (p : Proc) (payload : List ℕ) (flags : ℕ)
      → quiet p.effects ≡ true
      → Quiet (transmit platform env p payload flags)
  unfolding transmit
  transmit-Quiet p payload flags q =
      after_send-quiet p (send platform env p.state payload flags) q
        (λ s es e. send-quiet p.state s payload flags es e)

  module _ (hdr : Header) where
    on_listen-Quiet : (p : Proc) → quiet p.effects ≡ true → Quiet (on_listen platform env hdr p)
    unfolding on_listen
    on_listen-Quiet p q =
        Quiet-if _ _ _ (Quiet-bind _ _ (transmit-Quiet _ [] 18 q) (λ p' e q'. stopped _ q'))
          (going p q)

    on_rst-Quiet : (p : Proc) → quiet p.effects ≡ true → Quiet (on_rst platform env hdr p)
    unfolding on_rst
    on_rst-Quiet p q =
        let reset = emit (enter p closed) removed in
        let over : Quiet (if is_in p close_wait || is_in p time_wait then err reset else ok p) =
          Quiet-if _ _ _ (stopped reset (quiet-emit p removed q refl)) (going p q) in
        Quiet-if (has_flag hdr rst) _ _
          (Quiet-if (is_in p syn_received) _ _ (stopped (enter p listen) q) over) (going p q)

    on_syn-Quiet : (p : Proc) → quiet p.effects ≡ true → Quiet (on_syn platform env hdr p)
    unfolding on_syn
    on_syn-Quiet p q = Quiet-if _ _ _ (stopped p q) (Quiet-if _ _ _ (going p q) (stopped p q))

    on_closing-Quiet : (p : Proc) → quiet p.effects ≡ true → Quiet (on_closing platform env hdr p)
    unfolding on_closing
    on_closing-Quiet p q =
        let p' = if is_in p closing then enter p time_wait else p in
        let same : quiet p'.effects ≡ true = quiet-if (is_in p closing) (enter p time_wait) p q q in
        going _ (
          quiet-if (is_in p' close_wait) (emit p' removed) p' (quiet-emit p' removed same refl)
            same)

    on_handshake-Quiet :
        (p : Proc) → quiet p.effects ≡ true → Quiet (on_handshake platform env hdr p)
    unfolding on_handshake
    on_handshake-Quiet p q =
        Quiet-if _ _ _
          (Quiet-if _ _ _ (going _ (quiet-emit p (serve hdr.destination) q refl)) (stopped p q))
          (going p q)

    on_ack-quiet :
        (p p' : Proc)
        → quiet p.effects ≡ true
        → on_ack platform env hdr p ≡ ok p'
        → quiet p'.effects ≡ true
    unfolding on_ack
    on_ack-quiet p p' q e = ground arith

    on_ack-Quiet : (p : Proc) → quiet p.effects ≡ true → Quiet (on_ack platform env hdr p)
    unfolding on_ack
    on_ack-Quiet p q = going _ (on_ack-quiet p _ q refl)

    on_data-Quiet : (p : Proc) → quiet p.effects ≡ true → Quiet (on_data platform env hdr p)
    unfolding on_data
    on_data-Quiet p q =
        let w = emit p (socket_write hdr.payload) in
        let written : quiet w.effects ≡ true = quiet-emit p (socket_write hdr.payload) q refl in
        let pushed =
          quiet-if (has_flag hdr psh) (emit w socket_flush) w
            (quiet-emit w socket_flush written refl) written in
        Quiet-if _ _ _ (Quiet-if _ _ _ (transmit-Quiet _ [] ack pushed) (going _ pushed))
          (going p q)

    on_knock-Quiet :
        (p : Proc)
        → has_flag hdr syn ≡ false
        → quiet p.effects ≡ true
        → Quiet (on_knock platform env hdr p)
    unfolding on_knock
    on_knock-Quiet p n q = rw n (going p q)

    on_fin-Quiet : (p : Proc) → quiet p.effects ≡ true → Quiet (on_fin platform env hdr p)
    unfolding on_fin
    on_fin-Quiet p q =
        let r = at_seq platform env hdr p in
        let flushed = advance_recv (emit r socket_flush) 1 in
        let shut =
          Quiet-bind (transmit platform env flushed [] 17)
            (λ s. ok (enter (advance_send s 1) close_wait))
            (transmit-Quiet flushed [] 17 (quiet-emit p socket_flush q refl))
            (λ s e q'. going (enter (advance_send s 1) close_wait) q') in
        let acked =
          Quiet-bind (transmit platform env (advance_recv r 1) [] ack) (λ s. ok (enter s time_wait))
            (transmit-Quiet (advance_recv r 1) [] ack q) (λ s e q'. going (enter s time_wait) q') in
        Quiet-if (not (has_flag hdr fin)) _ _ (stopped p q) (
          Quiet-if (is_in r syn_received || is_in r established) _ _ shut (
            Quiet-if (is_in r fin_wait1) _ _ (going (enter r closing) q)
              (Quiet-if (is_in r fin_wait2) _ _ acked (going r q))))

    on_acked-Quiet :
        (p : Proc)
        → has_flag hdr syn ≡ false
        → quiet p.effects ≡ true
        → Quiet (on_acked platform env hdr p)
    unfolding on_acked
    on_acked-Quiet p n q =
        let c = Quiet-bind _ _ (on_closing-Quiet p q) (λ r e. on_handshake-Quiet r) in
        let d =
          Quiet-bind _ _ (Quiet-bind _ _ c (λ r e. on_ack-Quiet r)) (λ r e. on_data-Quiet r) in
        Quiet-bind _ _ (Quiet-bind _ _ d (λ r e. on_knock-Quiet r n)) (λ r e. on_fin-Quiet r)

    on_syn-ok : (p p' : Proc) → on_syn platform env hdr p ≡ ok p' → has_flag hdr syn ≡ false
    unfolding on_syn
    on_syn-ok p p' h = ground arith

    segment_flow-Quiet : (now : ℕ) (s : State) → Quiet (segment_flow platform env hdr now s)
    unfolding segment_flow
    segment_flow-Quiet now s =
        let p : Proc = record { state = record s { t = now }; effects = [] } in
        let a = Quiet-bind _ _ (on_listen-Quiet p refl) (λ r e. on_rst-Quiet r) in
        Quiet-bind _ _ (Quiet-bind _ _ a (λ r e. on_syn-Quiet r)) (λ r e.
          let (m, _, y) = bind-ok _ (on_syn platform env hdr) e in
          on_acked-Quiet r (on_syn-ok m r y))

finish-quiet : (f : Flow) (p : Proc) → Quiet f → finish f ≡ ok p → quiet p.effects ≡ true
finish-quiet (ok r) p (going _ q) h = ground arith
finish-quiet (err r) p (stopped _ q) h = ground arith
finish-quiet panic p crashed h = cc

-- Whatever the segment and the state, handling a segment sends no KnockTCPPort to the knock channel:
-- a TCP port scan is never reported.
pub handle_segment-quiet :
    (platform : Platform) (env : Env) (hdr : Header) (now : ℕ) (s : State) (p : Proc)
    → handle_segment platform env hdr now s ≡ ok p
    → quiet p.effects ≡ true
unfolding handle_segment
handle_segment-quiet platform env hdr now s p h =
    finish-quiet (segment_flow platform env hdr now s) p (segment_flow-Quiet platform env hdr now s)
      h

-- A RST alone in ESTABLISHED: the connection stays as it was but for its time, and nothing is sent.
pub handle_segment-rst_established :
    (platform : Platform) (env : Env) (hdr : Header) (now : ℕ) (s : State)
    → s.state ≡ established
    → has_flag hdr rst ≡ true
    → has_flag hdr ack ≡ false
    → handle_segment platform env hdr now s
      ≡ ok (record { state = record s { t = now }; effects = [] })
unfolding handle_segment segment_flow on_listen on_rst on_syn
handle_segment-rst_established platform env hdr now s e r a = ground arith
