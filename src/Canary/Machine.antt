-- ===== src/Canary/Machine.antt =====
-- The TCP state machine: `handleTCP` of honeytrap/listener/canary/canary_linux.go from the point
-- where it holds a State, and `write` and `close` of state.go. `err p` is an early return. A method
-- of Socket has a value receiver, so `state.socket.close()` changes a copy and nothing else.
mod Phases
pub mod Diagram
pub mod Silence
pub mod Handshake
mod Wire
pub mod Opened
use dynamic_labyrinth.Base.{
  ℕ, ◌+◌, Bool, true, false, not, ◌&&◌, ◌||◌, List, [], ◌∷◌, ◌++◌, length, ltb, leb, if◌then◌else◌,
  Outcome, ok, err, panic, ◌>>=◌,
}
use dynamic_labyrinth.Packet.Checksum.{u32}
use dynamic_labyrinth.Packet.Ipv4
use dynamic_labyrinth.Packet.Ipv4.{Platform}
use dynamic_labyrinth.Packet.Tcp.{Header, fin, syn, rst, psh, ack, has_flag}
use dynamic_labyrinth.Canary.Types.{
  SocketState, closed, listen, syn_received, established, fin_wait1, fin_wait2, closing, time_wait,
  close_wait, same_state, State, Env,
}
use dynamic_labyrinth.Canary.Send.{
  Effect, removed, socket_write, socket_flush, serve, knock_tcp, send,
}

-- The State and the effects so far.
pub record Proc : Type 0 where
  pub state : State
  pub effects : List Effect

abbrev pub Flow : Type 0
Flow = Outcome Proc Proc

abbrev pub emit : Proc → Effect → Proc
emit p e = record p { effects = p.effects ++ (e ∷ []) }

abbrev pub enter : Proc → SocketState → Proc
enter p st = record p { state = record p.state { state = st } }

abbrev pub is_in : Proc → SocketState → Bool
is_in p st = same_state p.state.state st

-- What the caller of `send` goes on with: an error of `send` is dropped.
unfoldable pub after_send : Proc → Outcome Ipv4.Error (State × List Effect) → Flow
after_send p (ok (s, es)) = ok (record { state = s; effects = p.effects ++ es })
after_send p (err e) = ok p
after_send p panic = panic

-- SND.NXT and RCV.NXT, as uint32s.
abbrev pub advance_send : Proc → ℕ → Proc
advance_send p n = record p { state = record p.state { send_next = u32 (p.state.send_next + n) } }

abbrev pub advance_recv : Proc → ℕ → Proc
advance_recv p n = record p { state = record p.state { recv_next = u32 (p.state.recv_next + n) } }

module _ (platform : Platform) (env : Env) where
  unfoldable pub transmit : Proc → List ℕ → ℕ → Flow
  transmit p payload flags = after_send p (send platform env p.state payload flags)

  -- `write`: PSH|ACK with the bytes.
  unfoldable pub write : Proc → List ℕ → Flow
  write p bytes = transmit p bytes 24 >>= λ p'. ok (advance_send p' (length bytes))

  -- `close`: FIN|ACK, and on to FIN-WAIT-1 from any state.
  unfoldable pub close : Proc → Flow
  close p = transmit p [] 17 >>= λ p'. ok (enter (advance_send p' 1) fin_wait1)

  module _ (hdr : Header) where
    -- A SYN in LISTEN is answered by SYN|ACK.
    unfoldable pub on_listen : Proc → Flow
    on_listen p =
        let s = p.state in
        let begun = record s {
          send_unacknowledged = s.initial_send_sequence_number;
          send_next = u32 (s.initial_send_sequence_number + 1);
          recv_next = u32 (hdr.seq_num + 1);
        } in
        if is_in p listen && has_flag hdr syn
        then (transmit (record p { state = begun }) [] 18 >>= λ p'.
            err (enter (advance_send p' 1) syn_received))
        else ok p

    -- The switch on RST. Go's cases do not fall through: only CLOSE-WAIT and TIME-WAIT do anything.
    unfoldable pub on_rst : Proc → Flow
    on_rst p =
        let reset : Flow = err (emit (enter p closed) removed) in
        if has_flag hdr rst
        then (if is_in p syn_received
            then err (enter p listen)
            else (if is_in p close_wait || is_in p time_wait then reset else ok p))
        else ok p

    -- A SYN, or a segment without ACK, goes no further.
    unfoldable pub on_syn : Proc → Flow
    on_syn p = if has_flag hdr syn then err p else (if has_flag hdr ack then ok p else err p)

    unfoldable pub on_closing : Proc → Flow
    on_closing p =
        let p' = if is_in p closing then enter p time_wait else p in
        ok (if is_in p' close_wait then emit p' removed else p')

    abbrev pub acceptable : Proc → Bool
    acceptable p = leb p.state.send_unacknowledged hdr.ack_num && leb hdr.ack_num p.state.send_next

    unfoldable pub on_handshake : Proc → Flow
    on_handshake p =
        if is_in p syn_received
        then (if acceptable p
            then ok (emit (enter p established) (serve hdr.destination))
            else err p)
        else ok p

    unfoldable pub on_ack : Proc → Flow
    on_ack p =
        let acked = record p { state = record p.state { send_unacknowledged = hdr.ack_num } } in
        let p' = if acceptable p then acked else p in
        ok (
          if is_in p' fin_wait1
          then enter p' fin_wait2
          else (if is_in p' fin_wait2 then enter p' time_wait else p'))

    unfoldable pub on_data : Proc → Flow
    on_data p =
        let written = emit p (socket_write hdr.payload) in
        let pushed = if has_flag hdr psh then emit written socket_flush else written in
        let counted = advance_recv pushed (length hdr.payload) in
        if is_in p established || (is_in p fin_wait1 || is_in p fin_wait2)
        then (if ltb 0 (length hdr.payload) then transmit counted [] ack else ok counted)
        else ok p

    unfoldable pub on_knock : Proc → Flow
    on_knock p = ok (if has_flag hdr syn then emit p (knock_tcp hdr.destination) else p)

    abbrev pub at_seq : Proc → Proc
    at_seq p = record p { state = record p.state { recv_next = hdr.seq_num } }

    unfoldable pub on_fin : Proc → Flow
    on_fin p =
        let q = at_seq p in
        if not (has_flag hdr fin)
        then err p
        else (if is_in q syn_received || is_in q established
            then (transmit (advance_recv (emit q socket_flush) 1) [] 17 >>= λ r.
                ok (enter (advance_send r 1) close_wait))
            else (if is_in q fin_wait1
                then ok (enter q closing)
                else (if is_in q fin_wait2
                    then (transmit (advance_recv q 1) [] ack >>= λ r. ok (enter r time_wait))
                    else ok q)))

    -- The part behind the checks of RST, SYN and ACK.
    unfoldable pub on_acked : Proc → Flow
    on_acked p = on_closing p >>= on_handshake >>= on_ack >>= on_data >>= on_knock >>= on_fin

    unfoldable pub segment_flow : ℕ → State → Flow
    segment_flow now s =
        let p : Proc = record { state = record s { t = now }; effects = [] } in
        on_listen p >>= on_rst >>= on_syn >>= on_acked

-- An early return and the end of the function both leave the State and the effects.
abbrev pub finish : Flow → Outcome (Unit {0}) Proc
finish (ok p) = ok p
finish (err p) = ok p
finish panic = panic

unfoldable pub handle_segment : Platform → Env → Header → ℕ → State → Outcome (Unit {0}) Proc
handle_segment platform env hdr now s = finish (segment_flow platform env hdr now s)
