-- ===== src/Agent/Order.antt =====
-- A connection of honeytrap/listener/agent is a queue of bytes, whatever the order of the steps.
use dynamic_labyrinth.Base.{
  ℕ, ◌≡◌, Bool, true, false, Option, some, List, [], ◌∷◌, ◌++◌, refl, sym, ap, ◌∙◌, append_assoc,
  append_nil, take-append-drop, take, drop, none,
}
use dynamic_labyrinth.Agent.{
  Phase, between, waiting, woken, ended, returned, at, Stream, Result, got, fresh, receive,
  receive_open, read_buffered, on_select, on_expire, on_wake, close_open, Action, arrive,
  begin_read, enter_select, expire, wake, close, act,
}

-- The bytes that a step takes in, and those that it hands out.
abbrev pub accepted : Action → Bool → List ℕ
accepted (arrive bytes k) false = bytes
accepted _ _ = []

abbrev pub delivered : Option Result → List ℕ
delivered (some (got bytes)) = bytes
delivered _ = []

-- All of it over a sequence of steps, and the connection after them.
pub record History : Type 0 where
  pub taken_in : List ℕ
  pub handed_out : List ℕ
  pub stream : Stream

abbrev pub after_step : Action → Bool → List ℕ → List ℕ → Stream × Option Result → History
after_step a closed i o (s, r) = record {
  taken_in = i ++ accepted a closed;
  handed_out = o ++ delivered r;
  stream = s;
}

abbrev pub next : Action → History → History
next a h = after_step a h.stream.closed h.taken_in h.handed_out (act a h.stream)

abbrev pub history : List Action → History → History
history [] h = h
history (a ∷ as') h = history as' (next a h)

abbrev pub begun : History
begun = record { taken_in = []; handed_out = []; stream = fresh }

-- What has come in is what has gone out, and then what is in the buffer.
abbrev pub IsQueue : History → Type 0
IsQueue h = h.taken_in ≡ h.handed_out ++ h.stream.buff

-- One step keeps the bytes in their order.
InOrder : List ℕ → Stream → Stream × Option Result → Type 0
InOrder bytes s (s', r) = s.buff ++ bytes ≡ delivered r ++ s'.buff

taken-InOrder : (n : ℕ) (buff : List ℕ) → buff ++ [] ≡ take n buff ++ drop n buff
taken-InOrder n buff = append_nil buff ∙ sym (take-append-drop n buff)

begin_read-InOrder :
    (n : ℕ) (buff : List ℕ) (s : Stream) → buff ≡ s.buff → InOrder [] s (read_buffered n buff s)
unfolding InOrder
begin_read-InOrder n [] s e = append_nil s.buff
begin_read-InOrder n (b ∷ buff) s e = taken-InOrder n s.buff

select-InOrder :
    (k : ℕ) (p : Phase) (closed : Bool) (s : Stream)
    → closed ≡ s.closed
    → InOrder [] s (on_select k p s)
unfolding InOrder
select-InOrder k (between n) true s e = rw (sym e) (append_nil s.buff)
select-InOrder k (between n) false s e = rw (sym e) (append_nil s.buff)
select-InOrder k (waiting n) closed s e = append_nil s.buff
select-InOrder k (woken n) closed s e = append_nil s.buff
select-InOrder k ended closed s e = append_nil s.buff
select-InOrder k returned closed s e = append_nil s.buff

expire-InOrder : (k : ℕ) (p : Phase) (s : Stream) → InOrder [] s (on_expire k p s)
unfolding InOrder
expire-InOrder k (between n) s = append_nil s.buff
expire-InOrder k (waiting n) s = append_nil s.buff
expire-InOrder k (woken n) s = append_nil s.buff
expire-InOrder k ended s = append_nil s.buff
expire-InOrder k returned s = append_nil s.buff

wake-InOrder : (k : ℕ) (p : Phase) (s : Stream) → InOrder [] s (on_wake k p s)
unfolding InOrder
wake-InOrder k (between n) s = append_nil s.buff
wake-InOrder k (waiting n) s = append_nil s.buff
wake-InOrder k (woken n) s = taken-InOrder n s.buff
wake-InOrder k ended s = append_nil s.buff
wake-InOrder k returned s = append_nil s.buff

arrive-InOrder :
    (bytes : List ℕ) (k : ℕ) (closed : Bool) (s : Stream)
    → InOrder (accepted (arrive bytes k) closed) s (receive_open closed bytes k s, none)
unfolding InOrder
arrive-InOrder bytes k true s = append_nil s.buff
arrive-InOrder bytes k false s = refl

close-InOrder : (closed : Bool) (s : Stream) → InOrder [] s (close_open closed s, none)
unfolding InOrder
close-InOrder true s = append_nil s.buff
close-InOrder false s = append_nil s.buff

act-InOrder : (a : Action) (s : Stream) → InOrder (accepted a s.closed) s (act a s)
unfolding act receive
act-InOrder (arrive bytes k) s = arrive-InOrder bytes k s.closed s
act-InOrder (begin_read n) s = begin_read-InOrder n s.buff s refl
act-InOrder (enter_select k) s = select-InOrder k (at k s.calls) s.closed s refl
act-InOrder (expire k) s = expire-InOrder k (at k s.calls) s
act-InOrder (wake k) s = wake-InOrder k (at k s.calls) s
act-InOrder close s = close-InOrder s.closed s

next-IsQueue : (a : Action) (h : History) → IsQueue h → IsQueue (next a h)
unfolding InOrder
next-IsQueue a h q =
    let s = h.stream in
    let r = act a s in
    ap (λ l. l ++ accepted a s.closed) q
    ∙ append_assoc h.handed_out s.buff (accepted a s.closed)
    ∙ ap (λ l. h.handed_out ++ l) (act-InOrder a s)
    ∙ sym (append_assoc h.handed_out (delivered r.1) r.0.buff)

pub history-IsQueue_from :
    (actions : List Action) (h : History) → IsQueue h → IsQueue (history actions h)
history-IsQueue_from [] h q = q
history-IsQueue_from (a ∷ actions) h q =
    history-IsQueue_from actions (next a h) (next-IsQueue a h q)

-- Whatever steps a new connection takes, in whatever order and with whatever calls of `Read` at once, the bytes that have been taken in while it was open
-- are those that `Read` has handed out, in order, and then those in the buffer.
pub history-IsQueue : (actions : List Action) → IsQueue (history actions begun)
history-IsQueue actions = history-IsQueue_from actions begun refl
