-- ===== src/Agent/Sleep.antt =====
-- A notification of honeytrap/listener/agent/connection.go that is lost: `receive` sends on `in` while a `Read` is
-- between its two sections.
use dynamic_labyrinth.Base.{
  ℕ, zero, suc, ◌≡◌, ◌∙◌, Bool, false, List, [], ◌∷◌, ◌++◌, length, All, refl, ap, append_nil,
}
use mathlib.Core.Path.{subst}
use dynamic_labyrinth.Agent.{
  Phase, between, waiting, woken, ended, returned, at, rouse, notified, Stream, receive, Action,
  arrive, begin_read, enter_select, expire, wake, close, act,
}
use dynamic_labyrinth.Agent.Waiting.{IsAwake, IsQuiet, Stays, at-last, set-last, act-Stays}
use dynamic_labyrinth.Agent.Order.{
  History, history, next, begun, accepted, IsQueue, history-IsQueue, history-IsQueue_from,
}

-- The k-th call waits, although bytes have come in.
pub record IsAsleep (k n : ℕ) (bytes : List ℕ) (h : History) : Type 0 where
  pub waits : at k h.stream.calls ≡ waiting n
  pub came : h.taken_in ≡ bytes
  pub queue : IsQueue h

quiet-accepted : (k : ℕ) (a : Action) (closed : Bool) → IsQuiet k a → accepted a closed ≡ []
quiet-accepted k (begin_read m) closed q = refl
quiet-accepted k (enter_select j) closed q = refl
quiet-accepted k (wake j) closed q = refl
quiet-accepted k (expire j) closed q = refl
quiet-accepted k (arrive bytes j) closed q = absurd q
quiet-accepted k close closed q = absurd q

next-IsAsleep :
    (k n : ℕ) (bytes : List ℕ) (a : Action) (h : History)
    → IsQuiet k a
    → IsAsleep k n bytes h
    → IsAsleep k n bytes (next a h)
unfolding Stays
next-IsAsleep k n bytes a h q s = record {
  waits = act-Stays k n a h.stream q s.waits;
  came =
      ap (λ l. h.taken_in ++ l) (quiet-accepted k a h.stream.closed q)
      ∙ append_nil h.taken_in
      ∙ s.came;
  queue = history-IsQueue_from (a ∷ []) h s.queue;
}

history-IsAsleep :
    (k n : ℕ) (bytes : List ℕ) (actions : List Action) (h : History)
    → All (IsQuiet k) actions
    → IsAsleep k n bytes h
    → IsAsleep k n bytes (history actions h)
history-IsAsleep k n bytes [] h q s = s
history-IsAsleep k n bytes (a ∷ actions) h q s =
    history-IsAsleep k n bytes actions (next a h) q.1 (next-IsAsleep k n bytes a h q.0 s)

-- Where no call is in its select, a send reaches none.
rouse-awake : (calls : List Phase) → All IsAwake calls → rouse calls ≡ calls
rouse-awake [] h = refl
rouse-awake (between n ∷ calls) h = ap (λ l. between n ∷ l) (rouse-awake calls h.1)
rouse-awake (waiting n ∷ calls) h = absurd h.0
rouse-awake (woken n ∷ calls) h = ap (λ l. woken n ∷ l) (rouse-awake calls h.1)
rouse-awake (ended ∷ calls) h = ap (λ l. ended ∷ l) (rouse-awake calls h.1)
rouse-awake (returned ∷ calls) h = ap (λ l. returned ∷ l) (rouse-awake calls h.1)

at-IsAwake : (k : ℕ) (calls : List Phase) → All IsAwake calls → IsAwake (at k calls)
at-IsAwake k [] h = tt
at-IsAwake zero (p ∷ calls) h = h.0
at-IsAwake (suc k) (p ∷ calls) h = at-IsAwake k calls h.1

notified-awake :
    (k : ℕ) (p : Phase) (calls : List Phase)
    → IsAwake p
    → All IsAwake calls
    → notified k p calls ≡ calls
notified-awake k (between n) calls a h = rouse-awake calls h
notified-awake k (waiting n) calls a h = absurd a
notified-awake k (woken n) calls a h = rouse-awake calls h
notified-awake k ended calls a h = rouse-awake calls h
notified-awake k returned calls a h = rouse-awake calls h

one_more :
    (n : ℕ) (calls : List Phase) → All IsAwake calls → All IsAwake (calls ++ (between n ∷ []))
one_more n [] h = (tt, tt)
one_more n (p ∷ calls) h = (h.0, one_more n calls h.1)

-- A connection that is open and has nothing in its buffer.
abbrev empty : List Phase → Stream
empty calls = record { buff = []; closed = false; calls = calls }

abbrev filled : List ℕ → List Phase → Stream
filled bytes calls = record { buff = bytes; closed = false; calls = calls }

receive-between :
    (n k : ℕ) (bytes : List ℕ) (calls : List Phase)
    → All IsAwake calls
    → receive bytes k (empty (calls ++ (between n ∷ []))) ≡ filled bytes (calls ++ (between n ∷ []))
unfolding receive
receive-between n k bytes calls h =
    let later = one_more n calls h in
    ap (filled bytes) (
      notified-awake k (at k (calls ++ (between n ∷ []))) (calls ++ (between n ∷ []))
        (at-IsAwake k (calls ++ (between n ∷ [])) later) later)

select-between :
    (n : ℕ) (bytes : List ℕ) (calls : List Phase)
    → (act (enter_select (length calls)) (filled bytes (calls ++ (between n ∷ [])))).0
      ≡ filled bytes (calls ++ (waiting n ∷ []))
unfolding act
select-between n bytes calls =
    rw (at-last calls (between n)) (ap (filled bytes) (set-last calls (between n) (waiting n)))

-- The three steps after which the call sleeps.
abbrev pub lost : ℕ → ℕ → List ℕ → List Phase → List Action
lost n k bytes calls = begin_read n ∷ arrive bytes k ∷ enter_select (length calls) ∷ []

lost-IsAsleep :
    (n k : ℕ) (bytes i o : List ℕ) (calls : List Phase)
    → All IsAwake calls
    → IsQueue (record { taken_in = i; handed_out = o; stream = empty calls })
    → IsAsleep (length calls) n (i ++ bytes) (
        history
          (lost n k bytes calls)
          (record { taken_in = i; handed_out = o; stream = empty calls }))
unfolding act
lost-IsAsleep n k bytes i o calls h q =
    let stream =
      ap (λ s. (act (enter_select (length calls)) s).0) (receive-between n k bytes calls h)
      ∙ select-between n bytes calls in
    record {
      waits = ap (λ (s : Stream). at (length calls) s.calls) stream ∙ at-last calls (waiting n);
      came = append_nil ((i ++ []) ++ bytes) ∙ ap (λ l. l ++ bytes) (append_nil i);
      queue = history-IsQueue_from (lost n k bytes calls) _ q;
    }

-- Whatever has happened to a connection, where it is open with nothing in its buffer and no call of `Read` is in
-- its select: if data arrives between the two sections of a new call, that call stays in its select, whatever
-- steps other calls take and whatever further calls do, until more data, its own timeout or a `Close`; the data
-- is in the buffer, or other calls have read it.
pub history-sleeps :
    (before : List Action) (n k : ℕ) (bytes : List ℕ) (actions : List Action)
    → (history before begun).stream.closed ≡ false
    → (history before begun).stream.buff ≡ []
    → All IsAwake (history before begun).stream.calls
    → All (IsQuiet (length (history before begun).stream.calls)) actions
    → IsAsleep
        (length (history before begun).stream.calls)
        n
        ((history before begun).taken_in ++ bytes)
        (history actions
          (history (lost n k bytes (history before begun).stream.calls) (history before begun)))
history-sleeps before n k bytes actions c b a q =
    let h = history before begun in
    let calls = h.stream.calls in
    history-IsAsleep (length calls) n (h.taken_in ++ bytes) actions _ q (
      subst
        (λ (s : Stream).
          IsQueue (record { taken_in = h.taken_in; handed_out = h.handed_out; stream = s })
          → IsAsleep (length calls) n (h.taken_in ++ bytes) (
              history (lost n k bytes calls)
                (record { taken_in = h.taken_in; handed_out = h.handed_out; stream = s })))
        (cc (b, c)) (lost-IsAsleep n k bytes h.taken_in h.handed_out calls a)
        (history-IsQueue before))
