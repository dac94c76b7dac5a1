-- ===== src/Agent.antt =====
-- honeytrap/listener/agent/connection.go: the bytes of one connection that an agent forwards. The lock makes the
-- sections that it guards one step each; between two sections of a `Read` other steps can come, also of other calls.
pub mod Order
pub mod Waiting
pub mod Sleep
pub mod Table
mod Streams
use dynamic_labyrinth.Base.{
  ℕ, zero, suc, Bool, true, false, Option, none, some, List, [], ◌∷◌, ◌++◌, take, drop, map,
}

-- Where a call of `Read` with a buffer of that length is: behind the first section, in the select, behind it with a
-- value from `in`, behind it with `in` closed; or it has returned.
pub data Phase : Type 0 where
  between : ℕ → Phase
  waiting : ℕ → Phase
  woken : ℕ → Phase
  ended : Phase
  returned : Phase

-- The calls, by the order in which they were made; one that was not made is as one that has returned.
abbrev pub at : ℕ → List Phase → Phase
at k [] = returned
at zero (p ∷ calls) = p
at (suc k) (p ∷ calls) = at k calls

abbrev pub set : ℕ → Phase → List Phase → List Phase
set k q [] = []
set zero q (p ∷ calls) = q ∷ calls
set (suc k) q (p ∷ calls) = p ∷ set k q calls

-- `agentConnection`, as far as the bytes go, with the calls of `Read` that have not returned in their first
-- section. `in` is not buffered.
pub record Stream : Type 0 where
  pub buff : List ℕ
  pub closed : Bool
  pub calls : List Phase

-- What `Read` returns.
pub data Result : Type 0 where
  got : List ℕ → Result
  timeout : Result
  eof : Result

abbrev pub fresh : Stream
fresh = record { buff = []; closed = false; calls = [] }

-- A send on `in` reaches one call in its select, if there is any: the first one, or the k-th, as `notified` says.
abbrev pub rouse_first : Phase → List Phase → List Phase → List Phase
rouse_first (waiting n) calls later = woken n ∷ calls
rouse_first p calls later = p ∷ later

abbrev pub rouse : List Phase → List Phase
rouse [] = []
rouse (p ∷ calls) = let later = rouse calls in rouse_first p calls later

abbrev pub notified : ℕ → Phase → List Phase → List Phase
notified k (waiting n) calls = set k (woken n) calls
notified k _ calls = rouse calls

abbrev pub receive_open : Bool → List ℕ → ℕ → Stream → Stream
receive_open true bytes k s = s
receive_open false bytes k s = record s {
  buff = s.buff ++ bytes;
  calls = notified k (at k s.calls) s.calls;
}

unfoldable pub receive : List ℕ → ℕ → Stream → Stream
receive bytes k s = receive_open s.closed bytes k s

-- The first section of `Read`: `copy` to the buffer of the call, from the front; or the call goes on.
abbrev pub read_buffered : ℕ → List ℕ → Stream → Stream × Option Result
read_buffered n [] s = (record s { calls = s.calls ++ (between n ∷ []) }, none)
read_buffered n (b ∷ bs) s = (record s { buff = drop n s.buff }, some (got (take n s.buff)))

-- The end of the k-th call, and its last section.
abbrev pub return : ℕ → Stream → Stream
return k s = record s { calls = set k returned s.calls }

abbrev pub taken : ℕ → ℕ → Stream → Stream × Option Result
taken k n s = (return k (record s { buff = drop n s.buff }), some (got (take n s.buff)))

-- The select: `in` is closed, or the call waits.
abbrev pub select_open : ℕ → ℕ → Bool → Stream → Stream × Option Result
select_open k n true s = (return k s, some eof)
select_open k n false s = (record s { calls = set k (waiting n) s.calls }, none)

abbrev pub on_select : ℕ → Phase → Stream → Stream × Option Result
on_select k (between n) s = select_open k n s.closed s
on_select k _ s = (s, none)

abbrev pub on_expire : ℕ → Phase → Stream → Stream × Option Result
on_expire k (between n) s = (return k s, some timeout)
on_expire k (waiting n) s = (return k s, some timeout)
on_expire k _ s = (s, none)

abbrev pub on_wake : ℕ → Phase → Stream → Stream × Option Result
on_wake k (woken n) s = taken k n s
on_wake k ended s = (return k s, some eof)
on_wake k _ s = (s, none)

-- `Close`: closing `in` wakes every call in its select.
abbrev pub closed_in : Phase → Phase
closed_in (waiting n) = ended
closed_in p = p

abbrev pub close_open : Bool → Stream → Stream
close_open true s = s
close_open false s = record s { closed = true; calls = map closed_in s.calls }

-- The steps: of the listener, with a call that its send may reach, of the services that read, and of the timers.
pub data Action : Type 0 where
  arrive : List ℕ → ℕ → Action
  begin_read : ℕ → Action
  enter_select : ℕ → Action
  expire : ℕ → Action
  wake : ℕ → Action
  close : Action

-- A step, and what it makes a `Read` return; a step that can not be taken now changes nothing.
unfoldable pub act : Action → Stream → Stream × Option Result
act (arrive bytes k) s = (receive bytes k s, none)
act (begin_read n) s = read_buffered n s.buff s
act (enter_select k) s = on_select k (at k s.calls) s
act (expire k) s = on_expire k (at k s.calls) s
act (wake k) s = on_wake k (at k s.calls) s
act close s = (close_open s.closed s, none)
