-- ===== src/Agent/Streams.antt =====
-- Runs of a connection, and of the table, of honeytrap/listener/agent.
use dynamic_labyrinth.Base.{ok, panic, some, none, false, arith}
use dynamic_labyrinth.Agent.Table.{Agent, eof, read_write_tcp, handle, get, delete}
use dynamic_labyrinth.Agent.Table.Queues.{IsSound}
use dynamic_labyrinth.Agent.Table.Refines.{Refines, handle-Refines}
use dynamic_labyrinth.Base.{◌≡◌, List, [], ◌∷◌, refl}
use dynamic_labyrinth.Agent.{
  returned, Action, arrive, begin_read, enter_select, wake, close, act, receive,
}
use dynamic_labyrinth.Agent.Order.{history, begun, IsQueue, history-IsQueue}
use dynamic_labyrinth.Agent.Sleep.{IsAsleep, lost, history-sleeps}

-- A call that waits, one that finds data while the first is woken, and a late packet.
abbrev actions : List Action
actions =
    begin_read 2
    ∷ enter_select 0
    ∷ arrive (1 ∷ 2 ∷ 3 ∷ []) 0
    ∷ begin_read 1
    ∷ wake 0
    ∷ arrive (4 ∷ []) 7
    ∷ close
    ∷ arrive (5 ∷ []) 0
    ∷ []

history-run : (history actions begun).handed_out ≡ 1 ∷ 2 ∷ 3 ∷ []
unfolding act receive
history-run = refl

history-IsQueue_example : IsQueue (history actions begun)
history-IsQueue_example = history-IsQueue actions

-- Data goes to a first call; then the second one misses its data, which a third one reads.
abbrev earlier : List Action
earlier = begin_read 2 ∷ enter_select 0 ∷ arrive (7 ∷ []) 0 ∷ wake 0 ∷ []

abbrev later : List Action
later = wake 1 ∷ begin_read 9 ∷ enter_select 1 ∷ []

history-sleeps_example :
    IsAsleep 1 4
      (7 ∷ 8 ∷ [])
      (history later (history (lost 4 0 (8 ∷ []) (returned ∷ [])) (history earlier begun)))
unfolding act receive
history-sleeps_example =
    history-sleeps earlier 4 0 (8 ∷ []) later refl refl (tt, tt) (tt, (tt, (tt, tt)))

sleeps_run :
    (history later (history (lost 4 0 (8 ∷ []) (returned ∷ [])) (history earlier begun))).handed_out
    ≡ 7 ∷ 8 ∷ []
unfolding act receive
sleeps_run = refl

-- Two connections between the same addresses.
abbrev twice : Agent
twice = record {
  conns =
      record {
        pointer = 0;
        laddr = some (1 ∷ []);
        raddr = some (2 ∷ []);
        buff = 7 ∷ [];
        closed = false;
      }
      ∷ record {
        pointer = 1;
        laddr = some (1 ∷ []);
        raddr = some (2 ∷ []);
        buff = [];
        closed = false;
      }
      ∷ [];
  hellos = 2;
  out = [];
  offered = 0 ∷ 1 ∷ [];
}

-- The first one has ended.
abbrev once : Agent
once = record twice {
  conns =
      record {
        pointer = 1;
        laddr = some (1 ∷ []);
        raddr = some (2 ∷ []);
        buff = [];
        closed = false;
      }
      ∷ [];
  out = eof (some (1 ∷ [])) (some (2 ∷ [])) ∷ [];
}

twice-IsSound : IsSound twice
twice-IsSound = ((((λ q. omega arith), tt), (tt, tt)), (omega arith, (omega arith, tt)))

once_run : handle (eof (some (1 ∷ [])) (some (2 ∷ []))) twice ≡ ok once
unfolding handle get delete
once_run = refl

handle-Refines_example : Refines (eof (some (1 ∷ [])) (some (2 ∷ []))) twice once
handle-Refines_example =
    handle-Refines (eof (some (1 ∷ [])) (some (2 ∷ []))) twice once twice-IsSound once_run

-- A message with a nil address panics where the table is not empty.
nil_run : handle (read_write_tcp none none []) once ≡ panic
unfolding handle get
nil_run = refl
