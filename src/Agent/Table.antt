-- ===== src/Agent/Table.antt =====
-- honeytrap/listener/agent: the connections of one agent (connections.go), and what the loop of `serv` (agent.go) does
-- with a message. Addresses are the texts of their String methods, none for a nil address.
pub mod Queues
pub mod Found
pub mod Changes
pub mod Refines
use dynamic_labyrinth.Base.{
  ℕ, Bool, true, false, Option, none, some, List, [], ◌∷◌, ◌++◌, ◌+◌, ◌==◌, if◌then◌else◌, Outcome,
  ok, err, panic,
}
use dynamic_labyrinth.Base.Text.{same_text}
use dynamic_labyrinth.Services.Decoder.{Stuck}

-- net.Addr
abbrev pub Addr : Type 0
Addr = Option (List ℕ)

-- `agentConnection`, with the number of its Hello for its pointer.
pub record Connection : Type 0 where
  pub pointer : ℕ
  pub laddr : Addr
  pub raddr : Addr
  pub buff : List ℕ
  pub closed : Bool

-- The messages that the loop answers to.
pub data Message : Type 0 where
  hello : Addr → Addr → Message
  read_write_tcp : Addr → Addr → List ℕ → Message
  eof : Addr → Addr → Message
  ping : Message

-- The table, the pointers given out, what goes to `out`, and the pointers that go to `Accept`.
pub record Agent : Type 0 where
  pub conns : List Connection
  pub hellos : ℕ
  pub out : List Message
  pub offered : List ℕ

-- The comparison of two addresses by String, which panics on nil.
abbrev pub same_addr : Addr → Addr → Outcome Stuck Bool
same_addr (some a) (some b) = ok (same_text a b)
same_addr _ _ = panic

-- `Connections.Get`
abbrev pub get_behind :
    Outcome Stuck Bool
    → Outcome Stuck Bool
    → Connection
    → Outcome Stuck (Option Connection)
    → Outcome Stuck (Option Connection)
get_behind (ok true) (ok true) c rest = ok (some c)
get_behind (ok true) (ok false) c rest = rest
get_behind (ok false) r c rest = rest
get_behind _ _ c rest = panic

unfoldable pub get : Addr → Addr → List Connection → Outcome Stuck (Option Connection)
get laddr raddr [] = ok none
get laddr raddr (c ∷ conns) =
    get_behind (same_addr c.laddr laddr) (same_addr c.raddr raddr) c (get laddr raddr conns)

-- `Connections.Delete`: the first entry with that pointer.
unfoldable pub delete : ℕ → List Connection → List Connection
delete pointer [] = []
delete pointer (c ∷ conns) =
    let rest = delete pointer conns in if c.pointer == pointer then conns else c ∷ rest

-- A change of the connection behind a pointer.
unfoldable pub update : (Connection → Connection) → ℕ → List Connection → List Connection
update f pointer [] = []
update f pointer (c ∷ conns) = (if c.pointer == pointer then f c else c) ∷ update f pointer conns

-- `receive`, as far as the buffer goes.
abbrev pub receive : List ℕ → Connection → Connection
receive bytes c = record c { buff = if c.closed then c.buff else c.buff ++ bytes }

-- `Close`: the EOF that it sends.
abbrev pub close_message : Connection → List Message
close_message c = if c.closed then [] else eof c.laddr c.raddr ∷ []

-- The cases of the loop, with what `Get` has found.
abbrev pub receive_found : List ℕ → Agent → Outcome Stuck (Option Connection) → Outcome Stuck Agent
receive_found bytes a (ok (some c)) =
    ok (record a { conns = update (receive bytes) c.pointer a.conns })
receive_found bytes a (ok none) = ok a
receive_found bytes a (err e) = err e
receive_found bytes a panic = panic

abbrev pub end_found : Agent → Outcome Stuck (Option Connection) → Outcome Stuck Agent
end_found a (ok (some c)) =
    ok (record a { conns = delete c.pointer a.conns; out = a.out ++ close_message c })
end_found a (ok none) = ok a
end_found a (err e) = err e
end_found a panic = panic

unfoldable pub handle : Message → Agent → Outcome Stuck Agent
handle (hello laddr raddr) a = ok (record {
  conns =
      a.conns
      ++ (record { pointer = a.hellos; laddr = laddr; raddr = raddr; buff = []; closed = false }
          ∷ []);
  hellos = a.hellos + 1;
  out = a.out;
  offered = a.offered ++ (a.hellos ∷ []);
})
handle (read_write_tcp laddr raddr bytes) a = receive_found bytes a (get laddr raddr a.conns)
handle (eof laddr raddr) a = end_found a (get laddr raddr a.conns)
handle ping a = ok a
