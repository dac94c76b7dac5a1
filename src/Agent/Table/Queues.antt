-- ===== src/Agent/Table/Queues.antt =====
-- What the table of honeytrap/listener/agent holds for one pair of addresses: the streams that were begun between them
-- and not ended, in order; data goes to the first, and an end takes the first away.
use dynamic_labyrinth.Base.{
  ℕ, ◌≢◌, ◌<◌, ◌&&◌, Bool, false, none, some, List, [], ◌∷◌, ◌++◌, All, if◌then◌else◌,
}
use dynamic_labyrinth.Base.Text.{same_text}
use dynamic_labyrinth.Agent.Table.{
  Addr, Connection, Message, hello, read_write_tcp, eof, ping, Agent,
}

-- The bytes of a stream, and whether it is closed.
abbrev pub Queue : Type 0
Queue = List (List ℕ × Bool)

abbrev pub is_text : List ℕ → Addr → Bool
is_text l none = false
is_text l (some a) = same_text a l

abbrev pub is_between : List ℕ → List ℕ → Addr → Addr → Bool
is_between l r laddr raddr = is_text l laddr && is_text r raddr

-- The streams between two addresses.
abbrev pub streams : List ℕ → List ℕ → List Connection → Queue
streams l r [] = []
streams l r (c ∷ conns) =
    let rest = streams l r conns in
    if is_between l r c.laddr c.raddr then (c.buff, c.closed) ∷ rest else rest

-- The specification.
abbrev pub append_first : List ℕ → Queue → Queue
append_first bytes [] = []
append_first bytes ((buff, closed) ∷ q) = (if closed then buff else buff ++ bytes, closed) ∷ q

abbrev pub drop_first : Queue → Queue
drop_first [] = []
drop_first (s ∷ q) = q

abbrev pub specified : List ℕ → List ℕ → Message → Queue → Queue
specified l r (hello laddr raddr) q =
    if is_between l r laddr raddr then q ++ (([], false) ∷ []) else q
specified l r (read_write_tcp laddr raddr bytes) q =
    if is_between l r laddr raddr then append_first bytes q else q
specified l r (eof laddr raddr) q = if is_between l r laddr raddr then drop_first q else q
specified l r ping q = q

-- No two entries have the same pointer, and all were given out.
abbrev pub IsDistinct : List Connection → Type 0
IsDistinct [] = Unit {0}
IsDistinct (c ∷ conns) = All (λ d. d.pointer ≢ c.pointer) conns × IsDistinct conns

abbrev pub IsSound : Agent → Type 0
IsSound a = IsDistinct a.conns × All (λ c. c.pointer < a.hellos) a.conns
