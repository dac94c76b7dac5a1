-- ===== src/Agent/Table/Changes.antt =====
-- What a change of the table of honeytrap/listener/agent does to the streams between two addresses.
use dynamic_labyrinth.Base.{
  ℕ, ◌≡◌, ◌≢◌, ◌==◌, Bool, true, false, List, [], ◌∷◌, ◌++◌, All, arith, refl, sym, if◌then◌else◌,
}
use dynamic_labyrinth.Agent.Table.{Addr, Connection, delete, update, receive}
use dynamic_labyrinth.Agent.Table.Queues.{
  Queue, is_between, streams, append_first, drop_first, IsDistinct,
}
use dynamic_labyrinth.Agent.Table.Found.{Found, here, there, Found-All, not-eq, Misses-between}

-- A pointer that no entry has.
update-fresh :
    (f : Connection → Connection) (pointer : ℕ) (conns : List Connection)
    → All (λ d. d.pointer ≢ pointer) conns
    → update f pointer conns ≡ conns
unfolding update
update-fresh f pointer [] a = refl
update-fresh f pointer (c ∷ conns) a =
    let other : c.pointer == pointer ≡ false = not-eq c.pointer pointer a.0 in
    rw (other, update-fresh f pointer conns a.1) refl

receive-first :
    (k : Bool) (bytes : List ℕ) (c : Connection) (q : Queue)
    → (if k then ((receive bytes c).buff, c.closed) ∷ q else q) ≡ (
        if k
        then append_first bytes (if k then (c.buff, c.closed) ∷ q else q)
        else (if k then (c.buff, c.closed) ∷ q else q))
receive-first true bytes c q = refl
receive-first false bytes c q = refl

drop-first :
    (k : Bool) (c : Connection) (q : Queue)
    → q ≡ (
        if k
        then drop_first (if k then (c.buff, c.closed) ∷ q else q)
        else (if k then (c.buff, c.closed) ∷ q else q))
drop-first true c q = refl
drop-first false c q = refl

-- An entry before the one that is found.
skip-first :
    (f : Queue → Queue) (k kx : Bool) (x : Connection) (q : Queue)
    → (k ≡ true → kx ≡ false)
    → (if kx then (x.buff, x.closed) ∷ (if k then f q else q) else (if k then f q else q)) ≡ (
        if k
        then f (if kx then (x.buff, x.closed) ∷ q else q)
        else (if kx then (x.buff, x.closed) ∷ q else q))
skip-first f true true x q h = absurd (cc (h refl))
skip-first f true false x q h = refl
skip-first f false kx x q h = refl

-- A change behind the pointer that `Get` has found.
pub update-streams :
    (l r : List ℕ) (bytes : List ℕ) (laddr raddr : Addr) (conns : List Connection) (c : Connection)
    → Found laddr raddr conns c
    → IsDistinct conns
    → streams l r (update (receive bytes) c.pointer conns) ≡ (
        if is_between l r laddr raddr
        then append_first bytes (streams l r conns)
        else streams l r conns)
unfolding update
update-streams l r bytes laddr raddr _ c (here _ conns el er) d =
    let same : c.pointer == c.pointer ≡ true = ground arith in
    rw (same, update-fresh (receive bytes) c.pointer conns d.0, sym el, sym er)
      (receive-first (is_between l r c.laddr c.raddr) bytes c (streams l r conns))
update-streams l r bytes laddr raddr _ c (there x _ conns m found) d =
    let other : x.pointer == c.pointer ≡ false =
      not-eq x.pointer c.pointer (λ e. Found-All (λ y. y.pointer ≢ x.pointer) found d.0 (sym e)) in
    let ih = update-streams l r bytes laddr raddr conns c found d.1 in
    rw (other, ih)
      (skip-first (append_first bytes) (is_between l r laddr raddr) (is_between l r x.laddr x.raddr)
        x (streams l r conns) (Misses-between l r laddr raddr x m))

-- The entry that `Get` has found is deleted.
pub delete-streams :
    (l r : List ℕ) (laddr raddr : Addr) (conns : List Connection) (c : Connection)
    → Found laddr raddr conns c
    → IsDistinct conns
    → streams l r (delete c.pointer conns)
      ≡ (if is_between l r laddr raddr then drop_first (streams l r conns) else streams l r conns)
unfolding delete
delete-streams l r laddr raddr _ c (here _ conns el er) d =
    let same : c.pointer == c.pointer ≡ true = ground arith in
    rw (same, sym el, sym er) (drop-first (is_between l r c.laddr c.raddr) c (streams l r conns))
delete-streams l r laddr raddr _ c (there x _ conns m found) d =
    let other : x.pointer == c.pointer ≡ false =
      not-eq x.pointer c.pointer (λ e. Found-All (λ y. y.pointer ≢ x.pointer) found d.0 (sym e)) in
    let ih = delete-streams l r laddr raddr conns c found d.1 in
    rw (other, ih)
      (skip-first drop_first (is_between l r laddr raddr) (is_between l r x.laddr x.raddr) x
        (streams l r conns) (Misses-between l r laddr raddr x m))

add-first :
    (k kx : Bool) (x : Connection) (s : List ℕ × Bool) (q : Queue)
    → (if kx
        then (x.buff, x.closed) ∷ (if k then q ++ (s ∷ []) else q)
        else (if k then q ++ (s ∷ []) else q))
      ≡ (if k
          then (if kx then (x.buff, x.closed) ∷ q else q) ++ (s ∷ [])
          else (if kx then (x.buff, x.closed) ∷ q else q))
add-first true true x s q = refl
add-first true false x s q = refl
add-first false kx x s q = refl

pub streams-snoc :
    (l r : List ℕ) (conns : List Connection) (c : Connection)
    → streams l r (conns ++ (c ∷ [])) ≡ (
        if is_between l r c.laddr c.raddr
        then streams l r conns ++ ((c.buff, c.closed) ∷ [])
        else streams l r conns)
streams-snoc l r [] c = refl
streams-snoc l r (x ∷ conns) c = rw (streams-snoc l r conns c) (
    add-first (is_between l r c.laddr c.raddr) (is_between l r x.laddr x.raddr) x (c.buff, c.closed)
      (streams l r conns))
