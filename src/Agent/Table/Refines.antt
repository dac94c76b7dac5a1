-- ===== src/Agent/Table/Refines.antt =====
-- The loop of `serv` of honeytrap/listener/agent does to the streams between two addresses what their specification
-- says.
use dynamic_labyrinth.Base.{
  ℕ, ◌≡◌, ◌≢◌, ◌<◌, ◌+◌, ◌==◌, false, Option, none, some, List, [], ◌∷◌, ◌++◌, All, arith, Outcome,
  ok, err, panic, refl, Bool-cases, inl, inr,
}
use mathlib.Core.Path.{subst}
use dynamic_labyrinth.Services.Decoder.{Stuck}
use dynamic_labyrinth.Agent.Table.{
  Addr, Connection, Message, hello, read_write_tcp, eof, ping, Agent, get, delete, update, receive,
  receive_found, end_found, handle,
}
use dynamic_labyrinth.Agent.Table.Queues.{streams, specified, is_between, IsDistinct, IsSound}
use dynamic_labyrinth.Agent.Table.Found.{get-Found, streams_missing}
use dynamic_labyrinth.Agent.Table.Changes.{update-streams, delete-streams, streams-snoc}

ok-injective : (x y : Agent) → ◌≡◌ {A = Outcome Stuck Agent} (ok x) (ok y) → x ≡ y
ok-injective x y q = cc q

update-All :
    (P : ℕ → Type 0) (bytes : List ℕ) (p : ℕ) (conns : List Connection)
    → All (λ c. P c.pointer) conns
    → All (λ c. P c.pointer) (update (receive bytes) p conns)
unfolding update
update-All P bytes p [] a = tt
update-All P bytes p (c ∷ conns) a = elim (Bool-cases (c.pointer == p)) [
  | inl e ↦ rw e (a.0, update-All P bytes p conns a.1)
  | inr e ↦ rw e (a.0, update-All P bytes p conns a.1)
]

update-IsDistinct :
    (bytes : List ℕ) (p : ℕ) (conns : List Connection)
    → IsDistinct conns
    → IsDistinct (update (receive bytes) p conns)
unfolding update
update-IsDistinct bytes p [] d = tt
update-IsDistinct bytes p (c ∷ conns) d =
    let rest = update-All (λ q. q ≢ c.pointer) bytes p conns d.0 in
    elim (Bool-cases (c.pointer == p)) [
      | inl e ↦ rw e (rest, update-IsDistinct bytes p conns d.1)
      | inr e ↦ rw e (rest, update-IsDistinct bytes p conns d.1)
    ]

delete-All :
    (P : ℕ → Type 0) (p : ℕ) (conns : List Connection)
    → All (λ c. P c.pointer) conns
    → All (λ c. P c.pointer) (delete p conns)
unfolding delete
delete-All P p [] a = tt
delete-All P p (c ∷ conns) a = elim (Bool-cases (c.pointer == p)) [
  | inl e ↦ rw e a.1
  | inr e ↦ rw e (a.0, delete-All P p conns a.1)
]

delete-IsDistinct :
    (p : ℕ) (conns : List Connection) → IsDistinct conns → IsDistinct (delete p conns)
unfolding delete
delete-IsDistinct p [] d = tt
delete-IsDistinct p (c ∷ conns) d = elim (Bool-cases (c.pointer == p)) [
  | inl e ↦ rw e d.1
  | inr e ↦ rw e (delete-All (λ q. q ≢ c.pointer) p conns d.0, delete-IsDistinct p conns d.1)
]

All-snoc :
    (P : ℕ → Type 0) (c : Connection) (conns : List Connection)
    → All (λ d. P d.pointer) conns
    → P c.pointer
    → All (λ d. P d.pointer) (conns ++ (c ∷ []))
All-snoc P c [] a h = (h, tt)
All-snoc P c (x ∷ conns) a h = (a.0, All-snoc P c conns a.1 h)

snoc-IsSound :
    (n : ℕ) (c : Connection) (conns : List Connection)
    → c.pointer ≡ n
    → IsDistinct conns
    → All (λ d. d.pointer < n) conns
    → IsDistinct (conns ++ (c ∷ [])) × All (λ d. d.pointer < n + 1) (conns ++ (c ∷ []))
snoc-IsSound n c [] e d a = ((tt, tt), (omega arith, tt))
snoc-IsSound n c (x ∷ conns) e d a =
    let (d', b) = snoc-IsSound n c conns e d.1 a.1 in
    let new : c.pointer ≢ x.pointer = λ q. omega (arith, a.0) in
    ((All-snoc (λ p. p ≢ x.pointer) c conns d.0 new, d'), (omega (arith, a.0), b))

-- What a message does, for every pair of addresses.
pub record Refines (m : Message) (a a' : Agent) : Type 0 where
  pub sound : IsSound a'
  pub refines : (l r : List ℕ) → streams l r a'.conns ≡ specified l r m (streams l r a.conns)

receive_found-Refines :
    (laddr raddr : Addr) (bytes : List ℕ) (a a' : Agent) (g : Outcome Stuck (Option Connection))
    → IsSound a
    → get laddr raddr a.conns ≡ g
    → receive_found bytes a g ≡ ok a'
    → Refines (read_write_tcp laddr raddr bytes) a a'
receive_found-Refines laddr raddr bytes a a' (ok (some c)) (d, b) g q =
    let found = get-Found laddr raddr a.conns c g in
    let e : record a { conns = update (receive bytes) c.pointer a.conns } ≡ a' = cc q in
    subst (Refines (read_write_tcp laddr raddr bytes) a) e (record {
      sound = (
        update-IsDistinct bytes c.pointer a.conns d,
        update-All (λ p. p < a.hellos) bytes c.pointer a.conns b,
      );
      refines = λ l r. update-streams l r bytes laddr raddr a.conns c found d;
    })
receive_found-Refines laddr raddr bytes a a' (ok none) s g q =
    let e : a ≡ a' = cc q in
    subst (Refines (read_write_tcp laddr raddr bytes) a) e (record {
      sound = s;
      refines = λ l r. elim (Bool-cases (is_between l r laddr raddr)) [
        | inl k ↦ rw (k, streams_missing l r laddr raddr a.conns g k) refl
        | inr k ↦ rw k refl
      ];
    })
receive_found-Refines laddr raddr bytes a a' (err e) s g q = absurd (cc q)
receive_found-Refines laddr raddr bytes a a' panic s g q = absurd (cc q)

end_found-Refines :
    (laddr raddr : Addr) (a a' : Agent) (g : Outcome Stuck (Option Connection))
    → IsSound a
    → get laddr raddr a.conns ≡ g
    → end_found a g ≡ ok a'
    → Refines (eof laddr raddr) a a'
end_found-Refines laddr raddr a a' (ok (some c)) (d, b) g q =
    let found = get-Found laddr raddr a.conns c g in
    subst (Refines (eof laddr raddr) a) (ok-injective _ a' q) (record {
      sound = (
        delete-IsDistinct c.pointer a.conns d,
        delete-All (λ p. p < a.hellos) c.pointer a.conns b,
      );
      refines = λ l r. delete-streams l r laddr raddr a.conns c found d;
    })
end_found-Refines laddr raddr a a' (ok none) s g q =
    let e : a ≡ a' = cc q in
    subst (Refines (eof laddr raddr) a) e (record {
      sound = s;
      refines = λ l r. elim (Bool-cases (is_between l r laddr raddr)) [
        | inl k ↦ rw (k, streams_missing l r laddr raddr a.conns g k) refl
        | inr k ↦ rw k refl
      ];
    })
end_found-Refines laddr raddr a a' (err e) s g q = absurd (cc q)
end_found-Refines laddr raddr a a' panic s g q = absurd (cc q)

-- A message that does not panic leaves a sound table sound, and for every pair of addresses the streams between them are
-- after it what the specification says: a Hello begins a stream behind the others, data goes to
-- the first one, unless that is closed, and an EOF takes the first one away.
pub handle-Refines : (m : Message) (a a' : Agent) → IsSound a → handle m a ≡ ok a' → Refines m a a'
unfolding handle
handle-Refines (hello laddr raddr) a a' (d, b) q =
    let c : Connection = record {
      pointer = a.hellos;
      laddr = laddr;
      raddr = raddr;
      buff = [];
      closed = false;
    } in
    subst (Refines (hello laddr raddr) a) (ok-injective _ a' q) (record {
      sound = snoc-IsSound a.hellos c a.conns refl d b;
      refines = λ l r. streams-snoc l r a.conns c;
    })
handle-Refines (read_write_tcp laddr raddr bytes) a a' s q =
    receive_found-Refines laddr raddr bytes a a' (get laddr raddr a.conns) s refl q
handle-Refines (eof laddr raddr) a a' s q =
    end_found-Refines laddr raddr a a' (get laddr raddr a.conns) s refl q
handle-Refines ping a a' s q =
    let e : a ≡ a' = cc q in subst (Refines ping a) e (record { sound = s; refines = λ l r. refl })
