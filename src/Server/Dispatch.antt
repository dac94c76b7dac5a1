-- ===== src/Server/Dispatch.antt =====
-- honeytrap/server/honeytrap.go: `findService`, and `handle` with its deferred functions.
pub mod Choice
pub mod Rest
pub mod Recovery
use dynamic_labyrinth.Base.{
  ℕ, Bool, true, false, Option, none, some, List, [], ◌∷◌, ◌++◌, ◌⊎◌, inl, inr, Outcome, ok, err,
  panic,
}
use dynamic_labyrinth.Server.Addr.{Addr}
use dynamic_labyrinth.Server.Ports.{Table, candidates}
use dynamic_labyrinth.Server.Stream.{Conn, Peeked, timeout_conn, peek, begin_peek}

-- `S` is a `*ServiceMap`; `can_handle` is none for a service that is no CanHandlerer.
module _ (c : Conn) {S : Type 0} (can_handle : S → Option (List ℕ → Bool)) where
  -- The errors of `findService`.
  pub data Unserved : Type 0 where
    not_configured : Unserved
    not_peeked : c.Error → Unserved
    unsuitable : Unserved

  -- The connection that a service gets: `conn` itself, or `pConn`.
  pub data Handed : Type 0 where
    raw : c.State → Handed
    peeked : Peeked (timeout_conn c) → Handed

  -- `peekUninitialized` with what the loop has set up.
  pub data Peek : Type 0 where
    fresh : c.State → Peek
    done : Peeked (timeout_conn c) → List ℕ → Peek

  -- `conn`, which the wrappers read from.
  abbrev pub conn_of : Peek → c.State
  conn_of (fresh s) = s
  conn_of (done p bytes) = p.inner

  -- The first peek, of 1024 bytes.
  abbrev pub peek_result :
      (List ℕ × Option c.Error) × Peeked (timeout_conn c)
      → c.Error ⊎ (Peeked (timeout_conn c) × List ℕ)
  peek_result ((bytes, some e), p) = inl e
  peek_result ((bytes, none), p) = inr (p, bytes)

  abbrev pub first_peek : Peek → c.Error ⊎ (Peeked (timeout_conn c) × List ℕ)
  first_peek (fresh s) = peek_result (peek (timeout_conn c) 1024 (begin_peek (timeout_conn c) s))
  first_peek (done p bytes) = inr (p, bytes)

  abbrev pub Found : Type 0
  Found = Unserved ⊎ (S × Handed)

  -- A turn of the loop over the candidates, with what is done if the next one has to be tried.
  abbrev pub accept : Bool → S → Peeked (timeout_conn c) → Found → Found
  accept true s p next = inr (s, peeked p)
  accept false s p next = next

  abbrev pub ask :
      (List ℕ → Bool) → S → c.Error ⊎ (Peeked (timeout_conn c) × List ℕ) → (Peek → Found) → Found
  ask f s (inl e) next = inl (not_peeked e)
  ask f s (inr (p, bytes)) next = accept (f bytes) s p (next (done p bytes))

  abbrev pub offer : Option (List ℕ → Bool) → S → Peek → (Peek → Found) → Found
  offer none s st next = inr (s, raw (conn_of st))
  offer (some f) s st next = ask f s (first_peek st) next

  unfoldable pub try_services : List S → Peek → Found
  try_services [] st = inl unsuitable
  try_services (s ∷ ss) st = offer (can_handle s) s st (try_services ss)

  -- The candidates: none, one, or the loop.
  abbrev pub find_among : List S → c.State → Found
  find_among [] conn = inl not_configured
  find_among (s ∷ []) conn = inr (s, raw conn)
  find_among (s ∷ t ∷ ss) conn = try_services (s ∷ t ∷ ss) (fresh conn)

  -- `findService`
  unfoldable pub find_service : Table S → Addr → c.State → Found
  find_service ports l conn = find_among (candidates l [] ports) conn
