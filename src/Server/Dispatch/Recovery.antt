-- ===== src/Server/Dispatch/Recovery.antt =====
-- honeytrap/server/honeytrap.go: `handle`, with its deferred functions in the order in which Go runs
-- them.
use dynamic_labyrinth.Base.{◌≡◌, ℕ, suc, Bool, List, [], ◌∷◌, ◌++◌, inl, inr, refl, Option}
use dynamic_labyrinth.Server.Addr.{Addr}
use dynamic_labyrinth.Server.Ports.{Table}
use dynamic_labyrinth.Server.Stream.{Conn}
use dynamic_labyrinth.Server.Dispatch.{Handed, Found, find_service}

-- How a call comes back, if it does.
pub data Ending : Type 0 where
  returned : Ending
  panicked : Ending

-- What `handle` does besides: the fatal event on the bus, `conn.Close`, and the log of a panic.
pub data Effect : Type 0 where
  fatal_event : Effect
  close_conn : Effect
  panic_log : Effect

-- What a deferred function leaves: whether the panic goes on, and the effects.
abbrev pub After : Type 0
After = Ending × List Effect

-- The inner deferred function recovers, and sends an event by `hc.bus.Send`.
abbrev pub report : Ending → Ending → After
report send returned = (returned, [])
report send panicked = (send, fatal_event ∷ [])

-- `defer conn.Close()`
abbrev pub closing : Ending → After → After
closing close (returned, es) = (close, es ++ (close_conn ∷ []))
closing close (panicked, es) = (panicked, es ++ (close_conn ∷ []))

-- The outer deferred function recovers, and logs.
abbrev pub log_panic : After → After
log_panic (returned, es) = (returned, es)
log_panic (panicked, es) = (returned, es ++ (panic_log ∷ []))

module _ (c : Conn) {S : Type 0} (can_handle : S → Option (List ℕ → Bool)) where
  -- The body: `Handle` of the service on the connection with deadlines; its error is logged.
  abbrev pub body : (S → Handed c can_handle → Ending) → Found c can_handle → Ending
  body serve (inl e) = returned
  body serve (inr (s, h)) = serve s h

  -- `handle`, given how `Handle`, `Send` and `Close` come back.
  unfoldable pub handle :
      (S → Handed c can_handle → Ending) → Ending → Ending → Table S → Addr → c.State → After
  handle serve send close ports l conn =
      log_panic (closing close (report send (body serve (find_service c can_handle ports l conn))))

abbrev pub closes : List Effect → ℕ
closes [] = 0
closes (close_conn ∷ es) = suc (closes es)
closes (_ ∷ es) = closes es

abbrev pub events : List Effect → ℕ
events [] = 0
events (fatal_event ∷ es) = suc (events es)
events (_ ∷ es) = events es

abbrev pub panics : Ending → ℕ
panics returned = 0
panics panicked = 1

ended :
    (send close e : Ending)
    → ((log_panic (closing close (report send e))).0 ≡ returned)
      × (closes (log_panic (closing close (report send e))).1 ≡ 1)
      × (events (log_panic (closing close (report send e))).1 ≡ panics e)
ended returned returned returned = (refl, refl, refl)
ended returned returned panicked = (refl, refl, refl)
ended returned panicked returned = (refl, refl, refl)
ended returned panicked panicked = (refl, refl, refl)
ended panicked returned returned = (refl, refl, refl)
ended panicked returned panicked = (refl, refl, refl)
ended panicked panicked returned = (refl, refl, refl)
ended panicked panicked panicked = (refl, refl, refl)

module _ (c : Conn) {S : Type 0} (can_handle : S → Option (List ℕ → Bool)) where
  -- However the service, the bus and Close come back, handle returns, closes the connection once, and
  -- sends one fatal event if the service panicked and none if not.
  pub handle-returned :
      (serve : S → Handed c can_handle → Ending) (send close : Ending) (ports : Table S) (l : Addr)
      (conn : c.State)
      → ((handle c can_handle serve send close ports l conn).0 ≡ returned)
        × (closes (handle c can_handle serve send close ports l conn).1 ≡ 1)
        × (events (handle c can_handle serve send close ports l conn).1
            ≡ panics (body c can_handle serve (find_service c can_handle ports l conn)))
  unfolding handle
  handle-returned serve send close ports l conn =
      ended send close (body c can_handle serve (find_service c can_handle ports l conn))
