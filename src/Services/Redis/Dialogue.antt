-- ===== src/Services/Redis/Dialogue.antt =====
-- One connection of honeytrap/services/redis: `Handle` ends, answers every command, and panics on an empty array.
use dynamic_labyrinth.Base.{
  ℕ, zero, suc, ◌≡◌, ◌<◌, Bool, true, false, Option, List, length, refl, Outcome, ok, err, panic,
  arith, ◌≢◌,
}
use dynamic_labyrinth.Base.Text.{codes, same_text}
use dynamic_labyrinth.Services.Redis.{
  Datum, Items, end, item, Failure, eof, failed, stuck, Lines, parse_redis_data, array, bulk,
  simple, integer, missing, redis_handler, info_cmd, by_name, Log, reply, on_array, on_parsed,
  handle_turns, handle, no_log,
}
use dynamic_labyrinth.Services.Redis.Parsing.{Ends, parse_redis_data-Ends}

module _ (decimal : ℕ → List ℕ) (lower : List ℕ → List ℕ) (version os : List ℕ) where
  info_cmd-open : (args : Items) → (info_cmd decimal lower version os args).1 ≡ false
  unfolding info_cmd
  info_cmd-open end = refl
  info_cmd-open (item word end) = refl
  info_cmd-open (item word (item _ _)) = refl

  by_name-open :
      (b : Bool) (command : List ℕ) (args : Items)
      → (by_name decimal lower version os b command args).1 ≡ false
  by_name-open true command args = info_cmd-open args
  by_name-open false command args = refl

  -- No command closes the connection.
  pub redis_handler-open :
      (command : List ℕ) (args : Items)
      → (redis_handler decimal lower version os command args).1 ≡ false
  unfolding redis_handler
  redis_handler-open command args =
      by_name-open (same_text (lower command) (codes "info")) (lower command) args

  module _ (parse_uint : List ℕ → Option ℕ) (at_end : Failure) where
    abbrev Turns : Type 0
    Turns =
        Lines → ℕ → Log decimal lower version os → Outcome Failure (Log decimal lower version os)

    -- A result of the connection: its log, or a panic.
    abbrev pub Closes : Outcome Failure (Log decimal lower version os) → Type 0
    Closes (ok log) = Unit {0}
    Closes (err e) = ⊥
    Closes panic = Unit {0}

    abbrev ClosesBelow : ℕ → Turns → Type 0
    ClosesBelow n next =
        (lines : Lines) (room : ℕ) (log : Log decimal lower version os)
        → length lines < n
        → Closes (next lines room log)

    reply-Closes :
        (n : ℕ) (next : Turns) (answer : List ℕ × Bool) (lines : Lines) (room : ℕ)
        (log : Log decimal lower version os)
        → ClosesBelow n next
        → length lines < n
        → Closes (reply decimal lower version os parse_uint at_end next answer lines room log)
    reply-Closes n next (answer, true) lines room log h e = tt
    reply-Closes n next (answer, false) lines zero log h e = tt
    reply-Closes n next (answer, false) lines (suc room) log h e = h lines room _ e

    on_array-Closes :
        (n : ℕ) (next : Turns) (items : Items) (lines : Lines) (room : ℕ)
        (log : Log decimal lower version os)
        → ClosesBelow n next
        → length lines < n
        → Closes (on_array decimal lower version os parse_uint at_end next items lines room log)
    on_array-Closes n next end lines room log h e = tt
    on_array-Closes n next (item (bulk text) args) lines room log h e =
        reply-Closes n next (redis_handler decimal lower version os text args) lines room _ h e
    on_array-Closes n next (item (simple text) args) lines room log h e =
        reply-Closes n next (redis_handler decimal lower version os text args) lines room _ h e
    on_array-Closes n next (item missing args) lines room log h e = tt
    on_array-Closes n next (item (array items) args) lines room log h e = tt
    on_array-Closes n next (item (integer v) args) lines room log h e = tt

    on_parsed-Closes :
        (n : ℕ) (next : Turns) (r : Outcome Failure (Datum × Lines)) (room : ℕ)
        (log : Log decimal lower version os)
        → ClosesBelow n next
        → Ends n r
        → Closes (on_parsed decimal lower version os parse_uint at_end next r room log)
    on_parsed-Closes n next (ok (missing, lines)) room log h e = h lines room log e
    on_parsed-Closes n next (ok (array items, lines)) room log h e =
        on_array-Closes n next items lines room log h e
    on_parsed-Closes n next (ok (simple text, lines)) room log h e = tt
    on_parsed-Closes n next (ok (bulk text, lines)) room log h e = tt
    on_parsed-Closes n next (ok (integer v, lines)) room log h e = tt
    on_parsed-Closes n next (err eof) room log h e = tt
    on_parsed-Closes n next (err failed) room log h e = tt
    on_parsed-Closes n next (err stuck) room log h e = e
    on_parsed-Closes n next panic room log h e = tt

    handle_turns-Closes :
        (fuel : ℕ) (lines : Lines) (room : ℕ) (log : Log decimal lower version os)
        → at_end ≢ stuck
        → length lines < fuel
        → Closes (handle_turns decimal lower version os parse_uint at_end fuel lines room log)
    unfolding handle_turns
    handle_turns-Closes zero lines room log a h = elim h [ ]
    handle_turns-Closes (suc fuel) lines room log a h =
        on_parsed-Closes (length lines)
          (handle_turns decimal lower version os parse_uint at_end fuel)
          (parse_redis_data parse_uint at_end (suc (length lines)) lines) room log
          (λ ls r l e. handle_turns-Closes fuel ls r l a (omega arith))
          (parse_redis_data-Ends parse_uint at_end (suc (length lines)) lines a (omega arith))

    -- On a scanner that ends, Handle ends, by closing the connection or by a panic, whatever it reads and
    -- whenever a write fails.
    pub handle-Closes :
        (lines : Lines) (room : ℕ)
        → at_end ≢ stuck
        → Closes (handle decimal lower version os parse_uint at_end lines room)
    unfolding handle
    handle-Closes lines room a =
        handle_turns-Closes (suc (length lines)) lines room
          (no_log decimal lower version os parse_uint at_end) a (omega arith)
