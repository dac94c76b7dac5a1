-- ===== src/Services/Redis.antt =====
-- honeytrap/services/redis: the data that a client sends (redis.go), the commands (commands.go,
-- redis_handler.go), and one connection. The bufio.Scanner is the lines that it gives, and the error with
-- which it ends; strconv.ParseUint, fmt's `%d` and strings.ToLower are parameters.
pub mod Info
pub mod Parsing
pub mod Dialogue
pub mod Turns
pub mod Answers
mod Examples
use dynamic_labyrinth.Base.{
  ℕ, zero, suc, Bool, true, false, Option, none, some, List, [], ◌∷◌, ◌++◌, ◌⊎◌, ◌==◌,
  if◌then◌else◌, length, ◌+◌, Outcome, ok, err, panic, ◌>>=◌,
}
use dynamic_labyrinth.Base.Text.{codes, same_text}
use dynamic_labyrinth.Services.Redis.Info.{
  bulk_string, syntax_error, unknown_error, info_sections, all_sections, info_server, info_clients,
  info_memory, info_persistence, info_stats, info_replication, info_cpu, info_cluster,
  info_keyspace,
}

-- `redisDatum`: the zero value, an array, a simple string, a bulk string, an integer.
mutual
  pub data Datum : Type 0 where
    missing : Datum
    array : Items → Datum
    simple : List ℕ → Datum
    bulk : List ℕ → Datum
    integer : ℕ → Datum

  pub data Items : Type 0 where
    end : Items
    item : Datum → Items → Items

-- How `parseRedisData` fails: "eof", another error, or the fuel is used up.
pub data Failure : Type 0 where
  eof : Failure
  failed : Failure
  stuck : Failure

abbrev pub Lines : Type 0
Lines = List (List ℕ)

-- `ToString`
abbrev pub to_string : Datum → Option (List ℕ)
to_string (simple text) = some text
to_string (bulk text) = some text
to_string _ = none

module _ (parse_uint : List ℕ → Option ℕ) (at_end : Failure) where
  abbrev pub Parsed : Type 0
  Parsed = Outcome Failure (Datum × Lines)

  -- The loop over the items of an array, given how one datum is parsed.
  unfoldable pub parse_items : (Lines → Parsed) → ℕ → Lines → Outcome Failure (Items × Lines)
  parse_items parse zero lines = ok (end, lines)
  parse_items parse (suc n) lines = parse lines >>= λ first.
      parse_items parse n first.1 >>= λ others. ok (item first.0 others.0, others.1)

  abbrev pub parse_array : (Lines → Parsed) → Option ℕ → Lines → Parsed
  parse_array parse none lines = err failed
  parse_array parse (some n) lines =
      parse_items parse n lines >>= λ items. ok (array items.0, items.1)

  -- The line after the length, which is not looked at; empty at the end.
  abbrev pub bulk_line : Lines → Datum × Lines
  bulk_line [] = (bulk [], [])
  bulk_line (text ∷ lines) = (bulk text, lines)

  abbrev pub parse_bulk : Option ℕ → Lines → Parsed
  parse_bulk none lines = err failed
  parse_bulk (some n) lines = ok (bulk_line lines)

  abbrev pub parse_integer : Option ℕ → Lines → Parsed
  parse_integer none lines = err failed
  parse_integer (some n) lines = ok (integer n, lines)

  abbrev pub parse_typed : (Lines → Parsed) → ℕ → List ℕ → Lines → Parsed
  parse_typed parse type text lines =
      if type == b'*'
      then parse_array parse (parse_uint text) lines
      else if type == b'+'
      then ok (simple text, lines)
      else if type == b'$'
      then parse_bulk (parse_uint text) lines
      else if type == b':'
      then parse_integer (parse_uint text) lines
      else err failed

  abbrev pub parse_line : (Lines → Parsed) → List ℕ → Lines → Parsed
  parse_line parse [] lines = ok (missing, lines)
  parse_line parse (type ∷ text) lines = parse_typed parse type text lines

  -- `parseRedisData`, to a depth of arrays below the fuel.
  unfoldable pub parse_redis_data : ℕ → Lines → Parsed
  parse_redis_data zero lines = err stuck
  parse_redis_data (suc fuel) [] = err at_end
  parse_redis_data (suc fuel) (line ∷ lines) = parse_line (parse_redis_data fuel) line lines

-- `%d`, strings.ToLower, and the configuration.
module _ (decimal : ℕ → List ℕ) (lower : List ℕ → List ℕ) (version os : List ℕ) where
  -- `mapInfoCmds`
  abbrev pub info_section : List ℕ → Option (List ℕ)
  info_section word =
      if same_text word (codes "server")
      then some (info_server version os)
      else if same_text word (codes "clients")
      then some info_clients
      else if same_text word (codes "memory")
      then some info_memory
      else if same_text word (codes "persistence")
      then some info_persistence
      else if same_text word (codes "stats")
      then some info_stats
      else if same_text word (codes "replication")
      then some info_replication
      else if same_text word (codes "cpu")
      then some info_cpu
      else if same_text word (codes "cluster")
      then some info_cluster
      else if same_text word (codes "keyspace")
      then some info_keyspace
      else none

  -- A word that is in no section: "default", "all", or nothing.
  abbrev pub other_section : List ℕ → List ℕ
  other_section word =
      if same_text word (codes "default")
      then info_sections version os
      else if same_text word (codes "all")
      then all_sections version os
      else []

  abbrev pub section_text : List ℕ → Option (List ℕ) → List ℕ
  section_text word none = other_section word
  section_text word (some text) = text

  abbrev pub info_word : Option (List ℕ) → List ℕ
  info_word none = codes "Expected string argument, got something else"
  info_word (some word) = bulk_string decimal (section_text word (info_section word)) true

  -- `infoCmd`: the answer, and whether to close.
  unfoldable pub info_cmd : Items → List ℕ × Bool
  info_cmd end = (bulk_string decimal (info_sections version os) true, false)
  info_cmd (item word end) = (info_word (to_string word), false)
  info_cmd (item word (item _ _)) = (syntax_error, false)

  abbrev pub by_name : Bool → List ℕ → Items → List ℕ × Bool
  by_name true command args = info_cmd args
  by_name false command args = (unknown_error command, false)

  -- `REDISHandler`; `mapCmds` has one entry.
  unfoldable pub redis_handler : List ℕ → Items → List ℕ × Bool
  redis_handler command args =
      by_name (same_text (lower command) (codes "info")) (lower command) args

  -- What a connection has answered, and the commands of its events.
  pub record Log : Type 0 where
    pub answers : List (List ℕ)
    pub commands : List (List ℕ)

  module _ (parse_uint : List ℕ → Option ℕ) (at_end : Failure) where
    -- The end of a turn: a break, a write that fails once the room is used up, or the next turn.
    abbrev pub reply :
        (Lines → ℕ → Log → Outcome Failure Log)
        → List ℕ × Bool
        → Lines
        → ℕ
        → Log
        → Outcome Failure Log
    reply next (answer, true) lines room log = ok log
    reply next (answer, false) lines zero log = ok log
    reply next (answer, false) lines (suc room) log =
        next lines room (record log { answers = log.answers ++ (answer ∷ []) })

    abbrev pub run_command :
        (Lines → ℕ → Log → Outcome Failure Log)
        → Option (List ℕ)
        → Items
        → Lines
        → ℕ
        → Log
        → Outcome Failure Log
    run_command next none args lines room log = ok log
    run_command next (some command) args lines room log =
        reply next (redis_handler command args) lines room
          (record log { commands = log.commands ++ (command ∷ []) })

    -- `items[0]` of an empty array panics.
    abbrev pub on_array :
        (Lines → ℕ → Log → Outcome Failure Log) → Items → Lines → ℕ → Log → Outcome Failure Log
    on_array next end lines room log = panic
    on_array next (item first args) lines room log =
        run_command next (to_string first) args lines room log

    abbrev pub on_datum :
        (Lines → ℕ → Log → Outcome Failure Log) → Datum → Lines → ℕ → Log → Outcome Failure Log
    on_datum next missing lines room log = next lines room log
    on_datum next (array items) lines room log = on_array next items lines room log
    on_datum next _ lines room log = ok log

    abbrev pub on_parsed :
        (Lines → ℕ → Log → Outcome Failure Log)
        → Outcome Failure (Datum × Lines)
        → ℕ
        → Log
        → Outcome Failure Log
    on_parsed next (ok (datum, lines)) room log = on_datum next datum lines room log
    on_parsed next (err stuck) room log = err stuck
    on_parsed next (err e) room log = ok log
    on_parsed next panic room log = panic

    -- The loop of `Handle`, with a connection that takes `room` answers.
    unfoldable pub handle_turns : ℕ → Lines → ℕ → Log → Outcome Failure Log
    handle_turns zero lines room log = err stuck
    handle_turns (suc fuel) lines room log =
        on_parsed (handle_turns fuel)
          (parse_redis_data parse_uint at_end (suc (length lines)) lines) room log

    abbrev pub no_log : Log
    no_log = record { answers = []; commands = [] }

    -- `Handle`: a turn takes a line, or is the last one.
    unfoldable pub handle : Lines → ℕ → Outcome Failure Log
    handle lines room = handle_turns (suc (length lines)) lines room no_log
