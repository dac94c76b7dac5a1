-- ===== src/Services/Redis/Turns.antt =====
-- The turns of the loop of honeytrap/services/redis over the lines of commands.
use dynamic_labyrinth.Base.{
  ℕ, zero, suc, ◌≡◌, ◌∙◌, ◌<◌, ◌+◌, Bool, true, false, Option, some, List, [], ◌∷◌, ◌++◌, length,
  map, All, refl, ap, Outcome, ok, err, panic, arith, append_assoc, append_nil, length-append, ◌≢◌,
}
use dynamic_labyrinth.Services.Redis.{
  Failure, eof, stuck, Lines, parse_redis_data, redis_handler, Log, reply, on_parsed, handle_turns,
  handle, no_log, parse_items,
}
use dynamic_labyrinth.Services.Redis.Parsing.{
  write_command, write_words, words_of, ReadsCommand, parse_redis_data-write_command,
}
use dynamic_labyrinth.Services.Redis.Dialogue.{redis_handler-open}

-- A command with its arguments.
abbrev pub Command : Type 0
Command = List ℕ × List (List ℕ)

module _ (decimal : ℕ → List ℕ) (lower : List ℕ → List ℕ) (version os : List ℕ)
    (parse_uint : List ℕ → Option ℕ) (at_end : Failure) where
  -- The lines of the commands, and those behind them.
  unfoldable pub write_all : List Command → Lines → Lines
  write_all [] rest = rest
  write_all ((c, args) ∷ cmds) rest =
      write_command parse_uint at_end decimal (c ∷ args) ++ write_all cmds rest

  abbrev pub answer : Command → List ℕ
  answer (c, args) =
      (redis_handler decimal lower version os c (words_of parse_uint at_end decimal args)).0

  abbrev pub Reads : List Command → Type 0
  Reads cmds = All (λ (x : Command). ReadsCommand parse_uint at_end decimal (x.0 ∷ x.1)) cmds

  abbrev L : Type 0
  L = Log decimal lower version os

  abbrev pub answered : L → List Command → L
  answered log cmds = record {
    answers = log.answers ++ map answer cmds;
    commands = log.commands ++ map (λ (x : Command). x.0) cmds;
  }

  reply-open :
      (next : Lines → ℕ → L → Outcome Failure L) (a : List ℕ × Bool) (lines : Lines) (room : ℕ)
      (log : L)
      → a.1 ≡ false
      → reply decimal lower version os parse_uint at_end next a lines (suc room) log
        ≡ next lines room (record log { answers = log.answers ++ (a.0 ∷ []) })
  reply-open next (x, true) lines room log h = absurd (cc h)
  reply-open next (x, false) lines room log h = refl

  answered-nil : (log : L) → answered log [] ≡ log
  answered-nil log = rw (append_nil log.answers, append_nil log.commands) refl

  answered-cons :
      (log : L) (x : Command) (cmds : List Command)
      → answered
          (record {
            answers = log.answers ++ (answer x ∷ []);
            commands = log.commands ++ (x.0 ∷ []);
          })
          cmds
        ≡ answered log (x ∷ cmds)
  answered-cons log x cmds =
      rw
        (
          append_assoc log.answers (answer x ∷ []) (map answer cmds),
          append_assoc log.commands (x.0 ∷ []) (map (λ (x : Command). x.0) cmds),
        )
        refl

  abbrev turns : ℕ → Lines → ℕ → L → Outcome Failure L
  turns fuel = handle_turns decimal lower version os parse_uint at_end fuel

  one_turn :
      (next : Lines → ℕ → L → Outcome Failure L) (x : Command) (rest : Lines) (room : ℕ) (log : L)
      → ReadsCommand parse_uint at_end decimal (x.0 ∷ x.1)
      → on_parsed decimal lower version os parse_uint at_end next
          (parse_redis_data parse_uint at_end
            (suc (length (write_command parse_uint at_end decimal (x.0 ∷ x.1) ++ rest)))
            (write_command parse_uint at_end decimal (x.0 ∷ x.1) ++ rest))
          (suc room)
          log
        ≡ next rest room (record {
          answers = log.answers ++ (answer x ∷ []);
          commands = log.commands ++ (x.0 ∷ []);
        })
  one_turn next x rest room log h =
      let ws : List (List ℕ) = x.0 ∷ x.1 in
      let read =
        parse_redis_data-write_command parse_uint at_end decimal
          (length (write_words parse_uint at_end decimal ws ++ rest)) ws rest h in
      ap (λ r. on_parsed decimal lower version os parse_uint at_end next r (suc room) log) read
      ∙ reply-open next
          (redis_handler decimal lower version os x.0 (words_of parse_uint at_end decimal x.1)) rest
          room _
          (redis_handler-open decimal lower version os x.0 (words_of parse_uint at_end decimal x.1))

  first_turn :
      (fuel : ℕ) (x : Command) (rest : Lines) (room : ℕ) (log : L)
      → ReadsCommand parse_uint at_end decimal (x.0 ∷ x.1)
      → turns
          (suc fuel)
          (write_command parse_uint at_end decimal (x.0 ∷ x.1) ++ rest)
          (suc room)
          log
        ≡ turns fuel rest room (record {
          answers = log.answers ++ (answer x ∷ []);
          commands = log.commands ++ (x.0 ∷ []);
        })
  unfolding handle_turns
  first_turn fuel x rest room log h = one_turn (turns fuel) x rest room log h

  -- The turns over the commands.
  pub handle_turns-write_all :
      (cmds : List Command) (rest : Lines) (fuel room : ℕ) (log : L)
      → Reads cmds
      → length (write_all cmds rest) < fuel
      → (k : ℕ) × (length rest < k)
        × (turns fuel (write_all cmds rest) (length cmds + room) log
            ≡ turns k rest room (answered log cmds))
  unfolding write_all
  handle_turns-write_all [] rest fuel room log h e =
      let none_more : 0 + room ≡ room = omega arith in
      (fuel, e, rw (answered-nil log) (ap (λ r. turns fuel rest r log) none_more))
  handle_turns-write_all (x ∷ cmds) rest zero room log h e = elim e [ ]
  handle_turns-write_all (x ∷ cmds) rest (suc fuel) room log h e =
      let log' : L = record {
        answers = log.answers ++ (answer x ∷ []);
        commands = log.commands ++ (x.0 ∷ []);
      } in
      let lines = write_command parse_uint at_end decimal (x.0 ∷ x.1) in
      let shorter : length (write_all cmds rest) < fuel =
        omega (arith, length-append {0} lines (write_all cmds rest), e) in
      let (k, more, later) = handle_turns-write_all cmds rest fuel room log' h.1 shorter in
      let one_more : suc (length cmds) + room ≡ suc (length cmds + room) = omega arith in
      (
        k,
        more,
        ap (λ r. turns (suc fuel) (lines ++ write_all cmds rest) r log) one_more
            ∙ first_turn fuel x (write_all cmds rest) (length cmds + room) log h.0
            ∙ later
            ∙ ap (turns k rest room) (answered-cons log x cmds),
      )

  turns_end : (k : ℕ) (log : L) → at_end ≢ stuck → 0 < k → turns k [] 0 log ≡ ok log
  unfolding handle_turns parse_redis_data
  turns_end zero log ends h = elim h [ ]
  turns_end (suc k) log ends h = closed at_end ends
    where
      closed :
          (e : Failure)
          → e ≢ stuck
          → on_parsed decimal lower version os parse_uint at_end (turns k) (err e) 0 log ≡ ok log
      closed eof n = refl
      closed Failure.failed n = refl
      closed stuck n = absurd (n refl)

  turns_empty :
      (k : ℕ) (size : List ℕ) (rest : Lines) (room : ℕ) (log : L)
      → parse_uint size ≡ some 0
      → length ((b'*' ∷ size) ∷ rest) < k
      → turns k ((b'*' ∷ size) ∷ rest) room log ≡ panic
  unfolding handle_turns parse_redis_data parse_items
  turns_empty zero size rest room log z h = elim h [ ]
  turns_empty (suc k) size rest room log z h = rw z refl

  pub handle_lines :
      (cmds : List Command)
      → Reads cmds
      → at_end ≢ stuck
      → handle decimal lower version os parse_uint at_end (write_all cmds []) (length cmds)
        ≡ ok (record { answers = map answer cmds; commands = map (λ (x : Command). x.0) cmds })
  unfolding handle
  handle_lines cmds h ends =
      let lines = write_all cmds [] in
      let start = no_log decimal lower version os parse_uint at_end in
      let (k, more, run) =
        handle_turns-write_all cmds [] (suc (length lines)) 0 start h (omega arith) in
      let all_room : length cmds ≡ length cmds + 0 = omega arith in
      ap (λ r. turns (suc (length lines)) lines r start) all_room
      ∙ run
      ∙ turns_end k (answered start cmds) ends more

  pub handle_lines_empty :
      (cmds : List Command) (size : List ℕ) (rest : Lines) (room : ℕ)
      → Reads cmds
      → parse_uint size ≡ some 0
      → handle decimal lower version os parse_uint at_end
          (write_all cmds ((b'*' ∷ size) ∷ rest))
          (length cmds + room)
        ≡ panic
  unfolding handle
  handle_lines_empty cmds size rest room h z =
      let behind : Lines = (b'*' ∷ size) ∷ rest in
      let lines = write_all cmds behind in
      let start = no_log decimal lower version os parse_uint at_end in
      let (k, more, run) =
        handle_turns-write_all cmds behind (suc (length lines)) room start h (omega arith) in
      run ∙ turns_empty k size rest room (answered start cmds) z more
