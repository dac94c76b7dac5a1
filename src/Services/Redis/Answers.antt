-- ===== src/Services/Redis/Answers.antt =====
-- What `Handle` of honeytrap/services/redis answers to the bytes of a client.
use dynamic_labyrinth.Base.{
  ℕ, ◌≡◌, ◌∙◌, ◌<◌, ◌+◌, Option, some, List, [], ◌∷◌, ◌++◌, length, map, All, refl, ap, sym, ok,
  panic, append_assoc, append_nil, ◌≢◌,
}
use dynamic_labyrinth.Services.Redis.{Failure, stuck, Lines, handle}
use dynamic_labyrinth.Services.Redis.Parsing.{write_command}
use dynamic_labyrinth.Services.Redis.Turns.{
  Command, write_all, answer, Reads, handle_lines, handle_lines_empty,
}

-- A line that is scanned: no newline in it, and short enough, with its end, for the buffer of 65536 bytes.
abbrev pub IsLine : List ℕ → Type 0
IsLine line = All (λ c. c ≢ b'\n') line × (length line < 65534)

-- What is relied on of `bufio.ScanLines`.
pub record IsScanner (scan : List ℕ → Lines) : Type 0 where
  pub at_end : scan [] ≡ []
  pub at_line :
      (line rest : List ℕ) → IsLine line → scan (line ++ (b'\r' ∷ b'\n' ∷ rest)) ≡ line ∷ scan rest

-- Lines with their ends, on the wire.
unfoldable pub terminated : Lines → List ℕ
terminated [] = []
terminated (line ∷ lines) = line ++ (b'\r' ∷ b'\n' ∷ terminated lines)

scan-terminated :
    (scan : List ℕ → Lines) (lines : Lines) (rest : List ℕ)
    → IsScanner scan
    → All IsLine lines
    → scan (terminated lines ++ rest) ≡ lines ++ scan rest
unfolding terminated
scan-terminated scan [] rest s h = refl
scan-terminated scan (line ∷ lines) rest s h =
    ap scan (append_assoc line (b'\r' ∷ b'\n' ∷ terminated lines) rest)
    ∙ s.at_line line (terminated lines ++ rest) h.0
    ∙ ap (λ l. line ∷ l) (scan-terminated scan lines rest s h.1)

module _ (decimal : ℕ → List ℕ) (lower : List ℕ → List ℕ) (version os : List ℕ)
    (parse_uint : List ℕ → Option ℕ) (at_end : Failure) where
  abbrev pub written : List Command → Lines → Lines
  written cmds rest = write_all decimal lower version os parse_uint at_end cmds rest

  written-append :
      (cmds : List Command) (rest : Lines) → written cmds [] ++ rest ≡ written cmds rest
  unfolding write_all
  written-append [] rest = refl
  written-append (x ∷ cmds) rest =
      let first = write_command parse_uint at_end decimal (x.0 ∷ x.1) in
      append_assoc first (written cmds []) rest ∙ ap (λ l. first ++ l) (written-append cmds rest)

  -- The bytes of the commands.
  abbrev pub client_bytes : List Command → List ℕ
  client_bytes cmds = terminated (written cmds [])

  -- Where a client sends commands, with any arguments, as arrays of bulk strings, none with a newline and
  -- each line short enough for the scanner, and then closes the connection, and the writes succeed, Handle answers
  -- them one by one, in order, each as REDISHandler says, and ends.
  pub handle-client_bytes :
      (scan : List ℕ → Lines) (cmds : List Command)
      → IsScanner scan
      → Reads decimal lower version os parse_uint at_end cmds
      → All IsLine (written cmds [])
      → at_end ≢ stuck
      → handle decimal lower version os parse_uint at_end (scan (client_bytes cmds)) (length cmds)
        ≡ ok (record {
          answers = map (answer decimal lower version os parse_uint at_end) cmds;
          commands = map (λ (x : Command). x.0) cmds;
        })
  handle-client_bytes scan cmds s h fits ends =
      let lines = written cmds [] in
      let read : scan (client_bytes cmds) ≡ lines =
        ap scan (sym (append_nil (client_bytes cmds)))
        ∙ scan-terminated scan lines [] s fits
        ∙ ap (λ l. lines ++ l) s.at_end
        ∙ append_nil lines in
      ap (λ l. handle decimal lower version os parse_uint at_end l (length cmds)) read
      ∙ handle_lines decimal lower version os parse_uint at_end cmds h ends

  -- An empty array behind such commands, whatever comes after it, makes Handle panic where the writes before it
  -- succeed.
  pub handle-empty_array :
      (scan : List ℕ → Lines) (cmds : List Command) (size rest : List ℕ) (room : ℕ)
      → IsScanner scan
      → Reads decimal lower version os parse_uint at_end cmds
      → All IsLine (written cmds [])
      → IsLine (b'*' ∷ size)
      → parse_uint size ≡ some 0
      → handle decimal lower version os parse_uint at_end
          (scan (client_bytes cmds ++ ((b'*' ∷ size) ++ (b'\r' ∷ b'\n' ∷ rest))))
          (length cmds + room)
        ≡ panic
  handle-empty_array scan cmds size rest room s h fits line z =
      let lines = written cmds [] in
      let bytes : List ℕ = (b'*' ∷ size) ++ (b'\r' ∷ b'\n' ∷ rest) in
      let read =
        scan-terminated scan lines bytes s fits
        ∙ ap (λ l. lines ++ l) (s.at_line (b'*' ∷ size) rest line)
        ∙ written-append cmds ((b'*' ∷ size) ∷ scan rest) in
      ap (λ l. handle decimal lower version os parse_uint at_end l (length cmds + room)) read
      ∙ handle_lines_empty decimal lower version os parse_uint at_end cmds size (scan rest) room h z
