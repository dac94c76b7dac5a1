-- ===== src/Services/Redis/Examples.antt =====
-- Runs of honeytrap/services/redis.
use dynamic_labyrinth.Base.{
  ℕ, Bool, ◌≡◌, ◌≢◌, ◌+◌, ◌-◌, ◌++◌, ok, none, some, Option, true, false, List, [], ◌∷◌, inl, inr,
  arith, panic, refl, All, ◌==◌, if◌then◌else◌, map, length, ◌<◌, ◌&&◌, Bool-cases,
}
use dynamic_labyrinth.Base.Text.{codes}
use dynamic_labyrinth.Services.Redis.{eof, handle, Lines}
use dynamic_labyrinth.Services.Redis.Dialogue.{Closes, handle-Closes}
use dynamic_labyrinth.Services.Redis.Turns.{Command, write_all, answer}
use dynamic_labyrinth.Services.Redis.Answers.{
  IsLine, IsScanner, terminated, client_bytes, handle-client_bytes, handle-empty_array,
}

-- Numbers of one digit.
abbrev digit : ℕ → List ℕ
digit n = (b'0' + n) ∷ []

abbrev read_digit : List ℕ → Option ℕ
read_digit (c ∷ []) = some (c - b'0')
read_digit _ = none

abbrev same_case : List ℕ → List ℕ
same_case text = text

abbrev two_commands : List Command
two_commands = (codes "info", codes "cpu" ∷ []) ∷ (codes "get", codes "k" ∷ []) ∷ []

handle-Closes_example :
    Closes digit same_case [] [] read_digit eof
      (handle digit same_case [] [] read_digit eof (codes "*1" ∷ codes ":7" ∷ []) 3)
handle-Closes_example =
    handle-Closes digit same_case [] [] read_digit eof (codes "*1" ∷ codes ":7" ∷ []) 3
      (λ q. absurd (cc q))

-- A scanner: a newline ends a line, and a carriage return before it is dropped.
abbrev at_newline : List ℕ → Bool
at_newline [] = false
at_newline (c ∷ text) = c == b'\n'

abbrev onto_first : ℕ → Lines → Lines
onto_first c [] = (c ∷ []) ∷ []
onto_first c (line ∷ lines) = (c ∷ line) ∷ lines

abbrev scan_lines : List ℕ → Lines
scan_lines [] = []
scan_lines (c ∷ text) =
    let lines = scan_lines text in
    if c == b'\n'
    then [] ∷ lines
    else if (c == b'\r') && at_newline text
    then lines
    else onto_first c lines

no_newline :
    (line rest : List ℕ)
    → All (λ c. c ≢ b'\n') line
    → at_newline (line ++ (b'\r' ∷ b'\n' ∷ rest)) ≡ false
no_newline [] rest h = refl
no_newline (c ∷ line) rest h = ground (arith, h.0)

scan_lines-line :
    (line rest : List ℕ)
    → All (λ c. c ≢ b'\n') line
    → scan_lines (line ++ (b'\r' ∷ b'\n' ∷ rest)) ≡ line ∷ scan_lines rest
scan_lines-line [] rest h = refl
scan_lines-line (c ∷ line) rest h =
    let other : c == b'\n' ≡ false = ground (arith, h.0) in
    elim (Bool-cases (c == b'\r')) [
      | inl e ↦ rw (other, e, no_newline line rest h.1, scan_lines-line line rest h.1) refl
      | inr e ↦ rw (other, e, scan_lines-line line rest h.1) refl
    ]

scan_lines-IsScanner : IsScanner scan_lines
scan_lines-IsScanner = record {
  at_end = refl;
  at_line = λ line rest h. scan_lines-line line rest h.0;
}

abbrev fits : List ℕ → Bool
fits [] = true
fits (c ∷ text) = let later = fits text in if c == b'\n' then false else later

fits-IsLine : (line : List ℕ) → fits line ≡ true → length line < 65534 → IsLine line
fits-IsLine [] e l = (tt, l)
fits-IsLine (c ∷ line) e l = elim (Bool-cases (c == b'\n')) [
  | inl q ↦ absurd (ground (arith, e, q))
  | inr q ↦
      let later : fits line ≡ true = ground (arith, e, q) in
      ((ground (arith, q), (fits-IsLine line later (omega arith)).0), l)
]

two_commands-IsLine : All IsLine (write_all digit same_case [] [] read_digit eof two_commands [])
unfolding write_all
two_commands-IsLine = (
  fits-IsLine (codes "*2") refl (omega arith),
  (
    fits-IsLine (codes "$4") refl (omega arith),
    (
      fits-IsLine (codes "info") refl (omega arith),
      (
        fits-IsLine (codes "$3") refl (omega arith),
        (
          fits-IsLine (codes "cpu") refl (omega arith),
          (
            fits-IsLine (codes "*2") refl (omega arith),
            (
              fits-IsLine (codes "$3") refl (omega arith),
              (
                fits-IsLine (codes "get") refl (omega arith),
                (
                  fits-IsLine (codes "$1") refl (omega arith),
                  (fits-IsLine (codes "k") refl (omega arith), tt),
                ),
              ),
            ),
          ),
        ),
      ),
    ),
  ),
)

two_bytes :
    client_bytes digit same_case [] [] read_digit eof two_commands
    ≡ codes "*2\r\n$4\r\ninfo\r\n$3\r\ncpu\r\n*2\r\n$3\r\nget\r\n$1\r\nk\r\n"
unfolding write_all terminated
two_bytes = refl

handle-client_bytes_example :
    handle digit same_case [] [] read_digit eof
      (scan_lines (client_bytes digit same_case [] [] read_digit eof two_commands))
      2
    ≡ ok (record {
      answers = map (answer digit same_case [] [] read_digit eof) two_commands;
      commands = codes "info" ∷ codes "get" ∷ [];
    })
handle-client_bytes_example =
    handle-client_bytes digit same_case [] [] read_digit eof scan_lines two_commands
      scan_lines-IsScanner ((refl, (refl, (refl, tt))), ((refl, (refl, (refl, tt))), tt))
      two_commands-IsLine (λ q. absurd (cc q))

handle-empty_array_example :
    handle digit same_case [] [] read_digit eof
      (scan_lines
        (client_bytes digit same_case [] [] read_digit eof two_commands ++ codes "*0\r\n:1"))
      5
    ≡ panic
handle-empty_array_example =
    handle-empty_array digit same_case [] [] read_digit eof scan_lines two_commands (codes "0")
      (codes ":1") 3 scan_lines-IsScanner
      ((refl, (refl, (refl, tt))), ((refl, (refl, (refl, tt))), tt)) two_commands-IsLine
      (fits-IsLine (codes "*0") refl (omega arith)) refl
