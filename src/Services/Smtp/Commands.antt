-- ===== src/Services/Smtp/Commands.antt =====
-- Tests on a line of honeytrap/services/smtp/conn.go, with the functions of package strings that they use.
use dynamic_labyrinth.Base.{
  ℕ, Bool, true, false, Option, none, some, List, [], ◌∷◌, ◌++◌, ◌==◌, ◌&&◌, ◌||◌, if◌then◌else◌,
}
use dynamic_labyrinth.Base.Text.{codes, same_text, split_at}

-- strings.HasPrefix
abbrev pub starts_with : List ℕ → List ℕ → Bool
starts_with [] line = true
starts_with (c ∷ cmd) [] = false
starts_with (c ∷ cmd) (d ∷ line) = c == d && starts_with cmd line

-- strings.Split at the spaces.
abbrev pub split_spaces : List ℕ → List (List ℕ)
split_spaces line = split_at 32 line

-- strings.Trim of spaces and line ends leaves nothing.
abbrev pub is_blank : List ℕ → Bool
is_blank [] = true
is_blank (c ∷ line) = (c == 32 || (c == 13 || c == 10)) && is_blank line

-- What stands behind the first space.
abbrev pub after_space : List ℕ → Option (List ℕ)
after_space [] = none
after_space (c ∷ arg) = if c == 32 then some arg else after_space arg

-- `parseHelloArgument`: none for the error.
abbrev pub non_empty : List ℕ → Option (List ℕ)
non_empty [] = none
non_empty (c ∷ domain) = some (c ∷ domain)

abbrev pub parse_hello_argument : List ℕ → Option (List ℕ)
parse_hello_argument arg = elim (after_space arg) [
  | some domain ↦ non_empty domain
  | none ↦ non_empty arg
]

-- What the chains of tests on a line find.
pub data Keyword : Type 0 where
  helo ehlo mail starttls rset help quit noop rcpt bdat text_data spaces empty other : Keyword

-- The first word of a table that the upper case of a line begins with.
abbrev pub first_word : List (List ℕ × Keyword) → List ℕ → Keyword → Keyword
first_word [] line last = last
first_word ((cmd, k) ∷ table) line last =
    if starts_with cmd line then k else first_word table line last

-- The tables of the three states that read commands, the threshold of the loop, and replies.
abbrev pub cmd_supported : List ℕ
cmd_supported = codes "HELO EHLO STARTTLS RCPT DATA RSET MAIL QUIT HELP AUTH BDAT NOOP QUIT"

abbrev pub is_last : List (List ℕ) → Bool
is_last (a ∷ b ∷ l ∷ []) = same_text l (codes "LAST")
is_last _ = false

abbrev pub mail_words : List (List ℕ × Keyword)
mail_words =
    (codes "RSET", rset)
    ∷ (codes "RCPT TO", rcpt)
    ∷ (codes "BDAT", bdat)
    ∷ (codes "DATA", text_data)
    ∷ (codes "HELP", help)
    ∷ []

abbrev pub threshold : ℕ
threshold = 100

abbrev pub loop_words : List (List ℕ × Keyword)
loop_words =
    (codes "MAIL FROM", mail)
    ∷ (codes "STARTTLS", starttls)
    ∷ (codes "RSET", rset)
    ∷ (codes "HELP", help)
    ∷ (codes "QUIT", quit)
    ∷ (codes "NOOP", noop)
    ∷ []

abbrev pub extensions : Bool → List (List ℕ)
extensions tls =
    codes "250-SIZE 35882577"
    ∷ codes "250-8BITMIME"
    ∷ ((if tls then codes "250-STARTTLS" ∷ [] else [])
        ++ (codes "250-HELP"
            ∷ codes "250-ENHANCEDSTATUSCODES"
            ∷ codes "250-PIPELINING"
            ∷ codes "250-CHUNKING"
            ∷ codes "250 SMTPUTF8"
            ∷ []))

abbrev pub hello_words : List (List ℕ × Keyword)
hello_words = (codes "HELO", helo) ∷ (codes "EHLO", ehlo) ∷ (codes "HELP", help) ∷ []
