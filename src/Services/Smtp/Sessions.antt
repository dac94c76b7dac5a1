-- ===== src/Services/Smtp/Sessions.antt =====
-- Sessions of honeytrap/services/smtp/conn.go with a reader that is a list of lines.
use dynamic_labyrinth.Base.{
  ℕ, ◌-◌, ◌≤◌, ◌<◌, ◌≡◌, ◌≢◌, ◌⊎◌, inl, inr, false, none, some, List, [], ◌∷◌, ◌++◌, length, leb,
  ◌&&◌, if◌then◌else◌, ok, err, panic, arith, refl, sym,
}
use dynamic_labyrinth.Base.Int.{pos}
use dynamic_labyrinth.Base.Text.{codes, same_text, split_at}
use dynamic_labyrinth.Services.Decoder.{stuck}
use dynamic_labyrinth.Services.Smtp.Commands.{extensions}
use dynamic_labyrinth.Services.Smtp.{
  Net, Conn, step, run, serve, new_conn, hello_state, loop_state, mail_from_state, read_message,
}
use dynamic_labyrinth.Services.Smtp.Bounds.{serve-bounded}
use dynamic_labyrinth.Services.Smtp.Ends.{serve-ne-stuck}

abbrev next_line : List (List ℕ) → List ℕ ⊎ (List ℕ × List (List ℕ))
next_line [] = inl (codes "EOF")
next_line (l ∷ ls) = inr (l, ls)

-- The lines up to a dot.
abbrev dots : List ℕ → List (List ℕ) → (List ℕ ⊎ List ℕ) × List (List ℕ)
dots text [] = (inl (codes "unexpected EOF"), [])
dots text (l ∷ ls) = if same_text l (codes ".") then (inr text, ls) else dots (text ++ l) ls

abbrev upper_byte : ℕ → ℕ
upper_byte c = if leb 97 c && leb c 122 then c - 32 else c

abbrev upper : List ℕ → List ℕ
upper [] = []
upper (c ∷ s) = upper_byte c ∷ upper s

-- Every text is a message without a header, and there is no TLS.
abbrev script : Net
script = record {
  Reader = List (List ℕ);
  Header = Unit {0};
  read_line = next_line;
  read_dots = dots [];
  copy_n = λ n r. (([], none), r);
  parse_int = λ s. inr (pos 0);
  read_message = λ s. inr (tt, inr s);
  handshake = λ r. none;
  upper = upper;
  sum = λ s. s;
}

dots-length : (text : List ℕ) (r : List (List ℕ)) → length (dots text r).1 ≤ length r
dots-length text [] = omega arith
dots-length text (l ∷ ls) = ground (arith, dots-length (text ++ l) ls)

next_line-length :
    (r r' : List (List ℕ)) (line : List ℕ) → next_line r ≡ inr (line, r') → length r' < length r
next_line-length [] r' line q = absurd (cc q)
next_line-length (l ∷ ls) r' line q = let e : ls ≡ r' = cc q in rw (sym e) (omega arith)

-- A mail without a recipient.
abbrev session : List (List ℕ)
session =
    codes "ehlo me"
    ∷ codes "mail from: a"
    ∷ codes "data"
    ∷ codes "hi"
    ∷ codes "."
    ∷ codes "noop"
    ∷ codes "quit"
    ∷ []

abbrev ended : Conn script
ended = record {
  text = [];
  domain = codes "me";
  msg = record { header = none; buffer = []; body = [] };
  i = 3;
  written =
      codes "220 b"
      ∷ codes "250-Hello me"
      ∷ (extensions false
          ++ (codes "250 Ok"
              ∷ codes "354 Enter message, ending with \".\" on a line by itself"
              ∷ codes "250 Ok : queued as +hi"
              ∷ codes "250 Ok"
              ∷ codes "221 Bye"
              ∷ []));
  rcv = codes "ehlo me" ∷ codes "mail from: a" ∷ codes "data" ∷ codes "noop" ∷ codes "quit" ∷ [];
  served = (record { header = some tt; buffer = []; body = codes "hi" }) ∷ [];
}

serve-session : serve script 20 (codes "b") false session ≡ ok ended
unfolding run step hello_state loop_state mail_from_state read_message split_at
serve-session = refl

-- BDAT without a size panics.
serve-bdat :
    serve script 20 (codes "b") false (codes "HELO me" ∷ codes "MAIL FROM" ∷ codes "BDAT" ∷ [])
    ≡ panic
unfolding run step hello_state loop_state mail_from_state read_message split_at
serve-bdat = refl

serve-bounded_example : (3 ≤ 101) × (1 ≤ 100) × (1 ≤ 3)
serve-bounded_example = serve-bounded script 20 (codes "b") false session ended serve-session

serve-ne-stuck_example : serve script 20 (codes "b") false session ≢ err stuck
serve-ne-stuck_example =
    serve-ne-stuck script length next_line-length (λ r. dots-length [] r) (λ n r. omega arith)
      (λ r r' q. absurd (cc q)) 20 (codes "b") false session (omega arith)

-- A mail that has begun, before DATA.
abbrev before : Conn script
before = new_conn script (codes "data" ∷ codes "hi" ∷ codes "." ∷ [])

abbrev after : Conn script
after = record before {
  text = [];
  written =
      codes "354 Enter message, ending with \".\" on a line by itself"
      ∷ codes "250 Ok : queued as +hi"
      ∷ [];
  rcv = codes "data" ∷ [];
  served = (record { header = some tt; buffer = []; body = codes "hi" }) ∷ [];
}
