-- ===== src/Services/Smtp.antt =====
-- honeytrap/services/smtp/conn.go: one connection of the mail service, as a machine of states. Texts are lists
-- of bytes. What net/textproto, net/mail, crypto/tls, crypto/sha1 and strconv give is a parameter.
pub mod Commands
pub mod Diagram
pub mod Bounds
pub mod Ends
mod Sessions
use dynamic_labyrinth.Base.{
  ℕ, zero, suc, ◌+◌, Bool, true, false, Option, none, some, List, [], ◌∷◌, ◌++◌, ltb, ◌==◌, ◌&&◌,
  if◌then◌else◌, ◌⊎◌, inl, inr, Outcome, ok, err, panic,
}
use dynamic_labyrinth.Base.Int.{ℤ}
use dynamic_labyrinth.Base.Text.{codes, same_text}
use dynamic_labyrinth.Services.Decoder.{Stuck, stuck}
use dynamic_labyrinth.Services.Smtp.Commands.{
  cmd_supported, is_last, mail_words, threshold, loop_words, extensions, hello_words, Keyword, helo,
  ehlo, mail, starttls, rset, help, quit, noop, rcpt, bdat, text_data, spaces, empty, other,
  first_word, split_spaces, is_blank, parse_hello_argument,
}

-- The text connection and the other libraries; an error is its text.
pub record Net : Type 1 where
  pub Reader : Type 0
  pub Header : Type 0
  pub read_line : Reader → List ℕ ⊎ (List ℕ × Reader)
  pub read_dots : Reader → (List ℕ ⊎ List ℕ) × Reader
  pub copy_n : ℤ → Reader → (List ℕ × Option (List ℕ)) × Reader
  pub parse_int : List ℕ → List ℕ ⊎ ℤ
  pub read_message : List ℕ → List ℕ ⊎ (Header × (List ℕ ⊎ List ℕ))
  pub handshake : Reader → Option Reader
  pub upper : List ℕ → List ℕ
  pub sum : List ℕ → List ℕ

module _ (net : Net) where
  -- `Message`, with what is left in its Buffer.
  pub record Message : Type 0 where
    pub header : Option net.Header
    pub buffer : List ℕ
    pub body : List ℕ

  -- `conn`; what it has written, sent to `rcv` and served.
  pub record Conn : Type 0 where
    pub text : net.Reader
    pub domain : List ℕ
    pub msg : Message
    pub i : ℕ
    pub written : List (List ℕ)
    pub rcv : List (List ℕ)
    pub served : List Message

  -- A `stateFn`, by the name of the function.
  pub data State : Type 0 where
    start : State
    hello : State
    loop : State
    mail_from : State
    unrecognized : State
    failing : List ℕ → State

  -- The next state, none for nil, and the connection after it.
  abbrev pub Step : Type 0
  Step = Outcome Stuck (Option State × Conn)

  abbrev pub new_message : Message
  new_message = record { header = none; buffer = []; body = [] }

  abbrev pub print_line : List ℕ → Conn → Conn
  print_line l c = record c { written = c.written ++ (l ∷ []) }

  abbrev pub goto : State → Conn → Step
  goto s c = ok (some s, c)

  -- `Message.Read` of a reader that yields those bytes.
  unfoldable pub read_message : List ℕ → Message → Message × Option (List ℕ)
  read_message buff m = elim (net.read_message buff) [
    | inl e ↦ (record m { body = buff }, some e)
    | inr (h, inl e) ↦ (record m { header = some h }, some e)
    | inr (h, inr b) ↦ (record m { header = some h; body = b }, none)
  ]

  abbrev pub queued : List ℕ → Conn → Conn
  queued sum c = print_line (codes "250 Ok : queued as +" ++ sum) c

  -- The end of BDAT and DATA: the message is served and a new one begun.
  abbrev pub serve_message : Conn → Conn
  serve_message c = record c { served = c.served ++ (c.msg ∷ []); msg = new_message }

  abbrev pub list_commands : Conn → Conn
  list_commands c =
      print_line (codes "214 " ++ cmd_supported)
        (print_line (codes "214 Following SMTP commands are supported:") c)

  -- What BDAT LAST and DATA do with a message that is read, or not.
  abbrev pub on_message : List ℕ → List ℕ → Conn → Message × Option (List ℕ) → Step
  on_message says sum c (m, some e) = goto (failing (says ++ e)) (record c { msg = m })
  on_message says sum c (m, none) = goto loop (serve_message (queued sum (record c { msg = m })))

  abbrev pub on_last : Bool → Conn → Step
  on_last true c =
      on_message (codes "[bdat]: error ") (net.sum c.msg.buffer) c
        (read_message c.msg.buffer (record c.msg { buffer = [] }))
  on_last false c = goto mail_from (print_line (codes "250 Ok") c)

  abbrev pub on_chunk : Bool → (List ℕ × Option (List ℕ)) × net.Reader → Conn → Step
  on_chunk last ((copied, some e), r) c =
      goto (failing (codes "[bdat]: error " ++ e))
        (record c { text = r; msg = record c.msg { buffer = c.msg.buffer ++ copied } })
  on_chunk last ((copied, none), r) c =
      on_last last (record c { text = r; msg = record c.msg { buffer = c.msg.buffer ++ copied } })

  abbrev pub on_count : Bool → List ℕ ⊎ ℤ → Conn → Step
  on_count last (inl e) c = goto (failing (codes "[bdat]: error " ++ e)) c
  on_count last (inr n) c = on_chunk last (net.copy_n n c.text) c

  -- BDAT: a chunk of that many bytes; without a second part `parts[1]` panics.
  abbrev pub on_bdat : List (List ℕ) → Conn → Step
  on_bdat (cmd ∷ size ∷ parts) c = on_count (is_last (cmd ∷ size ∷ parts)) (net.parse_int size) c
  on_bdat _ c = panic

  -- DATA: the lines up to the dot are the message.
  abbrev pub on_dots : (List ℕ ⊎ List ℕ) × net.Reader → Conn → Step
  on_dots (inl e, r) c = goto (failing (codes "[data]: error " ++ e)) (record c { text = r })
  on_dots (inr buff, r) c =
      on_message (codes "[data]: error ") (net.sum buff) (record c { text = r })
        (read_message buff c.msg)

  abbrev pub on_data : Conn → Step
  on_data c =
      on_dots (net.read_dots c.text)
        (print_line (codes "354 Enter message, ending with \".\" on a line by itself") c)

  abbrev pub mail_word : List ℕ → Keyword
  mail_word line = if same_text line [] then empty else first_word mail_words (net.upper line) other

  abbrev pub mail_action : Keyword → List ℕ → Conn → Step
  mail_action empty line c = goto loop c
  mail_action rset line c = goto loop (record (print_line (codes "250 Ok") c) { msg = new_message })
  mail_action rcpt line c = goto mail_from (print_line (codes "250 Ok") c)
  mail_action bdat line c = on_bdat (split_spaces line) c
  mail_action text_data line c = on_data c
  mail_action help line c = goto mail_from (list_commands c)
  mail_action _ line c = goto unrecognized c

  unfoldable pub mail_from_state : List ℕ → Conn → Step
  mail_from_state line c = mail_action (mail_word line) line c

  -- STARTTLS with a `tlsConfig`; a failed handshake ends the session.
  abbrev pub on_handshake : Option net.Reader → Conn → Step
  on_handshake none c = ok (none, c)
  on_handshake (some r) c = goto hello (record c { text = r })

  abbrev pub on_starttls : Bool → Conn → Step
  on_starttls true c = on_handshake (net.handshake c.text) c
  on_starttls false c = goto hello (print_line (codes "500 5.3.3. Unrecognized Command.") c)

  abbrev pub loop_word : List ℕ → Keyword
  loop_word line = first_word loop_words (net.upper line) (if is_blank line then spaces else other)

  -- What `loopState` does with a line within the threshold.
  abbrev pub loop_action : Bool → Keyword → Conn → Step
  loop_action tls mail c = goto mail_from (print_line (codes "250 Ok") c)
  loop_action tls starttls c = on_starttls tls (print_line (codes "220 Ready to start TLS") c)
  loop_action tls rset c = goto loop (print_line (codes "250 Ok") (record c { msg = new_message }))
  loop_action tls help c = goto loop (list_commands c)
  loop_action tls quit c = ok (none, print_line (codes "221 Bye") c)
  loop_action tls noop c = goto loop (print_line (codes "250 Ok") c)
  loop_action tls spaces c = goto loop c
  loop_action tls _ c = goto unrecognized c

  -- A line that is not empty, with whether the counter is above the threshold.
  abbrev pub loop_count : Bool → Bool → List ℕ → Conn → Step
  loop_count true tls line c =
      goto (failing (codes "[loopState] error: exceeded server loop treshold > 100")) c
  loop_count false tls line c = loop_action tls (loop_word line) c

  abbrev pub loop_line : Bool → Bool → List ℕ → Conn → Step
  loop_line true tls line c = goto loop c
  loop_line false tls line c =
      loop_count (ltb threshold (c.i + 1)) tls line (record c { i = c.i + 1 })

  unfoldable pub loop_state : Bool → List ℕ → Conn → Step
  loop_state tls line c = loop_line (same_text line []) tls line c

  abbrev pub print_lines : List (List ℕ) → Conn → Conn
  print_lines ls c = record c { written = c.written ++ ls }

  abbrev pub on_helo : Option (List ℕ) → Conn → Step
  on_helo none c = goto (failing (codes "Invalid domain")) c
  on_helo (some domain) c = goto loop (
      print_line (codes "250 Hello " ++ (domain ++ codes ", I am glad to meet you"))
        (record c { domain = domain }))

  abbrev pub on_ehlo : Bool → Option (List ℕ) → Conn → Step
  on_ehlo tls none c = goto (failing (codes "Invalid domain")) c
  on_ehlo tls (some domain) c =
      goto loop (
        print_lines ((codes "250-Hello " ++ domain) ∷ extensions tls)
          (record c { domain = domain }))

  abbrev pub hello_word : List ℕ → Keyword
  hello_word line = first_word hello_words (net.upper line) other

  abbrev pub hello_action : Bool → Keyword → List ℕ → Conn → Step
  hello_action tls helo line c = on_helo (parse_hello_argument line) c
  hello_action tls ehlo line c = on_ehlo tls (parse_hello_argument line) c
  hello_action tls help line c = goto hello (
      print_lines
        (codes "214 This server supports the following commands"
          ∷ codes "214 HELO EHLO STARTTLS RCPT DATA RSET MAIL QUIT HELP AUTH DATA BDAT"
          ∷ [])
        c)
  hello_action tls _ line c =
      goto (failing (codes "Before we shake hands it will be appropriate to tell me who you are."))
        c

  unfoldable pub hello_state : Bool → List ℕ → Conn → Step
  hello_state tls line c = hello_action tls (hello_word line) line c

  -- A state that begins with `ReadLine`, and what it says where that fails.
  abbrev pub with_line :
      List ℕ → (List ℕ → Conn → Step) → List ℕ ⊎ (List ℕ × net.Reader) → Conn → Step
  with_line says f (inl e) c = goto (failing (says ++ e)) c
  with_line says f (inr (line, r)) c = f line (record c { text = r; rcv = c.rcv ++ (line ∷ []) })

  -- One call of a state.
  unfoldable pub step : List ℕ → Bool → State → Conn → Step
  step banner tls start c = goto hello (print_line (codes "220 " ++ banner) c)
  step banner tls hello c =
      with_line (codes "[helloState] ReadLine error. ") (hello_state tls) (net.read_line c.text) c
  step banner tls loop c =
      with_line (codes "[loopState] ") (loop_state tls) (net.read_line c.text) c
  step banner tls mail_from c =
      with_line (codes "[mailFromState] ") mail_from_state (net.read_line c.text) c
  step banner tls unrecognized c = goto loop (print_line (codes "500 unrecognized command") c)
  step banner tls (failing e) c = ok (none, print_line (codes "500 " ++ e) c)

  -- The loop of `serve`.
  unfoldable pub run : ℕ → List ℕ → Bool → Option State → Conn → Outcome Stuck Conn
  run fuel banner tls none c = ok c
  run zero banner tls (some s) c = err stuck
  run (suc fuel) banner tls (some s) c = elim (step banner tls s c) [
    | ok (s', c') ↦ run fuel banner tls s' c'
    | err e ↦ err e
    | panic ↦ panic
  ]

  -- `newConn` and `serve`.
  abbrev pub new_conn : net.Reader → Conn
  new_conn r = record {
    text = r;
    domain = [];
    msg = new_message;
    i = 0;
    written = [];
    rcv = [];
    served = [];
  }

  abbrev pub serve : ℕ → List ℕ → Bool → net.Reader → Outcome Stuck Conn
  serve fuel banner tls r = run fuel banner tls (some start) (new_conn r)
