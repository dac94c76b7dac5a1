-- ===== src/Services/Smtp/Diagram.antt =====
-- The diagram of the states of honeytrap/services/smtp/conn.go, and what a session can reach on it.
use dynamic_labyrinth.Base.{
  ℕ, ◌+◌, ◌≤◌, ◌≡◌, Bool, true, false, Option, none, some, List, [], ◌∷◌, ◌++◌, ltb, ◌⊎◌, inl, inr,
  ok, err, panic, arith, refl, ap,
}
use mathlib.Core.Path.{subst}
use dynamic_labyrinth.Base.Int.{ℤ}
use dynamic_labyrinth.Base.Text.{codes}
use dynamic_labyrinth.Services.Smtp.Commands.{
  is_last, Keyword, helo, ehlo, mail, starttls, rset, help, quit, noop, rcpt, bdat, text_data,
  spaces, empty, split_spaces, parse_hello_argument,
}
use dynamic_labyrinth.Services.Smtp.{
  Net, Message, Conn, State, start, hello, loop, mail_from, unrecognized, failing, Step, step,
  on_helo, on_ehlo, hello_action, hello_word, hello_state, on_handshake, on_starttls, loop_action,
  loop_word, loop_count, loop_line, loop_state, read_message, on_message, on_last, on_chunk,
  on_count, on_bdat, on_dots, mail_action, mail_word, mail_from_state, with_line,
}

module _ (net : Net) where
  -- No message served and no command counted.
  abbrev pub Same : Conn net → Conn net → Type 0
  Same c c' = (c'.served ≡ c.served) × (c'.i ≡ c.i)

  -- Where a counted command leads.
  pub data Command : Option (State net) → Type 0 where
    command_loop : Command (some loop)
    command_mail : Command (some mail_from)
    command_hello : Command (some hello)
    command_unrecognized : Command (some unrecognized)
    command_end : Command none

  -- Where a line of a mail leads without a message.
  pub data Line : Option (State net) → Type 0 where
    line_loop : Line (some loop)
    line_mail : Line (some mail_from)
    line_unrecognized : Line (some unrecognized)
    line_failing : (e : List ℕ) → Line (some (failing e))

  pub data Greeting : Option (State net) → Type 0 where
    greeting_hello : Greeting (some hello)
    greeting_loop : Greeting (some loop)
    greeting_failing : (e : List ℕ) → Greeting (some (failing e))

  -- The edges, with what they do to the served messages and the counter.
  pub data Edge (c c' : Conn net) : State net → Option (State net) → Type 0 where
    begun : Same c c' → Edge c c' start (some hello)
    greeted : {s : Option (State net)} → Greeting s → Same c c' → Edge c c' hello s
    skipped : Same c c' → Edge c c' loop (some loop)
    unread : (e : List ℕ) → Same c c' → Edge c c' loop (some (failing e))
    counted :
        {s : Option (State net)}
        → Command s
        → c'.served ≡ c.served
        → c'.i ≡ c.i + 1
        → c'.i ≤ 100
        → Edge c c' loop s
    stopped :
        (e : List ℕ) → c'.served ≡ c.served → c'.i ≡ c.i + 1 → Edge c c' loop (some (failing e))
    mailed : {s : Option (State net)} → Line s → Same c c' → Edge c c' mail_from s
    delivered :
        (m : Message net)
        → c'.served ≡ c.served ++ (m ∷ [])
        → c'.i ≡ c.i
        → Edge c c' mail_from (some loop)
    refused : Same c c' → Edge c c' unrecognized (some loop)
    failed : (e : List ℕ) → Same c c' → Edge c c' (failing e) none

  abbrev Follows : Conn net → State net → Option (State net) → Conn net → Type 0
  Follows c s s' c' = Edge c c' s s'

  -- A step that leads somewhere follows an edge.
  abbrev OnEdge : Conn net → State net → Step net → Type 0
  OnEdge c s (ok (s', c')) = Edge c c' s s'
  OnEdge c s (err e) = Unit {0}
  OnEdge c s panic = Unit {0}

  on_helo-OnEdge :
      (d : Option (List ℕ)) (c c0 : Conn net) → Same c0 c → OnEdge c0 hello (on_helo net d c)
  on_helo-OnEdge none c c0 e = greeted (greeting_failing _) e
  on_helo-OnEdge (some d) c c0 e = greeted greeting_loop e

  on_ehlo-OnEdge :
      (tls : Bool) (d : Option (List ℕ)) (c c0 : Conn net)
      → Same c0 c
      → OnEdge c0 hello (on_ehlo net tls d c)
  on_ehlo-OnEdge tls none c c0 e = greeted (greeting_failing _) e
  on_ehlo-OnEdge tls (some d) c c0 e = greeted greeting_loop e

  hello_action-OnEdge :
      (tls : Bool) (k : Keyword) (line : List ℕ) (c c0 : Conn net)
      → Same c0 c
      → OnEdge c0 hello (hello_action net tls k line c)
  hello_action-OnEdge tls helo line c c0 e = on_helo-OnEdge (parse_hello_argument line) c c0 e
  hello_action-OnEdge tls ehlo line c c0 e = on_ehlo-OnEdge tls (parse_hello_argument line) c c0 e
  hello_action-OnEdge tls help line c c0 e = greeted greeting_hello e
  hello_action-OnEdge tls _ line c c0 e = greeted (greeting_failing _) e

  -- The counter has moved, and is within the threshold.
  abbrev Counted : Conn net → Conn net → Type 0
  Counted c c' = (c'.served ≡ c.served) × (c'.i ≡ c.i + 1) × (c'.i ≤ 100)

  on_handshake-OnEdge :
      (r : Option net.Reader) (c c0 : Conn net)
      → Counted c0 c
      → OnEdge c0 loop (on_handshake net r c)
  on_handshake-OnEdge none c c0 (es, ei, le) = counted command_end es ei le
  on_handshake-OnEdge (some r) c c0 (es, ei, le) = counted command_hello es ei le

  on_starttls-OnEdge :
      (tls : Bool) (c c0 : Conn net) → Counted c0 c → OnEdge c0 loop (on_starttls net tls c)
  on_starttls-OnEdge true c c0 e = on_handshake-OnEdge (net.handshake c.text) c c0 e
  on_starttls-OnEdge false c c0 (es, ei, le) = counted command_hello es ei le

  loop_action-OnEdge :
      (tls : Bool) (k : Keyword) (c c0 : Conn net)
      → Counted c0 c
      → OnEdge c0 loop (loop_action net tls k c)
  loop_action-OnEdge tls mail c c0 (es, ei, le) = counted command_mail es ei le
  loop_action-OnEdge tls starttls c c0 e = on_starttls-OnEdge tls _ c0 e
  loop_action-OnEdge tls rset c c0 (es, ei, le) = counted command_loop es ei le
  loop_action-OnEdge tls help c c0 (es, ei, le) = counted command_loop es ei le
  loop_action-OnEdge tls quit c c0 (es, ei, le) = counted command_end es ei le
  loop_action-OnEdge tls noop c c0 (es, ei, le) = counted command_loop es ei le
  loop_action-OnEdge tls spaces c c0 (es, ei, le) = counted command_loop es ei le
  loop_action-OnEdge tls _ c c0 (es, ei, le) = counted command_unrecognized es ei le

  loop_count-OnEdge :
      (above tls : Bool) (line : List ℕ) (c c0 : Conn net)
      → above ≡ ltb 100 c.i
      → c.served ≡ c0.served
      → c.i ≡ c0.i + 1
      → OnEdge c0 loop (loop_count net above tls line c)
  loop_count-OnEdge true tls line c c0 q es ei = stopped _ es ei
  loop_count-OnEdge false tls line c c0 q es ei =
      loop_action-OnEdge tls (loop_word net line) c c0 (es, ei, ground arith)

  loop_line-OnEdge :
      (blank tls : Bool) (line : List ℕ) (c c0 : Conn net)
      → Same c0 c
      → OnEdge c0 loop (loop_line net blank tls line c)
  loop_line-OnEdge true tls line c c0 e = skipped e
  loop_line-OnEdge false tls line c c0 (es, ei) =
      loop_count-OnEdge (ltb 100 (c.i + 1)) tls line (record c { i = c.i + 1 }) c0 refl es
        (ap (λ n. n + 1) ei)

  on_message-OnEdge :
      (says sum : List ℕ) (r : Message net × Option (List ℕ)) (c c0 : Conn net)
      → Same c0 c
      → OnEdge c0 mail_from (on_message net says sum c r)
  on_message-OnEdge says sum (m, some t) c c0 e = mailed (line_failing _) e
  on_message-OnEdge says sum (m, none) c c0 (es, ei) = delivered m (ap (λ l. l ++ (m ∷ [])) es) ei

  on_last-OnEdge :
      (last : Bool) (c c0 : Conn net) → Same c0 c → OnEdge c0 mail_from (on_last net last c)
  on_last-OnEdge true c c0 e =
      on_message-OnEdge (codes "[bdat]: error ") _
        (read_message net c.msg.buffer (record c.msg { buffer = [] })) c c0 e
  on_last-OnEdge false c c0 e = mailed line_mail e

  on_chunk-OnEdge :
      (last : Bool) (r : (List ℕ × Option (List ℕ)) × net.Reader) (c c0 : Conn net)
      → Same c0 c
      → OnEdge c0 mail_from (on_chunk net last r c)
  on_chunk-OnEdge last ((copied, some t), r) c c0 e = mailed (line_failing _) e
  on_chunk-OnEdge last ((copied, none), r) c c0 e = on_last-OnEdge last _ c0 e

  on_count-OnEdge :
      (last : Bool) (n : List ℕ ⊎ ℤ) (c c0 : Conn net)
      → Same c0 c
      → OnEdge c0 mail_from (on_count net last n c)
  on_count-OnEdge last (inl t) c c0 e = mailed (line_failing _) e
  on_count-OnEdge last (inr n) c c0 e = on_chunk-OnEdge last (net.copy_n n c.text) c c0 e

  on_bdat-OnEdge :
      (parts : List (List ℕ)) (c c0 : Conn net)
      → Same c0 c
      → OnEdge c0 mail_from (on_bdat net parts c)
  on_bdat-OnEdge [] c c0 e = tt
  on_bdat-OnEdge (cmd ∷ []) c c0 e = tt
  on_bdat-OnEdge (cmd ∷ size ∷ parts) c c0 e =
      on_count-OnEdge (is_last (cmd ∷ size ∷ parts)) (net.parse_int size) c c0 e

  on_dots-OnEdge :
      (r : (List ℕ ⊎ List ℕ) × net.Reader) (c c0 : Conn net)
      → Same c0 c
      → OnEdge c0 mail_from (on_dots net r c)
  on_dots-OnEdge (inl t, r) c c0 e = mailed (line_failing _) e
  on_dots-OnEdge (inr buff, r) c c0 e =
      on_message-OnEdge (codes "[data]: error ") _ (read_message net buff c.msg)
        (record c { text = r }) c0 e

  mail_action-OnEdge :
      (k : Keyword) (line : List ℕ) (c c0 : Conn net)
      → Same c0 c
      → OnEdge c0 mail_from (mail_action net k line c)
  mail_action-OnEdge empty line c c0 e = mailed line_loop e
  mail_action-OnEdge rset line c c0 e = mailed line_loop e
  mail_action-OnEdge rcpt line c c0 e = mailed line_mail e
  mail_action-OnEdge bdat line c c0 e = on_bdat-OnEdge (split_spaces line) c c0 e
  mail_action-OnEdge text_data line c c0 e = on_dots-OnEdge (net.read_dots c.text) _ c0 e
  mail_action-OnEdge help line c c0 e = mailed line_mail e
  mail_action-OnEdge _ line c c0 e = mailed line_unrecognized e

  -- What `ReadLine` gives goes to a state that keeps to the edges.
  with_line-OnEdge :
      (s : State net) (says : List ℕ) (f : List ℕ → Conn net → Step net)
      → ((e : List ℕ) (c0 c : Conn net) → Same c0 c → Edge c0 c s (some (failing e)))
      → ((line : List ℕ) (c c0 : Conn net) → Same c0 c → OnEdge c0 s (f line c))
      → (r : List ℕ ⊎ (List ℕ × net.Reader)) (c : Conn net) → OnEdge c s (with_line net says f r c)
  with_line-OnEdge s says f fails holds (inl e) c = fails (says ++ e) c c (refl, refl)
  with_line-OnEdge s says f fails holds (inr (line, r)) c = holds line _ c (refl, refl)

  step-OnEdge :
      (banner : List ℕ) (tls : Bool) (s : State net) (c : Conn net)
      → OnEdge c s (step net banner tls s c)
  unfolding step hello_state loop_state mail_from_state
  step-OnEdge banner tls start c = begun (refl, refl)
  step-OnEdge banner tls hello c =
      with_line-OnEdge hello (codes "[helloState] ReadLine error. ") (hello_state net tls)
        (λ e c0 c' q. greeted (greeting_failing e) q)
        (λ line c' c0 q. hello_action-OnEdge tls (hello_word net line) line c' c0 q)
        (net.read_line c.text) c
  step-OnEdge banner tls loop c =
      with_line-OnEdge loop (codes "[loopState] ") (loop_state net tls) (λ e c0 c' q. unread e q)
        (λ line c' c0 q. loop_line-OnEdge _ tls line c' c0 q) (net.read_line c.text) c
  step-OnEdge banner tls mail_from c =
      with_line-OnEdge mail_from (codes "[mailFromState] ") (mail_from_state net)
        (λ e c0 c' q. mailed (line_failing e) q)
        (λ line c' c0 q. mail_action-OnEdge (mail_word net line) line c' c0 q)
        (net.read_line c.text) c
  step-OnEdge banner tls unrecognized c = refused (refl, refl)
  step-OnEdge banner tls (failing e) c = failed e (refl, refl)

  on-Edge :
      (c c' : Conn net) (s : State net) (s' : Option (State net)) (r : Step net)
      → OnEdge c s r
      → r ≡ ok (s', c')
      → Edge c c' s s'
  on-Edge c c' s s' r h q = subst (OnEdge c s) q h

  pub step-Edge :
      (banner : List ℕ) (tls : Bool) (s : State net) (c : Conn net) (s' : Option (State net))
      (c' : Conn net)
      → step net banner tls s c ≡ ok (s', c')
      → Edge c c' s s'
  step-Edge banner tls s c s' c' q =
      on-Edge c c' s s' (step net banner tls s c) (step-OnEdge banner tls s c) q
