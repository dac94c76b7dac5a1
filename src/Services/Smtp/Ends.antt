-- ===== src/Services/Smtp/Ends.antt =====
-- The loop of `serve` of honeytrap/services/smtp/conn.go ends when the input does.
use dynamic_labyrinth.Base.{
  ℕ, zero, suc, ◌+◌, ◌*◌, ◌≤◌, ◌<◌, ◌≡◌, ◌≢◌, ◌⊎◌, inl, inr, Bool, true, false, Option, none, some,
  List, [], ◌∷◌, Outcome, ok, err, panic, arith, refl, ltb,
}
use dynamic_labyrinth.Base.Int.{ℤ}
use dynamic_labyrinth.Base.Text.{codes}
use dynamic_labyrinth.Services.Decoder.{Stuck, stuck}
use dynamic_labyrinth.Services.Smtp.Commands.{
  is_last, Keyword, helo, ehlo, mail, starttls, rset, help, quit, noop, rcpt, bdat, text_data,
  spaces, empty, split_spaces, parse_hello_argument,
}
use dynamic_labyrinth.Services.Smtp.{
  Net, Message, Conn, State, start, hello, loop, mail_from, unrecognized, failing, Step, step, run,
  serve, new_conn, on_helo, on_ehlo, hello_action, hello_word, hello_state, on_handshake,
  on_starttls, loop_action, loop_word, loop_line, loop_state, read_message, on_message, on_last,
  on_chunk, on_count, on_bdat, on_dots, mail_action, mail_word, mail_from_state, with_line,
}

-- The input is finite: a line that is read makes what is left smaller, and nothing makes it larger.
module _ (net : Net) (size : net.Reader → ℕ)
    (line-size : (r r' : net.Reader) (line : List ℕ)
      → net.read_line r ≡ inr (line, r')
      → size r' < size r)
    (dots-size : (r : net.Reader) → size (net.read_dots r).1 ≤ size r)
    (copy-size : (n : ℤ) (r : net.Reader) → size (net.copy_n n r).1 ≤ size r)
    (handshake-size : (r r' : net.Reader) → net.handshake r ≡ some r' → size r' ≤ size r) where
  -- The step does not make the input larger.
  abbrev IsBelow : ℕ → Step net → Type 0
  IsBelow n (ok (s, c)) = size c.text ≤ n
  IsBelow n (err e) = ⊥
  IsBelow n panic = Unit {0}

  on_helo-IsBelow :
      (d : Option (List ℕ)) (n : ℕ) (c : Conn net) → size c.text ≤ n → IsBelow n (on_helo net d c)
  on_helo-IsBelow none n c h = h
  on_helo-IsBelow (some d) n c h = h

  on_ehlo-IsBelow :
      (tls : Bool) (d : Option (List ℕ)) (n : ℕ) (c : Conn net)
      → size c.text ≤ n
      → IsBelow n (on_ehlo net tls d c)
  on_ehlo-IsBelow tls none n c h = h
  on_ehlo-IsBelow tls (some d) n c h = h

  hello_action-IsBelow :
      (tls : Bool) (k : Keyword) (line : List ℕ) (n : ℕ) (c : Conn net)
      → size c.text ≤ n
      → IsBelow n (hello_action net tls k line c)
  hello_action-IsBelow tls helo line n c h = on_helo-IsBelow (parse_hello_argument line) n c h
  hello_action-IsBelow tls ehlo line n c h = on_ehlo-IsBelow tls (parse_hello_argument line) n c h
  hello_action-IsBelow tls help line n c h = h
  hello_action-IsBelow tls _ line n c h = h

  on_handshake-IsBelow :
      (r : Option net.Reader) (n : ℕ) (c : Conn net)
      → net.handshake c.text ≡ r
      → size c.text ≤ n
      → IsBelow n (on_handshake net r c)
  on_handshake-IsBelow none n c q h = h
  on_handshake-IsBelow (some r) n c q h = omega (arith, handshake-size c.text r q)

  on_starttls-IsBelow :
      (tls : Bool) (n : ℕ) (c : Conn net) → size c.text ≤ n → IsBelow n (on_starttls net tls c)
  on_starttls-IsBelow true n c h = on_handshake-IsBelow (net.handshake c.text) n c refl h
  on_starttls-IsBelow false n c h = h

  loop_action-IsBelow :
      (tls : Bool) (k : Keyword) (n : ℕ) (c : Conn net)
      → size c.text ≤ n
      → IsBelow n (loop_action net tls k c)
  loop_action-IsBelow tls mail n c h = h
  loop_action-IsBelow tls starttls n c h = on_starttls-IsBelow tls n _ h
  loop_action-IsBelow tls rset n c h = h
  loop_action-IsBelow tls help n c h = h
  loop_action-IsBelow tls quit n c h = h
  loop_action-IsBelow tls noop n c h = h
  loop_action-IsBelow tls spaces n c h = h
  loop_action-IsBelow tls _ n c h = h

  loop_line-IsBelow :
      (blank above tls : Bool) (line : List ℕ) (n : ℕ) (c : Conn net)
      → ltb 100 (c.i + 1) ≡ above
      → size c.text ≤ n
      → IsBelow n (loop_line net blank tls line c)
  loop_line-IsBelow true above tls line n c q h = h
  loop_line-IsBelow false true tls line n c q h = rw q h
  loop_line-IsBelow false false tls line n c q h =
      rw q (loop_action-IsBelow tls (loop_word net line) n (record c { i = c.i + 1 }) h)

  on_message-IsBelow :
      (says sum : List ℕ) (r : Message net × Option (List ℕ)) (n : ℕ) (c : Conn net)
      → size c.text ≤ n
      → IsBelow n (on_message net says sum c r)
  on_message-IsBelow says sum (m, some t) n c h = h
  on_message-IsBelow says sum (m, none) n c h = h

  on_last-IsBelow :
      (last : Bool) (n : ℕ) (c : Conn net) → size c.text ≤ n → IsBelow n (on_last net last c)
  on_last-IsBelow true n c h =
      on_message-IsBelow (codes "[bdat]: error ") _
        (read_message net c.msg.buffer (record c.msg { buffer = [] })) n c h
  on_last-IsBelow false n c h = h

  on_chunk-IsBelow :
      (last : Bool) (r : (List ℕ × Option (List ℕ)) × net.Reader) (n : ℕ) (c : Conn net)
      → size r.1 ≤ n
      → IsBelow n (on_chunk net last r c)
  on_chunk-IsBelow last ((copied, some t), r) n c h = h
  on_chunk-IsBelow last ((copied, none), r) n c h = on_last-IsBelow last n _ h

  on_count-IsBelow :
      (last : Bool) (k : List ℕ ⊎ ℤ) (n : ℕ) (c : Conn net)
      → size c.text ≤ n
      → IsBelow n (on_count net last k c)
  on_count-IsBelow last (inl t) n c h = h
  on_count-IsBelow last (inr k) n c h =
      on_chunk-IsBelow last (net.copy_n k c.text) n c (omega (arith, copy-size k c.text))

  on_bdat-IsBelow :
      (parts : List (List ℕ)) (n : ℕ) (c : Conn net)
      → size c.text ≤ n
      → IsBelow n (on_bdat net parts c)
  on_bdat-IsBelow [] n c h = tt
  on_bdat-IsBelow (cmd ∷ []) n c h = tt
  on_bdat-IsBelow (cmd ∷ count ∷ parts) n c h =
      on_count-IsBelow (is_last (cmd ∷ count ∷ parts)) (net.parse_int count) n c h

  on_dots-IsBelow :
      (r : (List ℕ ⊎ List ℕ) × net.Reader) (n : ℕ) (c : Conn net)
      → size r.1 ≤ n
      → IsBelow n (on_dots net r c)
  on_dots-IsBelow (inl t, r) n c h = h
  on_dots-IsBelow (inr buff, r) n c h =
      on_message-IsBelow (codes "[data]: error ") _ (read_message net buff c.msg) n
        (record c { text = r }) h

  mail_action-IsBelow :
      (k : Keyword) (line : List ℕ) (n : ℕ) (c : Conn net)
      → size c.text ≤ n
      → IsBelow n (mail_action net k line c)
  mail_action-IsBelow empty line n c h = h
  mail_action-IsBelow rset line n c h = h
  mail_action-IsBelow rcpt line n c h = h
  mail_action-IsBelow bdat line n c h = on_bdat-IsBelow (split_spaces line) n c h
  mail_action-IsBelow text_data line n c h =
      on_dots-IsBelow (net.read_dots c.text) n _ (omega (arith, dots-size c.text))
  mail_action-IsBelow help line n c h = h
  mail_action-IsBelow _ line n c h = h

  abbrev rank : State net → ℕ
  rank start = 3
  rank unrecognized = 3
  rank (failing e) = 1
  rank _ = 2

  rank_le : (s : State net) → rank s ≤ 3
  rank_le start = omega arith
  rank_le hello = omega arith
  rank_le loop = omega arith
  rank_le mail_from = omega arith
  rank_le unrecognized = omega arith
  rank_le (failing e) = omega arith

  rank_pos : (s : State net) → 1 ≤ rank s
  rank_pos start = omega arith
  rank_pos hello = omega arith
  rank_pos loop = omega arith
  rank_pos mail_from = omega arith
  rank_pos unrecognized = omega arith
  rank_pos (failing e) = omega arith

  -- It falls with every step.
  abbrev measure : Option (State net) → Conn net → ℕ
  measure none c = 0
  measure (some s) c = 2 * size c.text + rank s

  abbrev Falls : ℕ → Step net → Type 0
  Falls m (ok (s, c)) = measure s c < m
  Falls m (err e) = ⊥
  Falls m panic = Unit {0}

  below-Falls : (n k : ℕ) (r : Step net) → n < k → IsBelow n r → Falls (2 * k + 2) r
  below-Falls n k (ok (none, c)) lt h = omega arith
  below-Falls n k (ok (some s, c)) lt h = omega (arith, rank_le s)
  below-Falls n k (err e) lt h = h
  below-Falls n k panic lt h = tt

  with_line-Falls :
      (says : List ℕ) (f : List ℕ → Conn net → Step net)
      → ((line : List ℕ) (n : ℕ) (c : Conn net) → size c.text ≤ n → IsBelow n (f line c))
      → (r : List ℕ ⊎ (List ℕ × net.Reader)) (c : Conn net) → net.read_line c.text ≡ r
      → Falls (2 * size c.text + 2) (with_line net says f r c)
  with_line-Falls says f holds (inl e) c q = omega arith
  with_line-Falls says f holds (inr (line, r)) c q =
      below-Falls (size r) (size c.text) _ (line-size c.text r line q)
        (holds line (size r) _ (omega arith))

  step-Falls :
      (banner : List ℕ) (tls : Bool) (s : State net) (c : Conn net)
      → Falls (measure (some s) c) (step net banner tls s c)
  unfolding step hello_state loop_state mail_from_state
  step-Falls banner tls start c = omega arith
  step-Falls banner tls hello c =
      with_line-Falls (codes "[helloState] ReadLine error. ") (hello_state net tls)
        (λ line n c' h. hello_action-IsBelow tls (hello_word net line) line n c' h)
        (net.read_line c.text) c refl
  step-Falls banner tls loop c =
      with_line-Falls (codes "[loopState] ") (loop_state net tls)
        (λ line n c' h. loop_line-IsBelow _ _ tls line n c' refl h) (net.read_line c.text) c refl
  step-Falls banner tls mail_from c =
      with_line-Falls (codes "[mailFromState] ") (mail_from_state net)
        (λ line n c' h. mail_action-IsBelow (mail_word net line) line n c' h) (net.read_line c.text)
        c refl
  step-Falls banner tls unrecognized c = omega arith
  step-Falls banner tls (failing e) c = omega arith

  after-ne :
      (go : Option (State net) → Conn net → Outcome Stuck (Conn net)) (m : ℕ) (r : Step net)
      → Falls m r
      → ((s : Option (State net)) (c : Conn net) → measure s c < m → go s c ≢ err stuck)
      → elim r [ ok (s, c) ↦ go s c | err e ↦ err e | panic ↦ panic ] ≢ err stuck
  after-ne go m (ok (s, c)) f h = h s c f
  after-ne go m (err e) f h = absurd f
  after-ne go m panic f h = λ q. cc q

  run-ne-stuck :
      (fuel : ℕ) (banner : List ℕ) (tls : Bool) (s : Option (State net)) (c : Conn net)
      → measure s c ≤ fuel
      → run net fuel banner tls s c ≢ err stuck
  unfolding run
  run-ne-stuck fuel banner tls none c le = λ q. cc q
  run-ne-stuck zero banner tls (some s) c le = absurd (omega (arith, rank_pos s))
  run-ne-stuck (suc fuel) banner tls (some s) c le =
      after-ne (run net fuel banner tls) (measure (some s) c) (step net banner tls s c)
        (step-Falls banner tls s c) (λ s' c' lt. run-ne-stuck fuel banner tls s' c' (omega arith))

  -- A session on a finite input ends, or panics: twice the size of the input and three rounds of the
  -- loop are enough.
  pub serve-ne-stuck :
      (fuel : ℕ) (banner : List ℕ) (tls : Bool) (r : net.Reader)
      → 2 * size r + 3 ≤ fuel
      → serve net fuel banner tls r ≢ err stuck
  serve-ne-stuck fuel banner tls r le =
      run-ne-stuck fuel banner tls (some start) (new_conn net r) le
