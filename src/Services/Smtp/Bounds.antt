-- ===== src/Services/Smtp/Bounds.antt =====
-- How much a session of honeytrap/services/smtp can do, with the threshold on the commands of the loop.
use dynamic_labyrinth.Base.{
  ℕ, zero, suc, ◌+◌, ◌≤◌, ◌≡◌, Bool, Option, none, some, List, [], ◌∷◌, length, Outcome, ok, err,
  panic, arith, refl, ap, ◌∙◌, length-append,
}
use mathlib.Core.Path.{subst}
use dynamic_labyrinth.Services.Decoder.{Stuck}
use dynamic_labyrinth.Services.Smtp.{
  Net, Conn, State, start, hello, loop, mail_from, unrecognized, failing, Step, step, run, serve,
  new_conn,
}
use dynamic_labyrinth.Services.Smtp.Diagram.{
  Edge, Same, begun, greeted, skipped, unread, counted, stopped, mailed, delivered, refused, failed,
  step-Edge, command_loop, command_mail, command_hello, command_unrecognized, command_end,
  line_loop, line_mail, line_unrecognized, line_failing, greeting_hello, greeting_loop,
  greeting_failing,
}

module _ (net : Net) where
  -- A mail that can still become a message.
  abbrev pending : Option (State net) → ℕ
  pending (some mail_from) = 1
  pending _ = 0

  -- The counter where the session goes on, and where it ends.
  abbrev limit : Option (State net) → ℕ
  limit none = 101
  limit (some (failing e)) = 101
  limit _ = 100

  abbrev IsWithin : Option (State net) → Conn net → Type 0
  IsWithin s c =
      (length c.served + pending s ≤ c.i) × (length c.served + pending s ≤ 100) × (c.i ≤ limit s)

  Same-IsWithin :
      (s s' : Option (State net)) (c c' : Conn net)
      → pending s' ≤ pending s
      → limit s ≤ limit s'
      → Same net c c'
      → IsWithin s c
      → IsWithin s' c'
  Same-IsWithin s s' c c' p l (es, ei) (a, b, d) =
      let q = ap length es in (omega arith, omega arith, omega arith)

  Command-IsWithin :
      (s' : Option (State net)) (c c' : Conn net)
      → pending s' ≤ 1
      → 100 ≤ limit s'
      → c'.served ≡ c.served
      → c'.i ≡ c.i + 1
      → c'.i ≤ 100
      → IsWithin (some loop) c
      → IsWithin s' c'
  Command-IsWithin s' c c' p l es ei le (a, b, d) =
      let q = ap length es in (omega arith, omega arith, omega arith)

  Edge-IsWithin :
      (c c' : Conn net) (s : State net) (s' : Option (State net))
      → Edge net c c' s s'
      → IsWithin (some s) c
      → IsWithin s' c'
  Edge-IsWithin c c' start _ (begun e) w =
      Same-IsWithin (some start) (some hello) c c' (omega arith) (omega arith) e w
  Edge-IsWithin c c' hello _ (greeted greeting_hello e) w =
      Same-IsWithin (some hello) (some hello) c c' (omega arith) (omega arith) e w
  Edge-IsWithin c c' hello _ (greeted greeting_loop e) w =
      Same-IsWithin (some hello) (some loop) c c' (omega arith) (omega arith) e w
  Edge-IsWithin c c' hello _ (greeted (greeting_failing t) e) w =
      Same-IsWithin (some hello) (some (failing t)) c c' (omega arith) (omega arith) e w
  Edge-IsWithin c c' loop _ (skipped e) w =
      Same-IsWithin (some loop) (some loop) c c' (omega arith) (omega arith) e w
  Edge-IsWithin c c' loop _ (unread t e) w =
      Same-IsWithin (some loop) (some (failing t)) c c' (omega arith) (omega arith) e w
  Edge-IsWithin c c' loop _ (counted command_loop es ei le) w =
      Command-IsWithin (some loop) c c' (omega arith) (omega arith) es ei le w
  Edge-IsWithin c c' loop _ (counted command_mail es ei le) w =
      Command-IsWithin (some mail_from) c c' (omega arith) (omega arith) es ei le w
  Edge-IsWithin c c' loop _ (counted command_hello es ei le) w =
      Command-IsWithin (some hello) c c' (omega arith) (omega arith) es ei le w
  Edge-IsWithin c c' loop _ (counted command_unrecognized es ei le) w =
      Command-IsWithin (some unrecognized) c c' (omega arith) (omega arith) es ei le w
  Edge-IsWithin c c' loop _ (counted command_end es ei le) w =
      Command-IsWithin none c c' (omega arith) (omega arith) es ei le w
  Edge-IsWithin c c' loop _ (stopped t es ei) (a, b, d) =
      let q = ap length es in (omega arith, omega arith, omega arith)
  Edge-IsWithin c c' mail_from _ (mailed line_loop e) w =
      Same-IsWithin (some mail_from) (some loop) c c' (omega arith) (omega arith) e w
  Edge-IsWithin c c' mail_from _ (mailed line_mail e) w =
      Same-IsWithin (some mail_from) (some mail_from) c c' (omega arith) (omega arith) e w
  Edge-IsWithin c c' mail_from _ (mailed line_unrecognized e) w =
      Same-IsWithin (some mail_from) (some unrecognized) c c' (omega arith) (omega arith) e w
  Edge-IsWithin c c' mail_from _ (mailed (line_failing t) e) w =
      Same-IsWithin (some mail_from) (some (failing t)) c c' (omega arith) (omega arith) e w
  Edge-IsWithin c c' mail_from _ (delivered m es ei) (a, b, d) =
      let q : length c'.served ≡ length c.served + 1 =
        ap length es ∙ length-append c.served (m ∷ []) in
      (omega arith, omega arith, omega arith)
  Edge-IsWithin c c' unrecognized _ (refused e) w =
      Same-IsWithin (some unrecognized) (some loop) c c' (omega arith) (omega arith) e w
  Edge-IsWithin c c' (failing t) _ (failed _ e) w =
      Same-IsWithin (some (failing t)) none c c' (omega arith) (omega arith) e w

  abbrev EndsWithin : Outcome Stuck (Conn net) → Type 0
  EndsWithin (ok c) = IsWithin none c
  EndsWithin (err e) = Unit {0}
  EndsWithin panic = Unit {0}

  after-EndsWithin :
      (go : Option (State net) → Conn net → Outcome Stuck (Conn net)) (r : Step net)
      → ((s : Option (State net)) (c : Conn net) → r ≡ ok (s, c) → EndsWithin (go s c))
      → EndsWithin (elim r [ ok (s, c) ↦ go s c | err e ↦ err e | panic ↦ panic ])
  after-EndsWithin go (ok (s, c)) h = h s c refl
  after-EndsWithin go (err e) h = tt
  after-EndsWithin go panic h = tt

  run-EndsWithin :
      (fuel : ℕ) (banner : List ℕ) (tls : Bool) (s : Option (State net)) (c : Conn net)
      → IsWithin s c
      → EndsWithin (run net fuel banner tls s c)
  unfolding run
  run-EndsWithin fuel banner tls none c w = w
  run-EndsWithin zero banner tls (some s) c w = tt
  run-EndsWithin (suc fuel) banner tls (some s) c w =
      after-EndsWithin (run net fuel banner tls) (step net banner tls s c) (λ s' c' q.
        run-EndsWithin fuel banner tls s' c'
          (Edge-IsWithin c c' s s' (step-Edge net banner tls s c s' c' q) w))

  -- A session that ends has counted at most 101 commands and served at most 100 messages, and no more
  -- messages than it has counted commands.
  pub serve-bounded :
      (fuel : ℕ) (banner : List ℕ) (tls : Bool) (r : net.Reader) (c : Conn net)
      → serve net fuel banner tls r ≡ ok c
      → (c.i ≤ 101) × (length c.served ≤ 100) × (length c.served ≤ c.i)
  serve-bounded fuel banner tls r c q =
      let start_within : IsWithin (some start) (new_conn net r) =
        (omega arith, omega arith, omega arith) in
      let (a, b, d) =
        subst EndsWithin q
          (run-EndsWithin fuel banner tls (some start) (new_conn net r) start_within) in
      (d, omega arith, omega arith)
