-- ===== src/Server/Stream.antt =====
-- honeytrap/server/peek-connection.go and timeout_conn.go: the wrappers of a connection, as far as it is
-- read. A wrapper is a connection again.
use dynamic_labyrinth.Base.{
  ℕ, ◌≡◌, ◌≤◌, ◌∙◌, Option, none, some, List, [], ◌∷◌, ◌++◌, length, take, drop, refl, sym, ap,
  arith, append_assoc, take-append-drop, length-take,
}

-- net.Conn: `Read` into so many bytes, with the bytes and the error, and `SetReadDeadline`.
pub record Conn : Type 1 where
  pub State : Type 0
  pub Error : Type 0
  pub read : ℕ → State → (List ℕ × Option Error) × State
  pub set_deadline : State → Option Error × State

-- What a connection has still to hand out, and what its readers rely on: a read takes from the
-- front, no more than it has room for, and a deadline changes nothing of it.
pub record IsStream (c : Conn) (rest : c.State → List ℕ) : Type 0 where
  pub reads : (n : ℕ) (s : c.State) → (c.read n s).0.0 ++ rest (c.read n s).1 ≡ rest s
  pub fits : (n : ℕ) (s : c.State) → length (c.read n s).0.0 ≤ n
  pub deadlines : (s : c.State) → rest (c.set_deadline s).1 ≡ rest s

module _ (c : Conn) where
  -- `timeoutConn.Read`, after the deadline.
  abbrev pub read_timed : ℕ → Option c.Error × c.State → (List ℕ × Option c.Error) × c.State
  read_timed n (some e, s) = (([], some e), s)
  read_timed n (none, s) = c.read n s

  -- `TimeoutConn`
  abbrev pub timeout_conn : Conn
  timeout_conn = record {
    State = c.State;
    Error = c.Error;
    read = λ n s. read_timed n (c.set_deadline s);
    set_deadline = c.set_deadline;
  }

  -- `peekConnection`
  pub record Peeked : Type 0 where
    pub inner : c.State
    pub buffer : List ℕ

  -- `Peek`
  abbrev pub keep_peeked :
      List ℕ → (List ℕ × Option c.Error) × c.State → (List ℕ × Option c.Error) × Peeked
  keep_peeked buffer ((bytes, e), s) = ((bytes, e), record { inner = s; buffer = buffer ++ bytes })

  abbrev pub peek : ℕ → Peeked → (List ℕ × Option c.Error) × Peeked
  peek n p = keep_peeked p.buffer (c.read n p.inner)

  -- `peekConnection.Read`: the buffer first.
  abbrev pub read_through : (List ℕ × Option c.Error) × c.State → (List ℕ × Option c.Error) × Peeked
  read_through ((bytes, e), s) = ((bytes, e), record { inner = s; buffer = [] })

  abbrev pub read_peeked : ℕ → c.State → List ℕ → (List ℕ × Option c.Error) × Peeked
  read_peeked n s [] = read_through (c.read n s)
  read_peeked n s (b ∷ buffer) =
      ((take n (b ∷ buffer), none), record { inner = s; buffer = drop n (b ∷ buffer) })

  abbrev pub deadline_peeked : List ℕ → Option c.Error × c.State → Option c.Error × Peeked
  deadline_peeked buffer (e, s) = (e, record { inner = s; buffer = buffer })

  -- `PeekConnection`
  abbrev pub peek_connection : Conn
  peek_connection = record {
    State = Peeked;
    Error = c.Error;
    read = λ n p. read_peeked n p.inner p.buffer;
    set_deadline = λ p. deadline_peeked p.buffer (c.set_deadline p.inner);
  }

  abbrev pub begin_peek : c.State → Peeked
  begin_peek s = record { inner = s; buffer = [] }

-- What a connection that peeks has still to hand out.
abbrev pub peeked_rest : (c : Conn) → (c.State → List ℕ) → Peeked c → List ℕ
peeked_rest c rest p = p.buffer ++ rest p.inner

module _ (c : Conn) (rest : c.State → List ℕ) where
  read_timed-rest :
      IsStream c rest
      → (n : ℕ) (d : Option c.Error × c.State)
      → (read_timed c n d).0.0 ++ rest (read_timed c n d).1 ≡ rest d.1
  read_timed-rest h n (some e, s) = refl
  read_timed-rest h n (none, s) = h.reads n s

  length-read_timed :
      IsStream c rest → (n : ℕ) (d : Option c.Error × c.State) → length (read_timed c n d).0.0 ≤ n
  length-read_timed h n (some e, s) = omega arith
  length-read_timed h n (none, s) = h.fits n s

  -- A connection with deadlines hands out what the one below it does.
  pub timeout_conn-IsStream : IsStream c rest → IsStream (timeout_conn c) rest
  timeout_conn-IsStream h = record {
    reads = λ n s. read_timed-rest h n (c.set_deadline s) ∙ h.deadlines s;
    fits = λ n s. length-read_timed h n (c.set_deadline s);
    deadlines = h.deadlines;
  }

  read_peeked-rest :
      IsStream c rest
      → (n : ℕ) (s : c.State) (buffer : List ℕ)
      → (read_peeked c n s buffer).0.0 ++ peeked_rest c rest (read_peeked c n s buffer).1
        ≡ buffer ++ rest s
  read_peeked-rest h n s [] = h.reads n s
  read_peeked-rest h n s (b ∷ buffer) =
      sym (append_assoc (take n (b ∷ buffer)) (drop n (b ∷ buffer)) (rest s))
      ∙ ap (λ l. l ++ rest s) (take-append-drop n (b ∷ buffer))

  length-read_peeked :
      IsStream c rest
      → (n : ℕ) (s : c.State) (buffer : List ℕ) → length (read_peeked c n s buffer).0.0 ≤ n
  length-read_peeked h n s [] = h.fits n s
  length-read_peeked h n s (b ∷ buffer) = omega (arith, length-take n (b ∷ buffer))

  -- A connection that peeks hands out what has been peeked and then what the one below it does; a peek
  -- takes nothing from that, and returns the next bytes of the one below it.
  pub peek_connection-IsStream :
      IsStream c rest
      → IsStream (peek_connection c) (peeked_rest c rest)
        × ((n : ℕ) (p : Peeked c)
            → (peeked_rest c rest (peek c n p).1 ≡ peeked_rest c rest p)
              × ((peek c n p).0.0 ++ rest (peek c n p).1.inner ≡ rest p.inner))
  peek_connection-IsStream h = (
    record {
      reads = λ n p. read_peeked-rest h n p.inner p.buffer;
      fits = λ n p. length-read_peeked h n p.inner p.buffer;
      deadlines = λ p. ap (λ l. p.buffer ++ l) (h.deadlines p.inner);
    },
    λ n p. (
      append_assoc p.buffer (c.read n p.inner).0.0 (rest (c.read n p.inner).1)
          ∙ ap (λ l. p.buffer ++ l) (h.reads n p.inner),
      h.reads n p.inner,
    ),
  )
