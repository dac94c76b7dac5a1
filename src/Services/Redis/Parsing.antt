-- ===== src/Services/Redis/Parsing.antt =====
-- `parseRedisData` of honeytrap/services/redis/redis.go: it ends, and it reads back what a client writes.
use dynamic_labyrinth.Base.{
  ℕ, zero, suc, ◌≡◌, ◌<◌, Option, none, some, List, [], ◌∷◌, ◌++◌, ◌==◌, length, All, refl, Outcome,
  ok, err, panic, ◌>>=◌, Bool-cases, inl, inr, arith, ◌≢◌,
}
use dynamic_labyrinth.Services.Redis.{
  Datum, Items, end, item, Failure, eof, failed, stuck, Lines, Parsed, parse_items, parse_array,
  parse_bulk, parse_integer, parse_line, parse_redis_data, array, bulk,
}

-- A result: a value and fewer lines than that, or an error that is not the end of the fuel; no panic.
abbrev pub Ends : {A : Type 0} → ℕ → Outcome Failure (A × Lines) → Type 0
Ends n (ok (a, lines)) = length lines < n
Ends n (err stuck) = ⊥
Ends n (err e) = Unit {0}
Ends n panic = ⊥

Ends->>= :
    {A B : Type 0} (n m : ℕ) (r : Outcome Failure (A × Lines))
    (f : A × Lines → Outcome Failure (B × Lines))
    → Ends n r
    → ((a : A) (lines : Lines) → length lines < n → Ends m (f (a, lines)))
    → Ends m (r >>= f)
Ends->>= n m (ok (a, lines)) f e g = g a lines e
Ends->>= n m (err eof) f e g = tt
Ends->>= n m (err failed) f e g = tt
Ends->>= n m (err stuck) f e g = e
Ends->>= n m panic f e g = e

Ends-err : (A : Type 0) (n : ℕ) (e : Failure) → e ≢ stuck → Ends {A = A} n (err e)
Ends-err A n eof h = tt
Ends-err A n failed h = tt
Ends-err A n stuck h = absurd (h refl)

module _ (parse_uint : List ℕ → Option ℕ) (at_end : Failure) where
  parse_items-Ends :
      (parse : Lines → Parsed parse_uint at_end) (k n : ℕ) (lines : Lines)
      → ((ls : Lines) → length ls < k → Ends (length ls) (parse ls))
      → length lines < k
      → Ends (suc (length lines)) (parse_items parse_uint at_end parse n lines)
  unfolding parse_items
  parse_items-Ends parse k zero lines h e = omega arith
  parse_items-Ends parse k (suc n) lines h e =
      Ends->>= (length lines) (suc (length lines)) (parse lines) _ (h lines e) (λ d ls f.
        Ends->>= (suc (length ls)) (suc (length lines)) (parse_items parse_uint at_end parse n ls) _
          (parse_items-Ends parse k n ls h (omega arith)) (λ i ls' g. omega arith))

  parse_array-Ends :
      (parse : Lines → Parsed parse_uint at_end) (o : Option ℕ) (lines : Lines)
      → ((ls : Lines) → length ls < suc (length lines) → Ends (length ls) (parse ls))
      → Ends (suc (length lines)) (parse_array parse_uint at_end parse o lines)
  parse_array-Ends parse none lines h = tt
  parse_array-Ends parse (some n) lines h =
      Ends->>= (suc (length lines)) (suc (length lines))
        (parse_items parse_uint at_end parse n lines) _
        (parse_items-Ends parse (suc (length lines)) n lines h (omega arith)) (λ i ls f. f)

  parse_bulk-Ends :
      (o : Option ℕ) (lines : Lines)
      → Ends (suc (length lines)) (parse_bulk parse_uint at_end o lines)
  parse_bulk-Ends none lines = tt
  parse_bulk-Ends (some n) [] = omega arith
  parse_bulk-Ends (some n) (text ∷ lines) = omega arith

  parse_integer-Ends :
      (o : Option ℕ) (lines : Lines)
      → Ends (suc (length lines)) (parse_integer parse_uint at_end o lines)
  parse_integer-Ends none lines = tt
  parse_integer-Ends (some n) lines = omega arith

  parse_line-Ends :
      (parse : Lines → Parsed parse_uint at_end) (line : List ℕ) (lines : Lines)
      → ((ls : Lines) → length ls < suc (length lines) → Ends (length ls) (parse ls))
      → Ends (suc (length lines)) (parse_line parse_uint at_end parse line lines)
  parse_line-Ends parse [] lines h = omega arith
  parse_line-Ends parse (type ∷ text) lines h = elim (Bool-cases (type == b'*')) [
    | inl a ↦ rw a (parse_array-Ends parse (parse_uint text) lines h)
    | inr a ↦ elim (Bool-cases (type == b'+')) [
      | inl b ↦ rw (a, b) (omega arith)
      | inr b ↦ elim (Bool-cases (type == b'$')) [
        | inl c ↦ rw (a, b, c) (parse_bulk-Ends (parse_uint text) lines)
        | inr c ↦ elim (Bool-cases (type == b':')) [
          | inl d ↦ rw (a, b, c, d) (parse_integer-Ends (parse_uint text) lines)
          | inr d ↦ rw (a, b, c, d) tt
        ]
      ]
    ]
  ]

  -- parseRedisData ends on every input, with an error or with a datum that has taken a line at least; it does
  -- not panic. Fuel above the number of lines is enough.
  pub parse_redis_data-Ends :
      (fuel : ℕ) (lines : Lines)
      → at_end ≢ stuck
      → length lines < fuel
      → Ends (length lines) (parse_redis_data parse_uint at_end fuel lines)
  unfolding parse_redis_data
  parse_redis_data-Ends zero lines a h = elim h [ ]
  parse_redis_data-Ends (suc fuel) [] a h = Ends-err Datum 0 at_end a
  parse_redis_data-Ends (suc fuel) (line ∷ lines) a h =
      parse_line-Ends (parse_redis_data parse_uint at_end fuel) line lines
        (λ ls g. parse_redis_data-Ends fuel ls a (omega arith))

  -- What a client writes: an array of bulk strings.
  module _ (decimal : ℕ → List ℕ) where
    abbrev pub write_words : List (List ℕ) → Lines
    write_words [] = []
    write_words (w ∷ ws) = (b'$' ∷ decimal (length w)) ∷ w ∷ write_words ws

    abbrev pub write_command : List (List ℕ) → Lines
    write_command ws = (b'*' ∷ decimal (length ws)) ∷ write_words ws

    abbrev pub words_of : List (List ℕ) → Items
    words_of [] = end
    words_of (w ∷ ws) = item (bulk w) (words_of ws)

    -- ParseUint reads the numbers of the array and of its words.
    abbrev pub ReadsLength : {A : Type 0} → List A → Type 0
    ReadsLength l = parse_uint (decimal (length l)) ≡ some (length l)

    abbrev pub ReadsCommand : List (List ℕ) → Type 0
    ReadsCommand ws = ReadsLength ws × All ReadsLength ws

    parse_items-write_words :
        (fuel : ℕ) (ws : List (List ℕ)) (rest : Lines)
        → All ReadsLength ws
        → parse_items parse_uint at_end
            (parse_redis_data parse_uint at_end (suc fuel))
            (length ws)
            (write_words ws ++ rest)
          ≡ ok (words_of ws, rest)
    unfolding parse_items parse_redis_data
    parse_items-write_words fuel [] rest h = refl
    parse_items-write_words fuel (w ∷ ws) rest h =
        rw h.0 (rw (parse_items-write_words fuel ws rest h.1) refl)

    -- A command that is written as an array of bulk strings is read back, and the lines behind it are left.
    pub parse_redis_data-write_command :
        (fuel : ℕ) (ws : List (List ℕ)) (rest : Lines)
        → ReadsCommand ws
        → parse_redis_data parse_uint at_end (suc (suc fuel)) (write_command ws ++ rest)
          ≡ ok (array (words_of ws), rest)
    unfolding parse_redis_data
    parse_redis_data-write_command fuel ws rest h =
        rw h.0 (rw (parse_items-write_words fuel ws rest h.1) refl)
