-- ===== src/Services/Clients.antt =====
-- Runs of honeytrap/services/tftp.go and honeytrap/services/memcached.go.
use dynamic_labyrinth.Base.{
  ℕ, zero, suc, Bool, ◌≤◌, ◌≡◌, ◌≢◌, ◌∙◌, ◌++◌, none, some, Option, true, false, List, [], ◌∷◌, ◌⊎◌,
  inl, inr, arith, refl, take, drop, ap, All, ◌==◌, if◌then◌else◌, replicate, length-replicate,
}
use dynamic_labyrinth.Base.Text.{codes, split_at}
use dynamic_labyrinth.Services.Memcached
use dynamic_labyrinth.Services.Memcached.{Wire}
use dynamic_labyrinth.Services.Memcached.Limits.{messages, handle-messages}
use dynamic_labyrinth.Services.Tftp.{
  handle as serve, Bufio, IsBufio, Buffers, write_event, file_event, send, ack, handle_all,
}
use dynamic_labyrinth.Services.Tftp.Upload.{
  Block, packet, request, contents, passed, handle_all-upload,
}
use dynamic_labyrinth.Services.Tftp.Others.{handle-other, handle-IsSmall, IsSmall}

-- A reader that is the bytes it holds.
abbrev up_to : ℕ → List ℕ → (ℕ ⊎ List ℕ) × List ℕ
up_to d [] = (inl 0, [])
up_to d (c ∷ r) =
    let (found, rest) = up_to d r in
    if c == d then (inr (c ∷ []), r) else (elim found [ inl e ↦ inl e | inr t ↦ inr (c ∷ t) ], rest)

abbrev plain : Bufio
plain = record {
  Reader = List ℕ;
  Error = ℕ;
  new_reader = λ bytes. bytes;
  read = λ n r. ((take n r, none), drop n r);
  read_string = up_to;
}

up_to-append :
    (d : ℕ) (front back : List ℕ)
    → All (λ c. c ≢ d) front
    → up_to d (front ++ (d ∷ back)) ≡ (inr (front ++ (d ∷ [])), back)
up_to-append d [] back h = let same : d == d ≡ true = ground arith in rw same refl
up_to-append d (c ∷ front) back h =
    let other : c == d ≡ false = ground (arith, h.0) in
    rw (other, up_to-append d front back h.1) refl

plain-IsBufio : IsBufio plain (λ (r : List ℕ) bytes. r ≡ bytes)
plain-IsBufio = record {
  new_reader = λ bytes h. refl;
  read = λ n r bytes e h. (ap (λ (x : List ℕ). (take n x, none)) e, ap (drop n) e);
  read_string = λ d r front back e h.
      let whole = ap (up_to d) e ∙ up_to-append d front back h in
      (
        ap (λ (x : (ℕ ⊎ List ℕ) × List ℕ). x.0) whole,
        ap (λ (x : (ℕ ⊎ List ℕ) × List ℕ). x.1) whole,
      );
}

abbrev nothing : Buffers
nothing addr = none

abbrev full : Block
full = (0, 1, replicate 512 7)

abbrev short : Block
short = (0, 2, 8 ∷ [])

-- A block that the limiter refuses, and that is sent again.
abbrev upload : List (Bool × List ℕ)
upload =
    (true, request (codes "f") (codes "m"))
    ∷ (false, packet full)
    ∷ (true, packet full)
    ∷ (true, packet short)
    ∷ []

handle_all-upload_example :
    ((handle_all plain (codes "c") upload nothing).0 (codes "c") ≡ none)
    × ((handle_all plain (codes "c") upload nothing).1
        ≡ write_event (codes "f" ++ (0 ∷ [])) (codes "m" ++ (0 ∷ []))
          ∷ send (ack (0 ∷ 0 ∷ []))
          ∷ send (ack (0 ∷ 1 ∷ []))
          ∷ send (ack (0 ∷ 2 ∷ []))
          ∷ file_event (record {
            filename = codes "f" ++ (0 ∷ []);
            mode = codes "m" ++ (0 ∷ []);
            content = contents (full ∷ []) ++ (8 ∷ []);
          })
          ∷ [])
unfolding passed
handle_all-upload_example =
    handle_all-upload plain (λ (r : List ℕ) bytes. r ≡ bytes) plain-IsBufio (codes "f") (codes "m")
      (full ∷ []) short upload (codes "c") nothing (omega arith, tt) (omega arith, tt) (omega arith)
      (length-replicate {A = ℕ} 512 7, tt) (omega arith) refl

handle-other_example :
    (serve plain true true (codes "c") (packet short) nothing).0 (codes "d") ≡ none
handle-other_example =
    handle-other plain (codes "c") nothing true true (packet short) (codes "d") refl

handle-IsSmall_example :
    IsSmall plain (codes "c") nothing (serve plain true true (codes "c") (packet short) nothing).1.0
handle-IsSmall_example = handle-IsSmall plain (codes "c") nothing true true (packet short)

-- The same for lines; no count is read.
abbrev line_of : (ℕ ⊎ List ℕ) × List ℕ → Option (List ℕ × List ℕ)
line_of (inl e, r) = none
line_of (inr line, r) = some (line, r)

abbrev lines_of : Wire
lines_of = record {
  Reader = List ℕ;
  Error = ℕ;
  read_bytes = λ d r. line_of (up_to d r);
  read = λ n r. inr (take n r, drop n r);
  discard = λ n r. r;
  atoi = λ text. none;
}

abbrev first_two : ℕ → Bool
first_two zero = true
first_two (suc zero) = true
first_two (suc (suc i)) = false

abbrev three_lines : List ℕ
three_lines = codes "12345678stats\r\nflush_all\r\nget k\r\n"

messages_run : messages (Memcached.handle lines_of true first_two 9 three_lines).0 ≡ 2
unfolding Memcached.handle Memcached.handle_turns messages split_at
messages_run = refl

handle-messages_example : messages (Memcached.handle lines_of true first_two 9 three_lines).0 ≤ 2
handle-messages_example = handle-messages lines_of first_two 2 9 three_lines refl
