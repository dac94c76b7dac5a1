-- ===== src/Services/Memcached/Limits.antt =====
-- How often honeytrap/services/memcached.go answers, and that it ends.
use dynamic_labyrinth.Base.{
  ℕ, zero, suc, ◌≡◌, ◌≢◌, ◌≤◌, ◌<◌, ◌+◌, Bool, true, false, Option, none, some, List, [], ◌∷◌, ◌⊎◌,
  inl, inr, refl, arith, Bool-cases, length,
}
use mathlib.Core.Path.{subst}
use dynamic_labyrinth.Base.Int.{ℤ}
use dynamic_labyrinth.Base.Text.{codes, same_text, split_at}
use dynamic_labyrinth.Services.Memcached.{
  Wire, IsShrinking, Effect, command_event, store_event, write, End, finished, failed, stuck,
  Answer, and_then, on_payload, on_count, on_store, on_command, on_parts, on_line, handle_turns,
  skip_header, handle, strip, is_store, minus, stats_text,
}

-- The messages among the effects.
unfoldable pub messages : List Effect → ℕ
messages [] = 0
messages (write m ∷ es) = suc (messages es)
messages (command_event _ ∷ es) = messages es
messages (store_event _ _ ∷ es) = messages es

lt_or_eq : (i k : ℕ) → i ≤ k → (i < k) ⊎ (i ≡ k)
lt_or_eq zero zero h = inr refl
lt_or_eq zero (suc k) h = inl (omega arith)
lt_or_eq (suc i) zero h = absurd (omega arith)
lt_or_eq (suc i) (suc k) h = elim (lt_or_eq i k (omega arith)) [
  | inl l ↦ inl (omega arith)
  | inr e ↦ inr (omega arith)
]

-- A question that is answered otherwise than the k-th is another one.
asked_before : (allows : ℕ → Bool) (i k : ℕ) → allows k ≡ false → i ≤ k → allows i ≡ true → i < k
asked_before allows i k e h a = elim (lt_or_eq i k h) [
  | inl l ↦ l
  | inr q ↦ absurd (cc (subst (λ j. allows j ≡ true) q a, e))
]

module _ (w : Wire) where
  -- A property of answers that a command keeps, given that it holds of what comes after.
  module _ (P : Answer w → Type 0) (r : w.Reader) (next : w.Reader → Answer w)
      (ending : (e : End) → e ≢ stuck → P ([], e))
      (answering : (m : List ℕ) → P (and_then w (write m ∷ []) (next r)))
      (storing : (words : List (List ℕ)) (count : ℤ) (payload : List ℕ) (s : w.Reader)
        → w.read 80 r ≡ inr (payload, s)
        → P (
            and_then w
              (store_event words payload ∷ write (codes "STORED\r\n") ∷ [])
              (next (w.discard (minus count (length payload)) s)))) where
    on_payload-P :
        (words : List (List ℕ)) (count : ℤ) (x : w.Error ⊎ (List ℕ × w.Reader))
        → w.read 80 r ≡ x
        → P (on_payload w words count x next)
    on_payload-P words count (inl e) q = ending failed (λ n. absurd (cc n))
    on_payload-P words count (inr (payload, s)) q = storing words count payload s q

    on_count-P : (words : List (List ℕ)) (o : Option ℤ) → P (on_count w words o r next)
    on_count-P words none = ending failed (λ n. absurd (cc n))
    on_count-P words (some count) = on_payload-P words count (w.read 80 r) refl

    on_store-P : (parts : List (List ℕ)) → P (on_store w parts r next)
    on_store-P [] = ending failed (λ n. absurd (cc n))
    on_store-P (a ∷ []) = ending failed (λ n. absurd (cc n))
    on_store-P (a ∷ b ∷ []) = ending failed (λ n. absurd (cc n))
    on_store-P (a ∷ b ∷ c ∷ []) = ending failed (λ n. absurd (cc n))
    on_store-P (a ∷ b ∷ c ∷ d ∷ []) = ending failed (λ n. absurd (cc n))
    on_store-P (a ∷ b ∷ c ∷ d ∷ e ∷ parts) = on_count-P (a ∷ b ∷ c ∷ d ∷ e ∷ []) (w.atoi e)

    on_command-P : (c : List ℕ) (parts : List (List ℕ)) → P (on_command w c parts r next)
    on_command-P c parts = elim (Bool-cases (same_text c (codes "flush_all"))) [
      | inl e ↦ rw e (answering (codes "OK\\r\\n"))
      | inr e ↦ elim (Bool-cases (same_text c (codes "stats"))) [
        | inl f ↦ rw (e, f) (answering stats_text)
        | inr f ↦ elim (Bool-cases (is_store c)) [
          | inl g ↦ rw (e, f, g) (on_store-P parts)
          | inr g ↦ rw (e, f, g) (answering (codes "ERROR\r\n"))
        ]
      ]
    ]

    pub on_parts-P : (parts : List (List ℕ)) → P (on_parts w parts r next)
    on_parts-P [] = ending finished (λ n. absurd (cc n))
    on_parts-P (c ∷ parts) = on_command-P c (c ∷ parts)

  -- A turn that the limiter refuses writes nothing, and is the last one.
  on_line-messages :
      (i k : ℕ) (allowed : Bool) (x : Option (List ℕ × w.Reader)) (next : w.Reader → Answer w)
      → i ≤ k
      → (allowed ≡ true → i < k)
      → ((s : w.Reader) → i < k → messages (next s).0 + suc i ≤ k)
      → messages (on_line w true allowed x next).0 + i ≤ k
  unfolding messages
  on_line-messages i k allowed none next h a n = omega arith
  on_line-messages i k false (some (line, r)) next h a n = omega arith
  on_line-messages i k true (some (line, r)) next h a n =
      on_parts-P (λ x. messages x.0 + i ≤ k) r next (λ e ne. omega arith)
        (λ m. omega (arith, n r (a refl)))
        (λ words count payload s q.
          omega (arith, n (w.discard (minus count (length payload)) s) (a refl)))
        (split_at b' ' (strip line))

  handle_turns-messages :
      (allows : ℕ → Bool) (k fuel i : ℕ) (r : w.Reader)
      → allows k ≡ false
      → i ≤ k
      → messages (handle_turns w true allows fuel i r).0 + i ≤ k
  unfolding handle_turns messages
  handle_turns-messages allows k zero i r e h = omega arith
  handle_turns-messages allows k (suc fuel) i r e h =
      on_line-messages i k (allows i) (w.read_bytes 10 r) (handle_turns w true allows fuel (suc i))
        h (asked_before allows i k e h)
        (λ s l. handle_turns-messages allows k fuel (suc i) s e (omega arith))

  -- Over UDP no more messages are written than questions to the limiter were answered with yes before one that it
  -- refuses, whatever is read.
  pub handle-messages :
      (allows : ℕ → Bool) (k fuel : ℕ) (r : w.Reader)
      → allows k ≡ false
      → messages (handle w true allows fuel r).0 ≤ k
  unfolding handle
  handle-messages allows k fuel r e =
      omega (
        arith,
        handle_turns-messages allows k fuel 0 (skip_header w r (w.read 8 r)) e (omega arith),
      )

  module _ (size : w.Reader → ℕ) (shrinking : IsShrinking w size) where
    parts_end :
        (r : w.Reader) (next : w.Reader → Answer w) (parts : List (List ℕ))
        → ((s : w.Reader) → size s ≤ size r → (next s).1 ≢ stuck)
        → (on_parts w parts r next).1 ≢ stuck
    parts_end r next parts h =
        on_parts-P (λ x. x.1 ≢ stuck) r next (λ e ne. ne) (λ m. h r (omega arith))
          (λ words count payload s q. h (w.discard (minus count (length payload)) s) (
            omega (
              arith,
              shrinking.discard (minus count (length payload)) s,
              shrinking.read 80 r s payload q,
            )))
          parts

    on_line-ne-stuck :
        (udp allowed : Bool) (r : w.Reader) (x : Option (List ℕ × w.Reader))
        (next : w.Reader → Answer w)
        → w.read_bytes 10 r ≡ x
        → ((s : w.Reader) → size s < size r → (next s).1 ≢ stuck)
        → (on_line w udp allowed x next).1 ≢ stuck
    on_line-ne-stuck udp allowed r none next q h = λ n. absurd (cc n)
    on_line-ne-stuck true false r (some (line, s)) next q h = λ n. absurd (cc n)
    on_line-ne-stuck true true r (some (line, s)) next q h =
        parts_end s next (split_at b' ' (strip line))
          (λ t l. h t (omega (arith, shrinking.read_bytes 10 r s line q)))
    on_line-ne-stuck false allowed r (some (line, s)) next q h =
        parts_end s next (split_at b' ' (strip line))
          (λ t l. h t (omega (arith, shrinking.read_bytes 10 r s line q)))

    handle_turns-ne-stuck :
        (udp : Bool) (allows : ℕ → Bool) (fuel i : ℕ) (r : w.Reader)
        → size r < fuel
        → (handle_turns w udp allows fuel i r).1 ≢ stuck
    unfolding handle_turns
    handle_turns-ne-stuck udp allows zero i r h = elim h [ ]
    handle_turns-ne-stuck udp allows (suc fuel) i r h =
        on_line-ne-stuck udp (allows i) r (w.read_bytes 10 r)
          (handle_turns w udp allows fuel (suc i)) refl
          (λ s l. handle_turns-ne-stuck udp allows fuel (suc i) s (omega arith))

    size-skip_header :
        (r : w.Reader) (x : w.Error ⊎ (List ℕ × w.Reader))
        → w.read 8 r ≡ x
        → size (skip_header w r x) ≤ size r
    size-skip_header r (inl e) q = omega arith
    size-skip_header r (inr (header, s)) q = shrinking.read 8 r s header q

    -- Where reading makes what is left smaller, the loop ends: as many turns as there are bytes, and one, are enough.
    pub handle-ne-stuck :
        (udp : Bool) (allows : ℕ → Bool) (fuel : ℕ) (r : w.Reader)
        → size r < fuel
        → (handle w udp allows fuel r).1 ≢ stuck
    unfolding handle
    handle-ne-stuck true allows fuel r h =
        handle_turns-ne-stuck true allows fuel 0 (skip_header w r (w.read 8 r))
          (omega (arith, size-skip_header r (w.read 8 r) refl))
    handle-ne-stuck false allows fuel r h = handle_turns-ne-stuck false allows fuel 0 r h
