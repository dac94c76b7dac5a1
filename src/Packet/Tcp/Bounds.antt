-- ===== src/Packet/Tcp/Bounds.antt =====
-- When the TCP parser of tcp.go panics.
use dynamic_labyrinth.Base.{
  ℕ, ◌-◌, ◌*◌, ◌/◌, ◌≤◌, ◌<◌, ◌≡◌, ◌≢◌, ◌↔◌, ◌⊎◌, inl, inr, List, ◌∷◌, arith, ok, err, panic,
  length, take, drop, length-drop, refl,
}
use native.Mathlib.Decide.{dec_lt}
use dynamic_labyrinth.Base.Bytes.Slices.{slice_to-eq, slice_from-eq}
use dynamic_labyrinth.Packet.Tcp.{
  Header, Stuck, stuck, read_fixed, read_rest, read_options, unmarshal,
}
use dynamic_labyrinth.Packet.Tcp.Options.{Lone, read_options-Fate}

-- The data offset that these bytes give, in bytes, and the option bytes up to there.
abbrev pub data_start_at : List ℕ → ℕ
data_start_at (_ ∷ _ ∷ _ ∷ _ ∷ _ ∷ _ ∷ _ ∷ _ ∷ _ ∷ _ ∷ _ ∷ _ ∷ m ∷ _) = m / 16 * 4
data_start_at _ = 0

abbrev pub option_bytes : List ℕ → List ℕ
option_bytes bytes = take (data_start_at bytes - 20) (drop 20 bytes)

-- A packet whose data offset is sound and whose option bytes end in a lone byte.
pub record HasLoneOption (bytes : List ℕ) : Type 0 where
  pub enough : 20 ≤ length bytes
  pub above : 20 ≤ data_start_at bytes
  pub within : data_start_at bytes ≤ length bytes
  pub lone : Lone (option_bytes bytes)

read_rest_lem :
    (h : Header) (bytes : List ℕ)
    → 20 ≤ length bytes
    → 5 ≤ h.data_offset
    → h.data_offset * 4 ≤ length bytes
    → read_rest h bytes
      ≡ read_options
          (length (take (h.data_offset * 4 - 20) (drop 20 bytes)))
          (record h { payload = drop (h.data_offset * 4) bytes })
          (take (h.data_offset * 4 - 20) (drop 20 bytes))
unfolding read_rest
read_rest_lem h bytes l o w = ground (
  arith,
  slice_from-eq {E = Stuck} bytes (h.data_offset * 4),
  slice_from-eq {E = Stuck} bytes 20,
  slice_to-eq {E = Stuck} (drop 20 bytes) (h.data_offset * 4 - 20),
  length-drop 20 bytes,
)

read_rest_fate :
    (h : Header) (bytes : List ℕ)
    → 20 ≤ length bytes
    → h.data_offset * 4 ≡ data_start_at bytes
    → (read_rest h bytes ≢ err stuck)
      × (read_rest h bytes ≡ panic → HasLoneOption bytes)
      × (HasLoneOption bytes → read_rest h bytes ≡ panic)
read_rest_fate h bytes l e = elim (dec_lt (length bytes) (h.data_offset * 4)) [
  | yes q ↦
      unfold read_rest in ((λ p. ground arith), (λ p. ground arith), λ r. absurd (omega arith))
  | no q ↦ elim (dec_lt h.data_offset 5) [
    | yes q' ↦
        unfold read_rest in ((λ p. ground arith), (λ p. ground arith), λ r. absurd (omega arith))
    | no q' ↦
        let opts = take (h.data_offset * 4 - 20) (drop 20 bytes) in
        let (total, to, from) =
          read_options-Fate (length opts) (record h { payload = drop (h.data_offset * 4) bytes })
            opts (omega arith) in
        rw (read_rest_lem h bytes l (omega arith) (omega arith)) (
          total,
          (λ p. record {
            enough = l;
            above = omega arith;
            within = omega arith;
            lone = rw (← e) (to p);
          }),
          λ r. from (rw e r.lone),
        )
  ]
]

read_fixed_short : (h : Header) (bytes : List ℕ) → length bytes < 20 → read_fixed h bytes ≡ panic
unfolding read_fixed
read_fixed_short h
      (a ∷ b ∷ c ∷ d ∷ e ∷ f ∷ g ∷ i ∷ j ∷ k ∷ l ∷ m ∷ n ∷ o ∷ p ∷ q ∷ r ∷ s ∷ t ∷ u ∷ rest) le =
    absurd (omega arith)
read_fixed_short h _ le = refl

read_fixed_long :
    (h : Header) (bytes : List ℕ)
    → 20 ≤ length bytes
    → (h' : Header) × (read_fixed h bytes ≡ ok h') × (h'.data_offset * 4 ≡ data_start_at bytes)
unfolding read_fixed
read_fixed_long h
      (a ∷ b ∷ c ∷ d ∷ e ∷ f ∷ g ∷ i ∷ j ∷ k ∷ l ∷ m ∷ n ∷ o ∷ p ∷ q ∷ r ∷ s ∷ t ∷ u ∷ rest) le =
    (_, refl, refl)
read_fixed_long h _ le = absurd (omega arith)

-- `unmarshal` ends on every input. It panics exactly on fewer than twenty bytes, or where the data
-- offset is sound and the walk over the options comes to a lone last byte.
pub unmarshal-eq-panic :
    (h : Header) (bytes : List ℕ)
    → (unmarshal h bytes ≢ err stuck)
      × ((unmarshal h bytes ≡ panic) ↔ ((length bytes < 20) ⊎ HasLoneOption bytes))
unfolding unmarshal
unmarshal-eq-panic h bytes = elim (dec_lt (length bytes) 20) [
  | yes p ↦ rw (read_fixed_short h bytes p) ((λ q. cc), ((λ q. inl p), λ q. refl))
  | no p ↦
      let (h', e, offset) = read_fixed_long h bytes (omega arith) in
      let (total, to, from) = read_rest_fate h' bytes (omega arith) offset in
      rw e (total, ((λ q. inr (to q)), λ q. elim q [ inl s ↦ absurd (p s) | inr r ↦ from r ]))
]
