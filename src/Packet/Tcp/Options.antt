-- ===== src/Packet/Tcp/Options.antt =====
-- The option loop of the TCP parser in tcp.go: it ends, and panics on a lone last byte only.
use dynamic_labyrinth.Base.{
  ℕ, zero, suc, ◌+◌, ◌-◌, ◌≤◌, ◌<◌, ◌≡◌, ◌≢◌, some, none, ◌⊎◌, inl, inr, List, [], ◌∷◌, arith,
  length, drop, take, length-drop, ok, err, panic, refl,
}
use native.Mathlib.Decide.{dec_lt}
use dynamic_labyrinth.Base.Bytes.Slices.{slice_to-eq, slice_from-eq}
use dynamic_labyrinth.Packet.Tcp.{
  Header, TcpOption, Error, invalid_option_length, option_exceeds, Stuck, stuck, read_option,
  read_options, add_option, bare_option,
}

-- The walk over these option bytes comes to a single last byte that is neither the end of the list
-- nor a NOP, where the length byte is missing.
pub data Lone : List ℕ → Type 0 where
  last : {kind : ℕ} → 2 ≤ kind → Lone (kind ∷ [])
  nop : {rest : List ℕ} → Lone rest → Lone (1 ∷ rest)
  skip :
      {kind len : ℕ} {rest : List ℕ}
      → 2 ≤ kind
      → 2 ≤ len
      → len ≤ length rest + 2
      → Lone (drop (len - 2) rest)
      → Lone (kind ∷ len ∷ rest)

read_option_lem :
    (kind len : ℕ) (rest : List ℕ)
    → 2 ≤ len
    → len ≤ length rest + 2
    → read_option kind (len ∷ rest)
      ≡ ok (
        record { kind = kind; len = len; content = take (len - 2) rest },
        none,
        drop (len - 2) rest,
      )
unfolding read_option
read_option_lem kind (suc (suc n)) rest l r =
    ground (arith, slice_to-eq {E = Stuck} rest n, slice_from-eq {E = Stuck} rest n)
read_option_lem kind _ rest l r = absurd (omega arith)

read_option_error :
    (kind len : ℕ) (rest : List ℕ)
    → (len < 2) ⊎ (length rest + 2 < len)
    → (o : TcpOption) × (e : Error) × (read_option kind (len ∷ rest) ≡ ok (o, some e, []))
unfolding read_option
read_option_error kind len rest (inl h) =
    (record { kind = kind; len = len; content = [] }, invalid_option_length len, ground arith)
read_option_error kind len rest (inr h) = (
  record { kind = kind; len = len; content = [] },
  option_exceeds len (length (kind ∷ len ∷ rest)),
  ground arith,
)

-- One round on each kind of option.
round_end :
    (fuel : ℕ) (h : Header) (rest : List ℕ)
    → read_options (suc fuel) h (0 ∷ rest)
      ≡ ok (record (add_option h (bare_option 0)) { padding = rest }, none)
unfolding read_options
round_end fuel h rest = refl

round_nop :
    (fuel : ℕ) (h : Header) (rest : List ℕ)
    → read_options (suc fuel) h (1 ∷ rest) ≡ read_options fuel (add_option h (bare_option 1)) rest
unfolding read_options
round_nop fuel h rest = refl

round_lone :
    (fuel : ℕ) (h : Header) (kind : ℕ) → 2 ≤ kind → read_options (suc fuel) h (kind ∷ []) ≡ panic
unfolding read_options read_option
round_lone fuel h kind k = ground arith

pub round_long :
    (fuel : ℕ) (h : Header) (kind len : ℕ) (rest : List ℕ)
    → 2 ≤ kind
    → 2 ≤ len
    → len ≤ length rest + 2
    → read_options (suc fuel) h (kind ∷ len ∷ rest)
      ≡ read_options fuel
          (add_option h (record { kind = kind; len = len; content = take (len - 2) rest }))
          (drop (len - 2) rest)
unfolding read_options
round_long fuel h kind len rest k l r = ground (arith, read_option_lem kind len rest)

round_bad :
    (fuel : ℕ) (h : Header) (kind len : ℕ) (rest : List ℕ)
    → 2 ≤ kind
    → (len < 2) ⊎ (length rest + 2 < len)
    → (h' : Header) × (e : Error) × (read_options (suc fuel) h (kind ∷ len ∷ rest)
        ≡ ok (h', some e))
unfolding read_options
round_bad fuel h kind len rest k b =
    let (o, e, p) = read_option_error kind len rest b in (add_option h o, e, ground arith)

-- The shapes of the remaining option bytes.
data Shape : List ℕ → Type 0 where
  at_end : {rest : List ℕ} → Shape (0 ∷ rest)
  at_nop : {rest : List ℕ} → Shape (1 ∷ rest)
  at_lone : {kind : ℕ} → 2 ≤ kind → Shape (kind ∷ [])
  at_long :
      {kind len : ℕ} {rest : List ℕ}
      → 2 ≤ kind
      → 2 ≤ len
      → len ≤ length rest + 2
      → Shape (kind ∷ len ∷ rest)
  at_bad :
      {kind len : ℕ} {rest : List ℕ}
      → 2 ≤ kind
      → (len < 2) ⊎ (length rest + 2 < len)
      → Shape (kind ∷ len ∷ rest)

shape : (kind : ℕ) (rest : List ℕ) → Shape (kind ∷ rest)
shape zero rest = at_end
shape (suc zero) rest = at_nop
shape (suc (suc k)) [] = at_lone (omega arith)
shape (suc (suc k)) (len ∷ rest) = elim (dec_lt len 2) [
  | yes p ↦ at_bad (omega arith) (inl p)
  | no p ↦ elim (dec_lt (length rest + 2) len) [
    | yes q ↦ at_bad (omega arith) (inr q)
    | no q ↦ at_long (omega arith) (omega arith) (omega arith)
  ]
]

abbrev Fate : ℕ → Header → List ℕ → Type 0
Fate fuel h bs =
    (read_options fuel h bs ≢ err stuck)
    × (read_options fuel h bs ≡ panic → Lone bs)
    × (Lone bs → read_options fuel h bs ≡ panic)

Lone-long :
    {kind len : ℕ} {rest : List ℕ}
    → 2 ≤ kind
    → Lone (kind ∷ len ∷ rest)
    → Lone (drop (len - 2) rest)
Lone-long k (nop l) = absurd (omega arith)
Lone-long k (skip _ _ _ l) = l

Lone-nop : {rest : List ℕ} → Lone (1 ∷ rest) → Lone rest
Lone-nop (last k) = absurd (omega arith)
Lone-nop (nop l) = l
Lone-nop (skip k _ _ _) = absurd (omega arith)

Lone-end : {rest : List ℕ} → ¬ Lone (0 ∷ rest)
Lone-end (last k) = omega arith
Lone-end (skip k _ _ _) = omega arith

Lone-bad :
    {kind len : ℕ} {rest : List ℕ}
    → 2 ≤ kind
    → (len < 2) ⊎ (length rest + 2 < len)
    → ¬ Lone (kind ∷ len ∷ rest)
Lone-bad k b (nop l) = omega arith
Lone-bad k b (skip _ l r _) = omega arith

Fate-round :
    (fuel : ℕ) (h : Header) (bs : List ℕ)
    → Shape bs
    → length bs ≤ suc fuel
    → ((h' : Header) (bs' : List ℕ) → length bs' ≤ fuel → Fate fuel h' bs')
    → Fate (suc fuel) h bs
Fate-round fuel h _ (at_end {rest}) le ih =
    rw round_end ((λ p. cc), (λ p. cc), λ l. absurd (Lone-end l))
Fate-round fuel h _ (at_nop {rest}) le ih =
    let (total, to, from) = ih (add_option h (bare_option 1)) rest (omega arith) in
    rw round_nop (total, (λ p. nop (to p)), λ l. from (Lone-nop l))
Fate-round fuel h _ (at_lone {kind} k) le ih =
    rw (round_lone fuel h kind k) ((λ p. cc), (λ p. last k), λ l. refl)
Fate-round fuel h _ (at_long {kind} {len} {rest} k l r) le ih =
    let o : TcpOption = record { kind = kind; len = len; content = take (len - 2) rest } in
    let (total, to, from) =
      ih (add_option h o) (drop (len - 2) rest) (omega (arith, length-drop (len - 2) rest)) in
    rw (round_long fuel h kind len rest k l r)
      (total, (λ p. skip k l r (to p)), λ m. from (Lone-long k m))
Fate-round fuel h _ (at_bad {kind} {len} {rest} k b) le ih =
    let (h', e, p) = round_bad fuel h kind len rest k b in
    rw p ((λ q. cc), (λ q. cc), λ m. absurd (Lone-bad k b m))

-- With a round of fuel for each byte, the loop ends, and panics exactly at a lone last byte.
pub read_options-Fate : (fuel : ℕ) (h : Header) (bs : List ℕ) → length bs ≤ fuel → Fate fuel h bs
read_options-Fate zero h [] le = unfold read_options in ((λ p. cc), (λ p. cc), λ l. elim l [ ])
read_options-Fate (suc fuel) h [] le =
    unfold read_options in ((λ p. cc), (λ p. cc), λ l. elim l [ ])
read_options-Fate zero h (kind ∷ rest) le = absurd (omega arith)
read_options-Fate (suc fuel) h (kind ∷ rest) le =
    Fate-round fuel h (kind ∷ rest) (shape kind rest) le (read_options-Fate fuel)
