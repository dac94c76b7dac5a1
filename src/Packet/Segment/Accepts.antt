-- ===== src/Packet/Segment/Accepts.antt =====
-- `UnmarshalWithChecksum` takes a segment that `MarshalWithChecksum` writes.
use dynamic_labyrinth.Base.{
  ℕ, zero, suc, ◌*◌, ◌≤◌, ◌≡◌, ◌≢◌, Option, none, some, List, [], ◌∷◌, length, All, arith, ok, err,
  panic, sym, ◌∙◌, ◌>>=◌, >>=-ok, Outcome, ==_iff, Bool, true, if◌then◌else◌,
}
use dynamic_labyrinth.Base.Bytes.{IsByte, slice, slice_from}
use dynamic_labyrinth.Packet.Tcp
use dynamic_labyrinth.Packet.Tcp.{
  Header, TcpOption, Filled, read_fixed, read_rest, read_option, read_options, unmarshal, marshal,
  blank, add_option, bare_option,
}
use dynamic_labyrinth.Packet.Checksum.{Quad, csum}
use dynamic_labyrinth.Packet.Checksum.Verify.{checksum_at, csum-set_checksum, csum-lt}
use dynamic_labyrinth.Packet.Segment.{
  Refusal, invalid_checksum, refuse, unmarshal_with_checksum, marshal_with_checksum,
}

default-checksum :
    (fuel : ℕ) (h : Header) (r : Outcome Tcp.Stuck (TcpOption × Option Tcp.Error × List ℕ))
    (h' : Header) (e : Option Tcp.Error)
    → ((o : TcpOption) (more : List ℕ)
        → read_options fuel (add_option h o) more ≡ ok (h', e)
        → h'.checksum ≡ h.checksum)
    → (r >>= λ (o, error, more). elim error as (λ x. Filled) [
      | some e' ↦ ok (add_option h o, some e')
      | none ↦ read_options fuel (add_option h o) more
    ])
      ≡ ok (h', e)
    → h'.checksum ≡ h.checksum
default-checksum fuel h (ok (o, some e', more)) h' e rec q = ground arith
default-checksum fuel h (ok (o, none, more)) h' e rec q = rec o more q
default-checksum fuel h (err x) h' e rec q = cc
default-checksum fuel h panic h' e rec q = cc

read_options-checksum :
    (fuel : ℕ) (h : Header) (bs : List ℕ) (h' : Header) (e : Option Tcp.Error)
    → read_options fuel h bs ≡ ok (h', e)
    → h'.checksum ≡ h.checksum
unfolding read_options
read_options-checksum fuel h [] h' e q = ground arith
read_options-checksum zero h (kind ∷ rest) h' e q = ground arith
read_options-checksum (suc fuel) h (kind ∷ rest) h' e q = ground (
  arith,
  read_options-checksum fuel (add_option h (bare_option kind)) rest h' e,
  default-checksum fuel h (read_option kind rest) h' e
      (λ o more. read_options-checksum fuel (add_option h o) more h' e),
)

behind-checksum :
    (h : Header) (bs : List ℕ) (n : ℕ) (h' : Header) (e : Option Tcp.Error)
    → (slice_from bs n >>= λ payload. slice bs 20 n >>= λ options.
        read_options (length options) (record h { payload = payload }) options)
      ≡ ok (h', e)
    → h'.checksum ≡ h.checksum
behind-checksum h bs n h' e q =
    let (payload, _, k) = >>=-ok (slice_from bs n) _ q in
    let (options, _, k') = >>=-ok (slice bs 20 n) _ k in
    read_options-checksum (length options) (record h { payload = payload }) options h' e k'

read_rest-checksum :
    (h : Header) (bs : List ℕ) (h' : Header) (e : Option Tcp.Error)
    → read_rest h bs ≡ ok (h', e)
    → h'.checksum ≡ h.checksum
unfolding read_rest
read_rest-checksum h bs h' e q = ground (arith, behind-checksum h bs (h.data_offset * 4) h' e)

read_fixed-checksum :
    (h : Header) (bs : List ℕ) (h' : Header)
    → read_fixed h bs ≡ ok h'
    → h'.checksum ≡ checksum_at bs
unfolding read_fixed
read_fixed-checksum h
      (a ∷ b ∷ c ∷ d ∷ e ∷ f ∷ g ∷ i ∷ j ∷ k ∷ l ∷ m ∷ n ∷ o ∷ p ∷ q ∷ r ∷ s ∷ t ∷ u ∷ rest) h' eq =
    ground arith
read_fixed-checksum h _ h' eq = ground arith

unmarshal-checksum :
    (h : Header) (bs : List ℕ) (h' : Header) (e : Option Tcp.Error)
    → unmarshal h bs ≡ ok (h', e)
    → h'.checksum ≡ checksum_at bs
unfolding unmarshal
unmarshal-checksum h bs h' e q =
    let (h1, a, b) = >>=-ok (read_fixed h bs) (λ x. read_rest x bs) q in
    read_rest-checksum h1 bs h' e b ∙ read_fixed-checksum h bs h1 a

marshal_long : (h : Header) → 18 ≤ length (marshal h).0
unfolding marshal
marshal_long h = omega arith

refusal_lem :
    (b : Bool) (o : Option Tcp.Error)
    → b ≡ true
    → (if b then refuse o else some invalid_checksum) ≢ some invalid_checksum
refusal_lem b o h k = ground arith

-- A segment that `marshal_with_checksum` writes, whose bytes are bytes, is not refused for its checksum
-- by `unmarshal_with_checksum` between the same addresses.
pub unmarshal_with_checksum-marshal_with_checksum :
    (h : Header) (src dst : Quad) (h' : Header) (r : Option Refusal)
    → All IsByte (marshal h).0
    → unmarshal_with_checksum (marshal_with_checksum h src dst) src dst ≡ ok (h', r)
    → r ≢ some invalid_checksum
unfolding unmarshal_with_checksum marshal_with_checksum
unmarshal_with_checksum-marshal_with_checksum h src dst h' r w q =
    let bs = (marshal h).0 in
    let (same, stored) =
      csum-set_checksum bs src dst (csum bs src dst) w (marshal_long h) (csum-lt bs src dst w) in
    let ((h1, e), a, b) = >>=-ok (unmarshal blank (marshal_with_checksum h src dst)) _ q in
    let equal = same ∙ sym stored ∙ sym (unmarshal-checksum blank _ h1 e a) in
    let taken =
      refusal_lem _ e
        ((==_iff (csum (marshal_with_checksum h src dst) src dst) h1.checksum).1 equal) in
    λ k. taken (cc (b, k))
