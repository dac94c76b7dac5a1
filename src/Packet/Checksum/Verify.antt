-- ===== src/Packet/Checksum/Verify.antt =====
-- The checksums that the code writes are the ones that it, and RFC 793 and RFC 791, accept.
use dynamic_labyrinth.Base.{
  ℕ, ◌+◌, ◌*◌, ◌/◌, ◌%◌, ◌≤◌, ◌<◌, ◌≡◌, List, [], ◌∷◌, length, All, ◌==◌, if◌then◌else◌, arith, set,
  drop, ◌∙◌, sym, refl, ap,
}
use dynamic_labyrinth.Base.Bytes.{IsByte}
use dynamic_labyrinth.Packet.Checksum.{
  Quad, carry, complement, u32, add_words, csum, add_bytes, segment_checksum, update_tcp_checksum,
  add_header, update_ip_checksum,
}
use dynamic_labyrinth.Packet.Checksum.Fold.{carry-Folds, carry-complement}

-- The sum of the big-endian words of a list, an odd last byte in the high half, with the word at
-- byte `hole` left out; `i` is the place of the first byte.
pub word_sum : ℕ → ℕ → List ℕ → ℕ
word_sum hole i [] = 0
word_sum hole i (x ∷ []) = x * 256
word_sum hole i (x ∷ y ∷ rest) = (if i == hole then 0 else x * 256 + y) + word_sum hole (i + 2) rest

-- Both TCP loops add it, modulo 2 ^ 32.
add_words-word_sum :
    (i s : ℕ) (bs : List ℕ)
    → All IsByte bs
    → s < 4294967296
    → add_words i s bs ≡ u32 (s + word_sum 16 i bs)
unfolding add_words word_sum
add_words-word_sum i s [] w h = omega arith
add_words-word_sum i s (x ∷ []) w h = omega arith
add_words-word_sum i s (x ∷ y ∷ rest) w h = ground (
  arith,
  add_words-word_sum (i + 2) s rest,
  add_words-word_sum (i + 2) (u32 (s + (x * 256 % 65536 + y) % 65536)) rest,
)

add_bytes-word_sum :
    (i s : ℕ) (bs : List ℕ) → s < 4294967296 → add_bytes i s bs ≡ u32 (s + word_sum 16 i bs)
unfolding add_bytes word_sum
add_bytes-word_sum i s [] h = omega arith
add_bytes-word_sum i s (x ∷ []) h = omega arith
add_bytes-word_sum i s (x ∷ y ∷ rest) h = ground (
  arith,
  add_bytes-word_sum (i + 2) s rest,
  add_bytes-word_sum (i + 2) (u32 (u32 (s + x * 256) + y)) rest,
)

-- What the pseudo header adds: both addresses, the protocol number and the length.
abbrev pub pseudo_sum : Quad → Quad → ℕ → ℕ
pseudo_sum src dst len =
    (src.a + src.c + dst.a + dst.c) * 256 + (src.b + src.d + dst.b + dst.d) + 6 + len

csum_lem :
    (bs : List ℕ) (src dst : Quad)
    → All IsByte bs
    → csum bs src dst
      ≡ complement (carry 4 (u32 (pseudo_sum src dst (length bs) + word_sum 16 0 bs)))
unfolding csum
csum_lem bs src dst w =
    ap (λ (s : ℕ). complement (carry 4 s)) (add_words-word_sum 0 _ bs w (omega arith) ∙ omega arith)

-- The last fold of `updateTCPChecksum` changes nothing.
fold_stable :
    (s : ℕ)
    → s < 4294967296
    → complement (u32 (carry 4 s + carry 4 s / 65536)) ≡ complement (carry 4 s)
fold_stable s h = omega (arith, carry-Folds s h)

segment_checksum_lem :
    (bs : List ℕ) (src dst : Quad)
    → length bs < 65536
    → segment_checksum bs src dst
      ≡ complement (carry 4 (u32 (pseudo_sum src dst (length bs) + word_sum 16 0 bs)))
unfolding segment_checksum
segment_checksum_lem bs src dst l =
    ap (λ (s : ℕ). complement (u32 (carry 4 s + carry 4 s / 65536)))
      (add_bytes-word_sum 0 _ bs (omega arith) ∙ omega arith)
    ∙ fold_stable (u32 (pseudo_sum src dst (length bs) + word_sum 16 0 bs)) (omega arith)

abbrev word_at : List ℕ → ℕ
word_at (x ∷ y ∷ _) = x * 256 + y
word_at _ = 0

-- The word at byte 16, where the checksum stands.
abbrev pub checksum_at : List ℕ → ℕ
checksum_at bs = word_at (drop 16 bs)

-- All words of a list.
pub total_words : List ℕ → ℕ
total_words [] = 0
total_words (x ∷ []) = x * 256
total_words (x ∷ y ∷ rest) = x * 256 + y + total_words rest

total_words-le : (bs : List ℕ) → All IsByte bs → total_words bs ≤ 65280 * length bs
unfolding total_words
total_words-le [] w = omega arith
total_words-le (x ∷ []) w = omega arith
total_words-le (x ∷ y ∷ rest) w = omega (arith, total_words-le rest w.1.1)

word_sum-total_words : (hole i : ℕ) (bs : List ℕ) → hole < i → word_sum hole i bs ≡ total_words bs
unfolding word_sum total_words
word_sum-total_words hole i [] h = refl
word_sum-total_words hole i (x ∷ []) h = refl
word_sum-total_words hole i (x ∷ y ∷ rest) h =
    ground (arith, word_sum-total_words hole (i + 2) rest)

-- What writing the checksum does to a segment of 18 bytes or more.
record Written (bs bs' : List ℕ) (sum : ℕ) : Type 0 where
  bytes : All IsByte bs'
  same_length : length bs' ≡ length bs
  unsummed : word_sum 16 0 bs' ≡ word_sum 16 0 bs
  stored : checksum_at bs' ≡ sum
  total : total_words bs' ≡ word_sum 16 0 bs + sum

written :
    (bs : List ℕ) (sum : ℕ)
    → All IsByte bs
    → 18 ≤ length bs
    → sum < 65536
    → Written bs (set (set bs 16 (sum / 256 % 256)) 17 (sum % 256)) sum
unfolding word_sum total_words
written (a ∷ b ∷ c ∷ d ∷ e ∷ f ∷ g ∷ h ∷ i ∷ j ∷ k ∷ l ∷ m ∷ n ∷ o ∷ p ∷ q ∷ r ∷ rest) sum w le lt =
    record {
      bytes = ground arith;
      same_length = refl;
      unsummed = refl;
      stored = omega arith;
      total = omega (arith, word_sum-total_words 16 18 rest);
    }
written _ sum w le lt = absurd (omega arith)

-- Writing the checksum does not change what `csum` computes.
pub csum-set_checksum :
    (bs : List ℕ) (src dst : Quad) (sum : ℕ)
    → All IsByte bs
    → 18 ≤ length bs
    → sum < 65536
    → let bs' = set (set bs 16 (sum / 256 % 256)) 17 (sum % 256) in
      (csum bs' src dst ≡ csum bs src dst) × (checksum_at bs' ≡ sum)
csum-set_checksum bs src dst sum w le lt =
    let r = written bs sum w le lt in
    let bs' = set (set bs 16 (sum / 256 % 256)) 17 (sum % 256) in
    (
      csum_lem bs' src dst r.bytes ∙ rw (r.same_length, r.unsummed) (sym (csum_lem bs src dst w)),
      r.stored,
    )

-- A checksum is a uint16.
pub csum-lt : (bs : List ℕ) (src dst : Quad) → All IsByte bs → csum bs src dst < 65536
csum-lt bs src dst w = rw (csum_lem bs src dst w) (omega arith)

pub record IsQuad (q : Quad) : Type 0 where
  pub a : IsByte q.a
  pub b : IsByte q.b
  pub c : IsByte q.c
  pub d : IsByte q.d

module _ (bs : List ℕ) (src dst : Quad) (w : All IsByte bs) (le : 18 ≤ length bs)
    (lt : length bs < 65536) where
  update-Written : Written bs (update_tcp_checksum bs src dst) (segment_checksum bs src dst)
  unfolding update_tcp_checksum
  update-Written =
      written bs (segment_checksum bs src dst) w le
        (rw (segment_checksum_lem bs src dst lt) (omega arith))

  -- The segment that `updateTCPChecksum` leaves has its length, and holds the checksum that `csum`
  -- computes of it, so `UnmarshalWithChecksum` takes its checksum for valid.
  pub csum-update_tcp_checksum :
      (length (update_tcp_checksum bs src dst) ≡ length bs)
      × (csum (update_tcp_checksum bs src dst) src dst
          ≡ checksum_at (update_tcp_checksum bs src dst))
  csum-update_tcp_checksum =
      let r = update-Written in
      (
        r.same_length,
        csum_lem (update_tcp_checksum bs src dst) src dst r.bytes
            ∙ rw (r.same_length, r.unsummed, r.stored) (sym (segment_checksum_lem bs src dst lt)),
      )

  -- The ones' complement sum of the pseudo header and of all words of the segment that
  -- `updateTCPChecksum` leaves, the checksum included, folds to 0xffff: the test of RFC 793.
  pub carry-update_tcp_checksum :
      IsQuad src
      → IsQuad dst
      → carry 4 (pseudo_sum src dst (length bs) + total_words (update_tcp_checksum bs src dst))
        ≡ 65535
  carry-update_tcp_checksum qs qd =
      let r = update-Written in
      let s : ℕ = pseudo_sum src dst (length bs) + word_sum 16 0 bs in
      let small = total_words-le (update_tcp_checksum bs src dst) r.bytes in
      let fits : s < 4294967296 = omega arith in
      let unwrapped : u32 s ≡ s = omega arith in
      let sum = rw unwrapped at (segment_checksum_lem bs src dst lt) in
      carry-complement s _ fits (omega arith) (omega arith)

-- What writing the checksum does to a header of 20 bytes.
header_written :
    (bs : List ℕ) (sum : ℕ)
    → length bs ≡ 20
    → sum < 65536
    → total_words (set (set bs 10 (sum / 256 % 256)) 11 (sum % 256)) ≡ word_sum 10 0 bs + sum
unfolding word_sum total_words
header_written (a ∷ b ∷ c ∷ d ∷ e ∷ f ∷ g ∷ h ∷ i ∷ j ∷ k ∷ l ∷ rest) sum le lt =
    omega (arith, word_sum-total_words 10 12 rest)
header_written _ sum le lt = absurd (omega arith)

add_header_lem :
    (bs : List ℕ)
    → All IsByte bs
    → length bs ≡ 20
    → (add_header 0 0 bs ≡ word_sum 10 0 bs) × (word_sum 10 0 bs < 65536 * 9)
unfolding add_header word_sum
add_header_lem (a ∷ b ∷ c ∷ d ∷ e ∷ f ∷ g ∷ h ∷ i ∷ j ∷ k ∷ l ∷ m ∷ n ∷ o ∷ p ∷ q ∷ r ∷ s ∷ t ∷ [])
      w le =
    omega arith
add_header_lem _ w le = absurd (omega arith)

-- The ones' complement sum of all ten words of the IP header that `send` emits, the checksum
-- included, folds to 0xffff: the test of RFC 791.
pub carry-update_ip_checksum :
    (bs : List ℕ)
    → All IsByte bs
    → length bs ≡ 20
    → carry 4 (total_words (update_ip_checksum bs)) ≡ 65535
unfolding update_ip_checksum
carry-update_ip_checksum bs w le =
    let (sum, small) = add_header_lem bs w le in
    carry-complement (word_sum 10 0 bs) _ (omega arith)
      (rw (header_written bs (complement (carry 4 (add_header 0 0 bs))) le (omega arith))
        (omega arith))
      (rw (header_written bs (complement (carry 4 (add_header 0 0 bs))) le (omega arith), sum))
