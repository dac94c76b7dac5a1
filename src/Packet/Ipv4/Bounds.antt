-- ===== src/Packet/Ipv4/Bounds.antt =====
-- When the IPv4 parser of ipv4.go panics: a total length below 20 is not refused.
use dynamic_labyrinth.Base.{
  ℕ, ◌+◌, ◌-◌, ◌*◌, ◌%◌, ◌≤◌, ◌<◌, ◌≡◌, ◌↔◌, List, ◌∷◌, arith, panic, length,
}
use dynamic_labyrinth.Base.Bytes.Slices.{slice_to-eq}
use dynamic_labyrinth.Packet.Ipv4.{Error, Platform, linux, parse, read_fields, read_payload}

-- The header length and the total length that these bytes give.
abbrev pub header_len_at : List ℕ → ℕ
header_len_at (a ∷ _) = a % 16 * 4
header_len_at _ = 0

abbrev pub total_len_at : List ℕ → ℕ
total_len_at (_ ∷ _ ∷ c ∷ d ∷ _) = c * 256 + d
total_len_at _ = 0

-- On Linux `parse` panics exactly on inputs of 20 bytes or more whose header length is within the
-- input and whose total length is below 20.
pub parse-eq-panic_total :
    (p : Platform) (b : List ℕ)
    → p.goos ≡ linux
    → (parse p b ≡ panic) ↔ ((20 ≤ length b) × (header_len_at b ≤ length b) × (total_len_at b < 20))
unfolding parse read_fields read_payload
parse-eq-panic_total p
      (a ∷ b ∷ c ∷ d ∷ e ∷ f ∷ g ∷ h ∷ i ∷ j ∷ k ∷ l ∷ m ∷ n ∷ o ∷ q ∷ r ∷ s ∷ t ∷ u ∷ rest) lin =
    ground (arith, slice_to-eq {E = Error} rest (c * 256 + d - 20))
parse-eq-panic_total p _ lin = ground arith
