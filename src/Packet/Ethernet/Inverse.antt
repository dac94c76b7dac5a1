-- ===== src/Packet/Ethernet/Inverse.antt =====
-- The Ethernet parser of ethernet.go against its writer.
use dynamic_labyrinth.Base.{ℕ, ◌<◌, ◌≡◌, ◌↔◌, List, ◌∷◌, ◌++◌, arith, ok, panic, All, length}
use dynamic_labyrinth.Base.Bytes.{IsByte, IsU16}
use dynamic_labyrinth.Packet.Ethernet.{Frame, parse, marshal}

-- On bytes, a frame that is parsed has two six-byte addresses, a uint16 type, and its header
-- written by `marshal` followed by its payload is the input.
pub parse_sound :
    (bytes : List ℕ) (f : Frame)
    → All IsByte bytes
    → parse bytes ≡ ok f
    → (length f.destination ≡ 6)
      × (length f.source ≡ 6)
      × IsU16 f.type
      × (marshal f ++ f.payload ≡ bytes)
unfolding parse marshal
parse_sound (a ∷ b ∷ c ∷ d ∷ e ∷ g ∷ i ∷ j ∷ k ∷ l ∷ m ∷ n ∷ o ∷ p ∷ rest) f w q = ground arith
parse_sound _ f w q = ground arith

-- `parse` panics exactly on fewer than fourteen bytes.
pub parse-eq-panic_short : (bytes : List ℕ) → (parse bytes ≡ panic) ↔ (length bytes < 14)
unfolding parse
parse-eq-panic_short (a ∷ b ∷ c ∷ d ∷ e ∷ g ∷ i ∷ j ∷ k ∷ l ∷ m ∷ n ∷ o ∷ p ∷ rest) = ground arith
parse-eq-panic_short _ = ground arith
