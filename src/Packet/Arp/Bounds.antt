-- ===== src/Packet/Arp/Bounds.antt =====
-- When the ARP parser of arp.go panics: its one length check does not cover the address sizes that
-- the frame itself gives.
use dynamic_labyrinth.Base.{
  ℕ, ◌+◌, ◌*◌, ◌≤◌, ◌<◌, ◌≡◌, ◌↔◌, List, ◌∷◌, arith, ok, panic, length, take, drop, leb,
  if◌then◌else◌, length-drop,
}
use dynamic_labyrinth.Base.Bytes.Slices.{slice_to-eq, slice_from-eq, copy_into-take}
use dynamic_labyrinth.Packet.Arp.{Frame, Error, fixed_part, parse, addresses, next_address}

next_address_lem :
    (n : ℕ) (bs : List ℕ)
    → next_address n bs ≡ (if leb n (length bs) then ok (take n bs, drop n bs) else panic)
unfolding next_address
next_address_lem n bs =
    ground
      (arith, slice_to-eq {E = Error} bs n, slice_from-eq {E = Error} bs n, copy_into-take n bs)

-- The bytes that the four addresses take.
abbrev pub address_bytes : Frame → ℕ
address_bytes f = 2 * (f.hardware_size + f.protocol_size)

addresses-eq-panic :
    (f : Frame) (bs : List ℕ) → (addresses f bs ≡ panic) ↔ (length bs < address_bytes f)
unfolding addresses
addresses-eq-panic f bs =
    let h = f.hardware_size in
    let p = f.protocol_size in
    let b1 = drop h bs in
    let b2 = drop p b1 in
    let b3 = drop h b2 in
    ground (
      arith,
      next_address_lem h bs,
      next_address_lem p b1,
      next_address_lem h b2,
      next_address_lem p b3,
      length-drop h bs,
      length-drop p b1,
      length-drop h b2,
    )

-- The size fields of the frame in these bytes.
abbrev pub hardware_size_at : List ℕ → ℕ
hardware_size_at (_ ∷ _ ∷ _ ∷ _ ∷ h ∷ _) = h
hardware_size_at _ = 0

abbrev pub protocol_size_at : List ℕ → ℕ
protocol_size_at (_ ∷ _ ∷ _ ∷ _ ∷ _ ∷ p ∷ _) = p
protocol_size_at _ = 0

-- `parse` panics exactly on inputs of 28 bytes or more whose two size fields are 20 at most and
-- ask for more address bytes than follow the eight bytes of the fixed part.
pub parse-eq-panic_sizes :
    (bytes : List ℕ)
    → (parse bytes ≡ panic) ↔ (
        (28 ≤ length bytes)
        × (hardware_size_at bytes ≤ 20)
        × (protocol_size_at bytes ≤ 20)
        × (length bytes < 8 + 2 * (hardware_size_at bytes + protocol_size_at bytes)))
unfolding parse
parse-eq-panic_sizes (a ∷ b ∷ c ∷ d ∷ h ∷ p ∷ e ∷ f ∷ rest) =
    ground
      (arith, addresses-eq-panic (fixed_part (a * 256 + b) (c * 256 + d) h p (e * 256 + f)) rest)
parse-eq-panic_sizes _ = ground arith

pub record HasAddresses (f : Frame) (bs : List ℕ) : Type 0 where
  pub sender_hardware : f.sender_hardware_address ≡ take f.hardware_size bs
  pub sender_protocol : f.sender_protocol_address ≡ take f.protocol_size (drop f.hardware_size bs)
  pub target_hardware :
      f.target_hardware_address
      ≡ take f.hardware_size (drop f.protocol_size (drop f.hardware_size bs))
  pub target_protocol :
      f.target_protocol_address
      ≡ take f.protocol_size (drop f.hardware_size (drop f.protocol_size (drop f.hardware_size bs)))
  pub fit : address_bytes f ≤ length bs

addresses-HasAddresses : (f f' : Frame) (bs : List ℕ) → addresses f bs ≡ ok f' → HasAddresses f' bs
unfolding addresses
addresses-HasAddresses f f' bs q =
    let h = f.hardware_size in
    let p = f.protocol_size in
    let b1 = drop h bs in
    let b2 = drop p b1 in
    let b3 = drop h b2 in
    ground (
      arith,
      next_address_lem h bs,
      next_address_lem p b1,
      next_address_lem h b2,
      next_address_lem p b3,
      length-drop h bs,
      length-drop p b1,
      length-drop h b2,
    )

addresses_sizes :
    (f f' : Frame) (bs : List ℕ)
    → addresses f bs ≡ ok f'
    → (f'.hardware_size ≡ f.hardware_size) × (f'.protocol_size ≡ f.protocol_size)
unfolding addresses
addresses_sizes f f' bs q = ground arith

-- A parsed frame has the two sizes that its bytes give, 20 at most, and its four addresses are the
-- bytes behind the fixed part, in order, each as long as its size says.
pub parse-HasAddresses :
    (bytes : List ℕ) (f : Frame)
    → parse bytes ≡ ok f
    → HasAddresses f (drop 8 bytes)
      × (f.hardware_size ≡ hardware_size_at bytes)
      × (f.protocol_size ≡ protocol_size_at bytes)
      × (f.hardware_size ≤ 20)
      × (f.protocol_size ≤ 20)
unfolding parse
parse-HasAddresses (a ∷ b ∷ c ∷ d ∷ h ∷ p ∷ e ∷ g ∷ rest) f q = ground (
  arith,
  addresses-HasAddresses (fixed_part (a * 256 + b) (c * 256 + d) h p (e * 256 + g)) f rest,
  addresses_sizes (fixed_part (a * 256 + b) (c * 256 + d) h p (e * 256 + g)) f rest,
)
parse-HasAddresses _ f q = ground arith
