-- ===== src/Packet/Arp.antt =====
-- honeytrap/listener/canary/arp/arp.go: the ARP frame and its parser.
pub mod Bounds
use dynamic_labyrinth.Base.{
  ℕ, List, [], length, ltb, ◌==◌, ◌&&◌, if◌then◌else◌, Outcome, ok, err, ◌>>=◌,
}
use dynamic_labyrinth.Base.Bytes.{slice, slice_from, slice_to, index, be_u16, copy_into}

pub record Frame : Type 0 where
  pub hardware_type : ℕ
  pub protocol_type : ℕ
  pub hardware_size : ℕ
  pub protocol_size : ℕ
  pub opcode : ℕ
  -- nil until a MAC or an IPv4 address is recognised
  pub sender_mac : List ℕ
  pub sender_ip : List ℕ
  pub target_mac : List ℕ
  pub target_ip : List ℕ
  pub sender_hardware_address : List ℕ
  pub sender_protocol_address : List ℕ
  pub target_hardware_address : List ℕ
  pub target_protocol_address : List ℕ

pub data Error : Type 0 where
  incorrect_header_size : ℕ → Error
  oversized_hardware : ℕ → Error
  oversized_protocol : ℕ → Error

-- make([]byte, n), copy from data[:n], data = data[n:]: the address and the rest.
unfoldable pub next_address : ℕ → List ℕ → Outcome Error (List ℕ × List ℕ)
next_address n bytes = do
  front ← slice_to bytes n
  rest ← slice_from bytes n
  ok (copy_into n front, rest)

-- The four addresses after the fixed part of the frame.
unfoldable pub addresses : Frame → List ℕ → Outcome Error Frame
unfolding next_address
addresses f bytes = do
  (sha, after_sha) ← next_address f.hardware_size bytes
  (spa, after_spa) ← next_address f.protocol_size after_sha
  (tha, after_tha) ← next_address f.hardware_size after_spa
  (tpa, after_tpa) ← next_address f.protocol_size after_tha
  let is_mac = f.hardware_size == 6
  let is_ip = f.protocol_type == 2048 && f.protocol_size == 4
  ok (record f {
    sender_hardware_address = sha;
    sender_protocol_address = spa;
    target_hardware_address = tha;
    target_protocol_address = tpa;
    sender_mac = if is_mac then sha else f.sender_mac;
    target_mac = if is_mac then tha else f.target_mac;
    sender_ip = if is_ip then spa else f.sender_ip;
    target_ip = if is_ip then tpa else f.target_ip;
  })

-- A frame with its fixed part read; the other fields have Go's zero value.
abbrev pub fixed_part : ℕ → ℕ → ℕ → ℕ → ℕ → Frame
fixed_part hardware_type protocol_type hardware_size protocol_size opcode = record {
  hardware_type = hardware_type;
  protocol_type = protocol_type;
  hardware_size = hardware_size;
  protocol_size = protocol_size;
  opcode = opcode;
  sender_mac = [];
  sender_ip = [];
  target_mac = [];
  target_ip = [];
  sender_hardware_address = [];
  sender_protocol_address = [];
  target_hardware_address = [];
  target_protocol_address = [];
}

unfoldable pub parse : List ℕ → Outcome Error Frame
parse bytes = if ltb (length bytes) 28 then err (incorrect_header_size (length bytes)) else do
  hardware_type ← slice bytes 0 2 >>= be_u16
  protocol_type ← slice bytes 2 4 >>= be_u16
  hardware_size ← index bytes 4
  protocol_size ← index bytes 5
  opcode ← slice bytes 6 8 >>= be_u16
  let f = fixed_part hardware_type protocol_type hardware_size protocol_size opcode
  rest ← slice_from bytes 8
  if ltb 20 hardware_size
      then err (oversized_hardware hardware_size)
      else if ltb 20 protocol_size
      then err (oversized_protocol protocol_size)
      else addresses f rest
