-- ===== src/Packet/Ethernet.antt =====
-- honeytrap/listener/canary/ethernet/ethernet.go: the Ethernet frame header.
pub mod Inverse
use dynamic_labyrinth.Base.{ℕ, zero, ◌/◌, ◌%◌, List, [], ◌∷◌, ◌++◌, Outcome, ok, ◌>>=◌}
use dynamic_labyrinth.Base.Bytes.{slice, slice_from, be_u16}
use dynamic_labyrinth.Base.Bytes.{copy_into}

pub record Frame : Type 0 where
  pub source : List ℕ
  pub destination : List ℕ
  pub type : ℕ
  pub payload : List ℕ

-- `Parse` never returns an error value: it fills the frame or panics.
unfoldable pub parse : List ℕ → Outcome (Unit {0}) Frame
parse bytes = do
  destination ← slice bytes 0 6
  source ← slice bytes 6 12
  type ← slice bytes 12 14 >>= be_u16
  payload ← slice_from bytes 14
  ok (record { source = source; destination = destination; type = type; payload = payload })

-- The 14 bytes of the header; the payload is not written.
unfoldable pub marshal : Frame → List ℕ
marshal f =
    copy_into 6 f.destination
    ++ (copy_into 6 f.source ++ (f.type / 256 % 256) ∷ (f.type % 256) ∷ [])
