-- ===== src/Packet/Udp/Inverse.antt =====
-- The UDP parser of udp.go against its writer.
use dynamic_labyrinth.Base.{ℕ, ◌≡◌, ◌≢◌, ◌↔◌, List, ◌∷◌, arith, ok, panic, All}
use dynamic_labyrinth.Base.Bytes.{IsByte}
use dynamic_labyrinth.Packet.Udp.{Header, IsWellFormed, unmarshal, marshal}

pub unmarshal-marshal : (h : Header) → IsWellFormed h → unmarshal (marshal h) ≡ ok h
unfolding unmarshal marshal
unmarshal-marshal h w = ground arith

marshal-unmarshal :
    (bytes : List ℕ) (h : Header)
    → All IsByte bytes
    → unmarshal bytes ≡ ok h
    → IsWellFormed h × (marshal h ≡ bytes)
unfolding unmarshal marshal
marshal-unmarshal (a ∷ b ∷ c ∷ d ∷ e ∷ f ∷ g ∷ i ∷ rest) h w p = ground arith
marshal-unmarshal _ h w p = ground arith

-- On bytes, `unmarshal` returns a header exactly when the header's fields fit their Go types, its
-- length field counts the whole datagram, and `marshal` writes the bytes back from it.
pub unmarshal-eq-ok :
    (bytes : List ℕ) (h : Header)
    → All IsByte bytes
    → (unmarshal bytes ≡ ok h) ↔ (IsWellFormed h × (marshal h ≡ bytes))
unmarshal-eq-ok bytes h w = (marshal-unmarshal bytes h w, λ q. rw (← q.1) (unmarshal-marshal h q.0))

pub unmarshal-ne-panic : (bytes : List ℕ) → unmarshal bytes ≢ panic
unfolding unmarshal
unmarshal-ne-panic (a ∷ b ∷ c ∷ d ∷ e ∷ f ∷ g ∷ i ∷ rest) h = ground arith
unmarshal-ne-panic _ h = ground arith
