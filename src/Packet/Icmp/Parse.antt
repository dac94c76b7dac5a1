-- ===== src/Packet/Icmp/Parse.antt =====
-- The ICMP parser of icmp.go: it never panics, and reads the first eight bytes and no more.
use dynamic_labyrinth.Base.{
  ℕ, ◌≤◌, ◌≡◌, ◌≢◌, ◌↔◌, ◌++◌, List, ◌∷◌, arith, ok, panic, All, length, take,
}
use dynamic_labyrinth.Base.Bytes.{IsByte, IsU16, put_u16}
use dynamic_labyrinth.Packet.Icmp.{Icmpv4, parse, type_of, code_of, serialize_to}

pub record IsWellFormed (i : Icmpv4) : Type 0 where
  pub type_code : IsU16 i.type_code
  pub checksum : IsU16 i.checksum
  pub id : IsU16 i.id
  pub seq : IsU16 i.seq

abbrev pub words : Icmpv4 → List ℕ
words i = serialize_to i.type_code ++ (put_u16 i.checksum ++ (put_u16 i.id ++ put_u16 i.seq))

-- On bytes, `parse` returns a header exactly when there are eight bytes at least, the header's
-- fields are uint16s, and they make up the first eight bytes, big-endian.
pub parse-eq-ok :
    (bytes : List ℕ) (i : Icmpv4)
    → All IsByte bytes
    → (parse bytes ≡ ok i) ↔ ((8 ≤ length bytes) × IsWellFormed i × (words i ≡ take 8 bytes))
unfolding parse serialize_to
parse-eq-ok (a ∷ b ∷ c ∷ d ∷ e ∷ f ∷ g ∷ i ∷ rest) hdr w =
    ((λ q. ground arith), (λ q. ground arith))
parse-eq-ok _ hdr w = ground arith

pub parse-ne-panic : (bytes : List ℕ) → parse bytes ≢ panic
unfolding parse
parse-ne-panic (a ∷ b ∷ c ∷ d ∷ e ∷ f ∷ g ∷ i ∷ rest) h = ground arith
parse-ne-panic _ h = ground arith

-- The type and the code of a parsed header are the first two bytes.
pub type_of-parse :
    (typ code : ℕ) (rest : List ℕ) (i : Icmpv4)
    → All IsByte (typ ∷ code ∷ rest)
    → parse (typ ∷ code ∷ rest) ≡ ok i
    → (type_of i.type_code ≡ typ) × (code_of i.type_code ≡ code)
unfolding parse type_of code_of
type_of-parse typ code (c ∷ d ∷ e ∷ f ∷ g ∷ j ∷ rest) i w h = ground arith
type_of-parse typ code _ i w h = ground arith
