-- ===== src/Packet/Checksum.antt =====
-- The Internet checksums: `csum` of honeytrap/listener/canary/tcp/tcp.go, and `updateTCPChecksum`
-- and the header checksum inside `send` of honeytrap/listener/canary/canary_linux.go. An address is
-- its four bytes. The sums are uint32s and wrap.
pub mod Fold
pub mod Verify
use dynamic_labyrinth.Base.{
  ℕ, zero, suc, ◌+◌, ◌-◌, ◌*◌, ◌/◌, ◌%◌, List, [], ◌∷◌, length, set, ltb, ◌==◌, if◌then◌else◌,
}

abbrev pub u32 : ℕ → ℕ
u32 n = n % 4294967296

-- The four bytes of an IPv4 address.
pub record Quad : Type 0 where
  pub a : ℕ
  pub b : ℕ
  pub c : ℕ
  pub d : ℕ

-- for csum>>16 > 0 { csum = (csum & 0xffff) + (csum >> 16) }, with fuel. Four rounds are enough
-- for a uint32.
unfoldable pub carry : ℕ → ℕ → ℕ
carry zero s = s
carry (suc fuel) s =
    let more = carry fuel (u32 (s % 65536 + s / 65536)) in if ltb 0 (s / 65536) then more else s

-- uint16(^csum)
abbrev pub complement : ℕ → ℕ
complement s = 65535 - s % 65536

-- The loop of `csum` over the words from index i on, word 16 skipped, and the odd byte at the end.
unfoldable pub add_words : ℕ → ℕ → List ℕ → ℕ
add_words i s [] = s
add_words i s (x ∷ []) = u32 (s + x * 256)
add_words i s (x ∷ y ∷ rest) =
    add_words (i + 2) (if i == 16 then s else u32 (s + (x * 256 % 65536 + y) % 65536)) rest

unfoldable pub csum : List ℕ → Quad → Quad → ℕ
csum bytes src dst =
    let s1 = u32 (0 + (src.a * 256 + src.b)) in
    let s2 = u32 (s1 + (src.c * 256 + src.d)) in
    let s3 = u32 (s2 + (dst.a * 256 + dst.b)) in
    let s4 = u32 (s3 + (dst.c * 256 + dst.d)) in
    let s5 = u32 (s4 + 6) in
    let s6 = u32 (s5 + length bytes) in complement (carry 4 (add_words 0 s6 bytes))

-- The same loop in `updateTCPChecksum`: the two bytes are added one after the other.
unfoldable pub add_bytes : ℕ → ℕ → List ℕ → ℕ
add_bytes i s [] = s
add_bytes i s (x ∷ []) = u32 (s + x * 256)
add_bytes i s (x ∷ y ∷ rest) =
    add_bytes (i + 2) (if i == 16 then s else u32 (u32 (s + x * 256) + y)) rest

-- The checksum that `updateTCPChecksum` computes.
unfoldable pub segment_checksum : List ℕ → Quad → Quad → ℕ
segment_checksum bytes src dst =
    let s1 = u32 (0 + (src.a + src.c) * 256) in
    let s2 = u32 (s1 + (src.b + src.d)) in
    let s3 = u32 (s2 + (dst.a + dst.c) * 256) in
    let s4 = u32 (s3 + (dst.b + dst.d)) in
    let s5 = u32 (s4 + 6) in
    let s6 = u32 (s5 + length bytes % 65536) in
    let s7 = u32 (s6 + length bytes / 65536) in
    let s8 = carry 4 (add_bytes 0 s7 bytes) in complement (u32 (s8 + s8 / 65536))

-- `updateTCPChecksum` on a segment of 18 bytes or more; on a shorter one Go panics.
unfoldable pub update_tcp_checksum : List ℕ → Quad → Quad → List ℕ
update_tcp_checksum bytes src dst =
    let sum = segment_checksum bytes src dst in set (set bytes 16 (sum / 256 % 256)) 17 (sum % 256)

-- The loop of `send` over the twenty bytes of the IP header, word 10 skipped.
unfoldable pub add_header : ℕ → ℕ → List ℕ → ℕ
add_header i s (x ∷ y ∷ rest) =
    add_header (i + 2) (if i == 10 then s else u32 (u32 (s + x * 256) + y)) rest
add_header i s _ = s

-- The header checksum that `send` writes at bytes 10 and 11.
unfoldable pub update_ip_checksum : List ℕ → List ℕ
update_ip_checksum bytes =
    let sum = complement (carry 4 (add_header 0 0 bytes)) in
    set (set bytes 10 (sum / 256 % 256)) 11 (sum % 256)
