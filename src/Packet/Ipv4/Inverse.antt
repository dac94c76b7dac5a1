-- ===== src/Packet/Ipv4/Inverse.antt =====
-- The IPv4 parser of ipv4.go against its writer, on Linux.
use dynamic_labyrinth.Base.{
  ℕ, ◌+◌, ◌-◌, ◌*◌, ◌/◌, ◌%◌, ◌≤◌, ◌<◌, ◌≡◌, List, [], ◌∷◌, ◌++◌, arith, ok, length, length-append,
  ◌>>=◌, ltb, if◌then◌else◌, ap, ◌∙◌,
}
use dynamic_labyrinth.Base.Bytes.{IsByte, IsU16, copy_into}
use dynamic_labyrinth.Base.Bytes.Slices.{slice_to-eq, copy_into-append, take-length}
use dynamic_labyrinth.Base.Ip.{v4}
use dynamic_labyrinth.Packet.Ipv4.{
  Header, Error, Platform, linux, parse, marshal, read_fields, read_payload,
}

-- A header that fits its wire format: the option bytes fill whole words, and the payload, which the
-- parser takes from byte 20 on, begins with them.
pub record IsWellFormed (h : Header) (rest : List ℕ) : Type 0 where
  pub version : h.version ≡ 4
  pub len : h.len ≡ 20 + length h.options
  pub words : length h.options % 4 ≡ 0
  pub fits : length h.options ≤ 40
  pub tos : IsByte h.tos
  pub total_len : IsU16 h.total_len
  pub counted : h.total_len ≡ 20 + length h.payload
  pub id : IsU16 h.id
  pub flags : h.flags < 8
  pub frag_off : h.frag_off < 8192
  pub ttl : IsByte h.ttl
  pub protocol : IsByte h.protocol
  pub checksum : IsU16 h.checksum
  pub payload : h.payload ≡ h.options ++ rest

-- The twenty bytes of a header without options.
record Fixed : Type 0 where
  first : ℕ
  tos : ℕ
  total_hi : ℕ
  total_lo : ℕ
  id_hi : ℕ
  id_lo : ℕ
  frag_hi : ℕ
  frag_lo : ℕ
  ttl : ℕ
  protocol : ℕ
  sum_hi : ℕ
  sum_lo : ℕ
  s0 : ℕ
  s1 : ℕ
  s2 : ℕ
  s3 : ℕ
  d0 : ℕ
  d1 : ℕ
  d2 : ℕ
  d3 : ℕ

abbrev fixed_bytes : Fixed → List ℕ → List ℕ
fixed_bytes x rest =
    x.first ∷ x.tos ∷ x.total_hi ∷ x.total_lo ∷ x.id_hi ∷ x.id_lo ∷ x.frag_hi ∷ x.frag_lo ∷ x.ttl
    ∷ x.protocol ∷ x.sum_hi ∷ x.sum_lo ∷ x.s0 ∷ x.s1 ∷ x.s2 ∷ x.s3 ∷ x.d0 ∷ x.d1 ∷ x.d2 ∷ x.d3
    ∷ rest

abbrev fixed_header : Fixed → List ℕ → List ℕ → Header
fixed_header x options payload = record {
  version = x.first / 16;
  len = x.first % 16 * 4;
  tos = x.tos;
  total_len = x.total_hi * 256 + x.total_lo + 0;
  id = x.id_hi * 256 + x.id_lo;
  flags = (x.frag_hi * 256 + x.frag_lo) / 8192 % 8;
  frag_off = (x.frag_hi * 256 + x.frag_lo) % 8192;
  ttl = x.ttl;
  protocol = x.protocol;
  checksum = x.sum_hi * 256 + x.sum_lo;
  src = v4 x.s0 x.s1 x.s2 x.s3;
  dst = v4 x.d0 x.d1 x.d2 x.d3;
  options = options;
  payload = payload;
}

abbrev fixed_of : Header → ℕ → ℕ → ℕ → ℕ → ℕ → ℕ → ℕ → ℕ → Fixed
fixed_of h s0 s1 s2 s3 d0 d1 d2 d3 = record {
  first = 64 + (20 + length h.options) / 4 % 16;
  tos = h.tos % 256;
  total_hi = h.total_len / 256 % 256;
  total_lo = h.total_len % 256;
  id_hi = h.id / 256 % 256;
  id_lo = h.id % 256;
  frag_hi = (h.frag_off % 8192 + h.flags % 8 * 8192) / 256 % 256;
  frag_lo = (h.frag_off % 8192 + h.flags % 8 * 8192) % 256;
  ttl = h.ttl % 256;
  protocol = h.protocol % 256;
  sum_hi = h.checksum / 256 % 256;
  sum_lo = h.checksum % 256;
  s0 = s0;
  s1 = s1;
  s2 = s2;
  s3 = s3;
  d0 = d0;
  d1 = d1;
  d2 = d2;
  d3 = d3;
}

options_lem :
    (n : ℕ) (options rest : List ℕ)
    → n ≡ 20 + length options
    → (if ltb 20 n then copy_into (n - 20) (options ++ rest) else []) ≡ options
options_lem n [] rest h = ground arith
options_lem n (b ∷ options) rest h = ground (arith, copy_into-append (b ∷ options) rest)

read_fields_lem :
    (p : Platform) (x : Fixed) (options rest : List ℕ)
    → p.goos ≡ linux
    → x.first % 16 * 4 ≡ 20 + length options
    → read_fields p (fixed_bytes x (options ++ rest)) ≡ ok (fixed_header x options [])
unfolding read_fields
read_fields_lem p x options rest lin h = ground (arith, options_lem (x.first % 16 * 4) options rest)

read_payload_lem :
    (x : Fixed) (options tail : List ℕ)
    → x.total_hi * 256 + x.total_lo ≡ 20 + length tail
    → read_payload (fixed_bytes x tail) (fixed_header x options [])
      ≡ ok (fixed_header x options tail)
unfolding read_payload
read_payload_lem x options tail h =
    ground (
      arith,
      slice_to-eq {E = Error} tail (x.total_hi * 256 + x.total_lo + 0 - 20),
      take-length tail,
    )

parse_lem :
    (p : Platform) (x : Fixed) (options rest : List ℕ)
    → p.goos ≡ linux
    → x.first % 16 * 4 ≡ 20 + length options
    → x.total_hi * 256 + x.total_lo ≡ 20 + length (options ++ rest)
    → parse p (fixed_bytes x (options ++ rest)) ≡ ok (fixed_header x options (options ++ rest))
unfolding parse
parse_lem p x options rest lin h t = ground (
  arith,
  length-append options rest,
  read_fields_lem p x options rest,
  read_payload_lem x options (options ++ rest),
)

marshal_lem :
    (p : Platform) (h : Header) (rest : List ℕ) (s0 s1 s2 s3 d0 d1 d2 d3 : ℕ)
    → p.goos ≡ linux
    → IsWellFormed h rest
    → h.src ≡ v4 s0 s1 s2 s3
    → h.dst ≡ v4 d0 d1 d2 d3
    → marshal p h ≡ ok (fixed_bytes (fixed_of h s0 s1 s2 s3 d0 d1 d2 d3) h.options)
unfolding marshal
marshal_lem p h rest s0 s1 s2 s3 d0 d1 d2 d3 lin w hs hd = ground arith

header_lem :
    (h : Header) (rest : List ℕ) (s0 s1 s2 s3 d0 d1 d2 d3 : ℕ)
    → IsWellFormed h rest
    → h.src ≡ v4 s0 s1 s2 s3
    → h.dst ≡ v4 d0 d1 d2 d3
    → fixed_header (fixed_of h s0 s1 s2 s3 d0 d1 d2 d3) h.options (h.options ++ rest) ≡ h
header_lem h rest s0 s1 s2 s3 d0 d1 d2 d3 w hs hd = ground arith

-- On Linux, a well-formed header with IPv4 addresses, written and followed by what its payload has
-- behind the options, is parsed back: the payload of the parsed header begins with the options.
pub parse-marshal :
    (p : Platform) (h : Header) (rest : List ℕ)
    → p.goos ≡ linux
    → IsWellFormed h rest
    → (s0 s1 s2 s3 d0 d1 d2 d3 : ℕ) → h.src ≡ v4 s0 s1 s2 s3
    → h.dst ≡ v4 d0 d1 d2 d3
    → (marshal p h >>= λ bs. parse p (bs ++ rest)) ≡ ok h
parse-marshal p h rest lin w s0 s1 s2 s3 d0 d1 d2 d3 hs hd =
    let x = fixed_of h s0 s1 s2 s3 d0 d1 d2 d3 in
    rw (marshal_lem p h rest s0 s1 s2 s3 d0 d1 d2 d3 lin w hs hd) (
      parse_lem p x h.options rest lin (ground arith) (ground (arith, length-append h.options rest))
      ∙ ap ok (header_lem h rest s0 s1 s2 s3 d0 d1 d2 d3 w hs hd))
