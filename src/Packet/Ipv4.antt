-- ===== src/Packet/Ipv4.antt =====
-- honeytrap/listener/canary/ipv4/ipv4.go and helper.go: the IPv4 header, its parser and its writer.
-- Go's `int` fields hold naturals here: every value that the code gives them is a byte, a uint16, a
-- uint32 or a length.
pub mod Inverse
pub mod Bounds
use dynamic_labyrinth.Base.{
  ℕ, ◌+◌, ◌-◌, ◌*◌, ◌/◌, ◌%◌, Bool, List, [], ◌∷◌, ◌++◌, length, drop, ltb, if◌then◌else◌, Outcome,
  ok, err, ◌>>=◌,
}
use dynamic_labyrinth.Base.Bytes.{slice, slice_from, index, be_u16, put_u16, copy_into}
use dynamic_labyrinth.Base.Ip.{Ip, v4}

pub record Header : Type 0 where
  pub version : ℕ
  pub len : ℕ
  pub tos : ℕ
  pub total_len : ℕ
  pub id : ℕ
  pub flags : ℕ
  pub frag_off : ℕ
  pub ttl : ℕ
  pub protocol : ℕ
  pub checksum : ℕ
  pub src : Ip
  pub dst : Ip
  pub options : List ℕ
  pub payload : List ℕ

pub data Error : Type 0 where
  header_too_short buffer_too_short missing_address : Error
  expected_got : ℕ → ℕ → Error

-- runtime.GOOS, freebsdVersion and nativeEndian of the build; `linux` stands for the default branch.
pub data Goos : Type 0 where
  darwin dragonfly netbsd freebsd linux : Goos

pub record Platform : Type 0 where
  pub goos : Goos
  pub freebsd_version : ℕ
  pub little_endian : Bool

-- nativeEndian.Uint16 and PutUint16
abbrev native_u16 : Platform → List ℕ → Outcome Error ℕ
native_u16 p (a ∷ b ∷ rest) = if p.little_endian then ok (b * 256 + a) else ok (a * 256 + b)
native_u16 p bs = be_u16 bs

abbrev put_native_u16 : Platform → ℕ → List ℕ
put_native_u16 p v = if p.little_endian then (v % 256) ∷ (v / 256 % 256) ∷ [] else put_u16 v

-- The two words whose byte order the switch on GOOS decides, read.
unfoldable pub read_word : Platform → Goos → List ℕ → Outcome Error ℕ
read_word p freebsd bs = if ltb p.freebsd_version 1100000 then native_u16 p bs else be_u16 bs
read_word p linux bs = be_u16 bs
read_word p _ bs = native_u16 p bs

-- What the same switch adds to the total length.
unfoldable pub length_bias : Platform → Goos → ℕ → ℕ
length_bias p freebsd hdrlen =
    if ltb p.freebsd_version 1100000
    then (if ltb p.freebsd_version 1000000 then hdrlen else 0)
    else 0
length_bias p linux hdrlen = 0
length_bias p _ hdrlen = hdrlen

unfoldable pub put_word : Platform → Goos → ℕ → List ℕ
put_word p freebsd v = if ltb p.freebsd_version 1100000 then put_native_u16 p v else put_u16 v
put_word p linux v = put_u16 v
put_word p _ v = put_native_u16 p v

-- The fields of `Unmarshal`, once the two checks on the header length have passed.
unfoldable pub read_fields : Platform → List ℕ → Outcome Error Header
unfolding read_word length_bias
read_fields p b = do
  first ← index b 0
  tos ← index b 1
  id ← slice b 4 6 >>= be_u16
  ttl ← index b 8
  protocol ← index b 9
  checksum ← slice b 10 12 >>= be_u16
  s0 ← index b 12
  s1 ← index b 13
  s2 ← index b 14
  s3 ← index b 15
  d0 ← index b 16
  d1 ← index b 17
  d2 ← index b 18
  d3 ← index b 19
  total ← slice b 2 4 >>= read_word p p.goos
  frag ← slice b 6 8 >>= read_word p p.goos
  options ← slice_from b 20
  let hdrlen = first % 16 * 4
  let h : Header = record {
    version = first / 16;
    len = hdrlen;
    tos = tos;
    total_len = total + length_bias p p.goos hdrlen;
    id = id;
    flags = frag / 8192 % 8;
    frag_off = frag % 8192;
    ttl = ttl;
    protocol = protocol;
    checksum = checksum;
    src = v4 s0 s1 s2 s3;
    dst = v4 d0 d1 d2 d3;
    options = if ltb 20 hdrlen then copy_into (hdrlen - 20) options else [];
    payload = [];
  }
  ok h

-- h.Payload = b[20:h.TotalLen]
unfoldable pub read_payload : List ℕ → Header → Outcome Error Header
read_payload b h =
    if ltb (length b) h.total_len
    then err (expected_got (20 + h.total_len) (length b))
    else (slice b 20 h.total_len >>= λ payload. ok (record h { payload = payload }))

unfoldable pub parse : Platform → List ℕ → Outcome Error Header
parse p b =
    if ltb (length b) 20
    then err header_too_short
    else (index b 0 >>= λ first.
        if ltb (length b) (first % 16 * 4)
        then err buffer_too_short
        else (read_fields p b >>= read_payload b))

-- copy(b[12:16], ip[:4]) if To4 is not nil; the buffer is zero before.
abbrev pub put_src : Ip → List ℕ
put_src (v4 a b c d) = a ∷ b ∷ c ∷ d ∷ []
put_src _ = 0 ∷ 0 ∷ 0 ∷ 0 ∷ []

abbrev pub put_dst : Ip → Outcome Error (List ℕ)
put_dst (v4 a b c d) = ok (a ∷ b ∷ c ∷ d ∷ [])
put_dst _ = err missing_address

unfoldable pub marshal : Platform → Header → Outcome Error (List ℕ)
unfolding put_word
marshal p h =
    if ltb h.len 20
    then err header_too_short
    else (put_dst h.dst >>= λ dst.
        let hdrlen = 20 + length h.options in
        let flags_and_frag_off = h.frag_off % 8192 + h.flags % 8 * 8192 in
        ok (
          (64 + hdrlen / 4 % 16) ∷ (h.tos % 256) ∷ []
          ++ (put_word p p.goos h.total_len
              ++ (put_u16 h.id
                  ++ (put_word p p.goos flags_and_frag_off
                      ++ ((h.ttl % 256) ∷ (h.protocol % 256) ∷ []
                          ++ (put_u16 h.checksum ++ (put_src h.src ++ (dst ++ h.options)))))))))
