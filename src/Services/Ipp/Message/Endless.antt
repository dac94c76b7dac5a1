-- ===== src/Services/Ipp/Message/Endless.antt =====
-- The loops of honeytrap/services/ipp that never end: over the groups of a message without an end tag, and
-- over the values of a boolean at the end of the data.
use dynamic_labyrinth.Base.{
  ℕ, zero, suc, ◌+◌, ◌-◌, ◌≤◌, ◌<◌, ◌≡◌, ◌≢◌, inl, inr, List, [], ◌∷◌, All, arith, ok, err, refl,
  ◌∙◌, none, some, false, ◌==◌, length, drop,
}
use dynamic_labyrinth.Base.Int.{pos, negsuc}
use dynamic_labyrinth.Base.Bytes.{index}
use dynamic_labyrinth.Services.Decoder.{
  Decode, Stuck, stuck, new_decoder, byte, read_int16, read_int32, has_bytes, seek, OutOfBounds,
}
use dynamic_labyrinth.Services.Decoder.Bounds.{has_bytes_cases}
use dynamic_labyrinth.Services.Decoder.Walk.{byte-at, read_int16-at, read_int32-at}
use dynamic_labyrinth.Services.Decoder.Monad.{bind-eq, bind-err}
use dynamic_labyrinth.Services.Ipp.Values.{Group, decode_group, decode_values}
use dynamic_labyrinth.Services.Ipp.Message.{decode_groups, decode_message}

-- A tag that begins a group.
abbrev pub IsOpenTag : ℕ → Type 0
IsOpenTag b = (b ≤ 5) × (b ≢ 3)

-- A reader behind the header, in data that holds such tags only from there on.
record IsOpen (d : Decode) : Type 0 where
  tags : All IsOpenTag (drop 8 d.bytes)
  long : 9 ≤ length d.bytes
  past : 8 ≤ d.offset
  inside : d.offset ≤ length d.bytes

index-drop :
    (P : ℕ → Type 0) (n : ℕ) (bs : List ℕ) (i : ℕ)
    → All P (drop n bs)
    → n ≤ i
    → i < length bs
    → (b : ℕ) × (index {E = Stuck} bs i ≡ ok b) × P b
index-drop P n [] i a le lt = absurd (omega arith)
index-drop P zero (b ∷ bs) zero a le lt = (b, refl, a.0)
index-drop P zero (b ∷ bs) (suc i) a le lt = index-drop P zero bs i a.1 (omega arith) (omega arith)
index-drop P (suc n) (b ∷ bs) zero a le lt = absurd (omega arith)
index-drop P (suc n) (b ∷ bs) (suc i) a le lt = index-drop P n bs i a (omega arith) (omega arith)

-- The byte that is read there, or the 0 behind the last one, and the reader after it.
record Tag (d : Decode) : Type 0 where
  tag : ℕ
  after : Decode
  result : byte d ≡ ok (tag, after)
  tag-IsOpenTag : IsOpenTag tag
  after-IsOpen : IsOpen after
  far : 9 ≤ after.offset

has_bytes-eq-some :
    (d : Decode) (n : ℕ) (e : OutOfBounds)
    → has_bytes d (pos n) ≡ some e
    → length d.bytes < d.offset + n
unfolding has_bytes
has_bytes-eq-some d n e q = ground arith

byte-Tag : (d : Decode) → IsOpen d → Tag d
unfolding byte
byte-Tag d o = elim (has_bytes_cases d 1) [
  | inl (e, h) ↦
      let (b, q, t) = index-drop IsOpenTag 8 d.bytes d.offset o.tags o.past (omega arith) in
      record {
        tag = b;
        after = record d { offset = d.offset + 1 };
        result = rw (byte, e, q) refl;
        tag-IsOpenTag = t;
        after-IsOpen = record {
          tags = o.tags;
          long = o.long;
          past = omega (arith, o.past);
          inside = h;
        };
        far = omega (arith, o.past);
      }
  | inr e ↦ record {
    tag = 0;
    after = record d {
      lasterror = some (record { max = length d.bytes; got = pos (d.offset + 1) });
    };
    result = rw (byte, e) refl;
    tag-IsOpenTag = (omega arith, λ q. omega arith);
    after-IsOpen = record { tags = o.tags; long = o.long; past = o.past; inside = o.inside };
    far = omega (arith, o.long, has_bytes-eq-some d 1 _ e);
  }
]

seek-IsOpen : (d : Decode) → IsOpen d → 9 ≤ d.offset → IsOpen (seek (negsuc 0) d)
unfolding seek has_bytes
seek-IsOpen d o h =
    let q : seek (negsuc 0) d ≡ record d { offset = d.offset - 1 } = ground (arith, o.inside) in
    rw q (record {
      tags = o.tags;
      long = o.long;
      past = omega (arith, h);
      inside = omega (arith, o.inside);
    })

decode_values-IsOpen :
    (fuel b : ℕ) (d : Decode)
    → IsOpenTag b
    → decode_values fuel b [] d ≡ ok (([], none), seek (negsuc 0) d)
unfolding decode_values
decode_values-IsOpen zero b d t = ground arith
decode_values-IsOpen (suc fuel) b d t = ground arith

-- One group: no values, and the reader stands before the same tag.
decode_group-IsOpen :
    (fuel tag : ℕ) (d : Decode)
    → IsOpen d
    → (d' : Decode) × (decode_group fuel tag d ≡ ok ((record { tag = tag; vals = [] }, none), d'))
      × IsOpen d'
unfolding decode_group
decode_group-IsOpen fuel tag d o =
    let t = byte-Tag d o in
    (
      seek (negsuc 0) t.after,
      bind-eq byte _ d t.result
          ∙ bind-eq (decode_values fuel t.tag []) _ t.after
              (decode_values-IsOpen fuel t.tag t.after t.tag-IsOpenTag),
      seek-IsOpen t.after t.after-IsOpen t.far,
    )

decode_groups-stuck :
    (fuel tag : ℕ) (groups : List Group) (d : Decode)
    → IsOpenTag tag
    → IsOpen d
    → decode_groups fuel tag groups d ≡ err stuck
unfolding decode_groups
decode_groups-stuck zero tag groups d t o = ground arith
decode_groups-stuck (suc fuel) tag groups d t o =
    let q : tag == 3 ≡ false = ground arith in
    let (d', g, o') = decode_group-IsOpen fuel tag d o in
    let n = byte-Tag d' o' in
    rw q (
      bind-eq (decode_group fuel tag) _ d g
      ∙ bind-eq byte _ d' n.result
      ∙ decode_groups-stuck fuel n.tag _ n.after n.tag-IsOpenTag n.after-IsOpen)

-- A body of a header of eight bytes and at least one byte more, all of which are tags of groups and
-- none the end tag, is never decoded: the loop over the groups goes on for every fuel.
pub decode_message-stuck :
    (fuel : ℕ) (major minor s1 s0 i3 i2 i1 i0 : ℕ) (tags : List ℕ)
    → 1 ≤ length tags
    → All IsOpenTag tags
    → decode_message fuel (new_decoder (major ∷ minor ∷ s1 ∷ s0 ∷ i3 ∷ i2 ∷ i1 ∷ i0 ∷ tags))
      ≡ err stuck
unfolding decode_message
decode_message-stuck fuel major minor s1 s0 i3 i2 i1 i0 tags h a =
    let bs = major ∷ minor ∷ s1 ∷ s0 ∷ i3 ∷ i2 ∷ i1 ∷ i0 ∷ tags in
    let d : Decode = record { offset = 8; bytes = bs; lasterror = none } in
    let o : IsOpen d = record {
      tags = a;
      long = omega (arith, h);
      past = omega arith;
      inside = omega (arith, h);
    } in
    let t = byte-Tag d o in
    let g = decode_groups-stuck fuel t.tag [] t.after t.tag-IsOpenTag t.after-IsOpen in
    bind-eq byte _ _ (byte-at [] (minor ∷ s1 ∷ s0 ∷ i3 ∷ i2 ∷ i1 ∷ i0 ∷ tags) major none)
    ∙ bind-eq byte _ _ (byte-at (major ∷ []) (s1 ∷ s0 ∷ i3 ∷ i2 ∷ i1 ∷ i0 ∷ tags) minor none)
    ∙ bind-eq read_int16 _ _
        (read_int16-at (major ∷ minor ∷ []) (i3 ∷ i2 ∷ i1 ∷ i0 ∷ tags) s1 s0 none)
    ∙ bind-eq read_int32 _ _ (read_int32-at (major ∷ minor ∷ s1 ∷ s0 ∷ []) tags i3 i2 i1 i0 none)
    ∙ bind-eq byte _ d t.result
    ∙ bind-err (decode_groups fuel t.tag []) _ t.after g
