-- ===== src/Services/Decoder/Bounds.antt =====
-- The reader of honeytrap/services/decoder stays inside its data, and panics on a negative length only.
use dynamic_labyrinth.Base.{
  ℕ, zero, suc, ◌+◌, ◌≤◌, ◌<◌, ◌≡◌, ◌≢◌, ◌↔◌, ◌⊎◌, inl, inr, none, some, List, [], ◌∷◌, length,
  take, drop, arith, ok, panic, refl, Outcome, ◌>>=◌, length-drop, length-take,
}
use dynamic_labyrinth.Base.Bytes.{index, slice, be_u16, be_u32}
use dynamic_labyrinth.Base.Bytes.Slices.{slice_to-eq, slice_from-eq}
use dynamic_labyrinth.Base.Int.{ℤ, pos, negsuc, int16, int32}
use dynamic_labyrinth.Services.Decoder.{
  OutOfBounds, Decode, Read, Stuck, fail, has_bytes, byte, read_int16, read_int32, read_uint32,
  peek_byte, peek_int16, copy, read_data, seek,
}
use dynamic_labyrinth.Services.Decoder.Walk.{IsInside}

-- The call returns, the reader is still inside, and its data is the same.
pub record Returns {ℓ} {A : Type ℓ} (r : Read A) (d : Decode) : Type ℓ where
  pub value : A
  pub after : Decode
  pub result : r d ≡ ok (value, after)
  pub inside : IsInside after
  pub same : after.bytes ≡ d.bytes

index-lt : (bs : List ℕ) (i : ℕ) → i < length bs → (b : ℕ) × (index {E = Stuck} bs i ≡ ok b)
index-lt [] i h = absurd (omega arith)
index-lt (b ∷ bs) zero h = (b, refl)
index-lt (b ∷ bs) (suc i) h = index-lt bs i (omega arith)

slice-le :
    (bs : List ℕ) (i n : ℕ)
    → i + n ≤ length bs
    → (slice {E = Stuck} bs i (i + n) ≡ ok (take n (drop i bs))) × (length (take n (drop i bs)) ≡ n)
slice-le bs i n h = ground (
  arith,
  slice_from-eq {E = Stuck} bs i,
  slice_to-eq {E = Stuck} (drop i bs) n,
  length-drop i bs,
  length-take n (drop i bs),
)

be_u16-two : (bs : List ℕ) → length bs ≡ 2 → (v : ℕ) × (be_u16 {E = Stuck} bs ≡ ok v)
be_u16-two (a ∷ b ∷ bs) h = (_, refl)
be_u16-two (a ∷ []) h = absurd (omega arith)
be_u16-two [] h = absurd (omega arith)

be_u32-four : (bs : List ℕ) → length bs ≡ 4 → (v : ℕ) × (be_u32 {E = Stuck} bs ≡ ok v)
be_u32-four (a ∷ b ∷ c ∷ d ∷ bs) h = (_, refl)
be_u32-four (a ∷ b ∷ c ∷ []) h = absurd (omega arith)
be_u32-four (a ∷ b ∷ []) h = absurd (omega arith)
be_u32-four (a ∷ []) h = absurd (omega arith)
be_u32-four [] h = absurd (omega arith)

abbrev beyond : Decode → ℕ → OutOfBounds
beyond d n = record { max = length d.bytes; got = pos (d.offset + n) }

pub has_bytes_cases :
    (d : Decode) (n : ℕ)
    → ((has_bytes d (pos n) ≡ none) × (d.offset + n ≤ length d.bytes))
      ⊎ (has_bytes d (pos n) ≡ some (beyond d n))
unfolding has_bytes
has_bytes_cases d n = ground arith

-- A failed call: the reader keeps the error.
fail-Returns :
    {A : Type 0} (r : Read A) (d : Decode) (z : A) (e : OutOfBounds)
    → IsInside d
    → r d ≡ fail d e z
    → Returns r d
fail-Returns r d z e i q = record {
  value = z;
  after = record d { lasterror = some e };
  result = q;
  inside = i;
  same = refl;
}

byte-Returns : (d : Decode) → IsInside d → Returns byte d
unfolding byte
byte-Returns d i = elim (has_bytes_cases d 1) [
  | inl (e, h) ↦
      let (b, q) = index-lt d.bytes d.offset (omega arith) in
      record {
        value = b;
        after = record d { offset = d.offset + 1 };
        result = rw (byte, e, q) refl;
        inside = h;
        same = refl;
      }
  | inr e ↦ fail-Returns byte d 0 (beyond d 1) i (rw (byte, e) refl)
]

peek_byte-Returns : (d : Decode) → IsInside d → Returns peek_byte d
unfolding peek_byte
peek_byte-Returns d i = elim (has_bytes_cases d 1) [
  | inl (e, h) ↦
      let (b, q) = index-lt d.bytes d.offset (omega arith) in
      record { value = b; after = d; result = rw (peek_byte, e, q) refl; inside = i; same = refl }
  | inr e ↦ fail-Returns peek_byte d 0 (beyond d 1) i (rw (peek_byte, e) refl)
]

-- The shape of the methods that read a word of `n` bytes and then stand at `step`.
abbrev word {ℓ} : {A : Type ℓ} → ℕ → (ℕ → ℕ) → (List ℕ → Outcome Stuck ℕ) → (ℕ → A) → A → Read A
word n step be f z d = elim (has_bytes d (pos n)) [
  | some e ↦ fail d e z
  | none ↦ slice d.bytes d.offset (d.offset + n) >>= be >>= λ v.
      ok (f v, record d { offset = step d.offset })
]

word-Returns :
    {A : Type 0} (n : ℕ) (step : ℕ → ℕ) (be : List ℕ → Outcome Stuck ℕ) (f : ℕ → A) (z : A)
    → ((o : ℕ) → step o ≤ o + n)
    → ((bs : List ℕ) → length bs ≡ n → (v : ℕ) × (be bs ≡ ok v))
    → (d : Decode) → IsInside d
    → Returns (word n step be f z) d
word-Returns n step be f z le reads d i = elim (has_bytes_cases d n) [
  | inl (e, h) ↦
      let (q, l) = slice-le d.bytes d.offset n h in
      let (v, b) = reads (take n (drop d.offset d.bytes)) l in
      record {
        value = f v;
        after = record d { offset = step d.offset };
        result = rw (word, e, q, b) refl;
        inside = omega (arith, le d.offset);
        same = refl;
      }
  | inr e ↦ fail-Returns (word n step be f z) d z (beyond d n) i (rw (word, e) refl)
]

read_int16-Returns : (d : Decode) → IsInside d → Returns read_int16 d
unfolding read_int16
read_int16-Returns d i =
    word-Returns 2 (λ o. o + 2) be_u16 int16 (pos 0) (λ o. omega arith) be_u16-two d i

copy-Returns : (n : ℕ) (d : Decode) → IsInside d → Returns (copy (pos n)) d
unfolding copy
copy-Returns n d i = elim (has_bytes_cases d n) [
  | inl (e, h) ↦
      let (q, l) = slice-le d.bytes d.offset n h in
      record {
        value = take n (drop d.offset d.bytes);
        after = record d { offset = d.offset + n };
        result = rw (copy, e, q) refl;
        inside = h;
        same = refl;
      }
  | inr e ↦ fail-Returns (copy (pos n)) d [] (beyond d n) i (rw (copy, e) refl)
]

seek-IsInside :
    (by : ℤ) (d : Decode) → IsInside d → IsInside (seek by d) × ((seek by d).bytes ≡ d.bytes)
unfolding seek has_bytes
seek-IsInside by d i = ground arith

-- `Data` returns, but for a length below zero.
read_data-Returns :
    (d : Decode)
    → IsInside d
    → Returns read_data d ⊎ ((n : ℕ) × (after : Decode) × (read_int16 d ≡ ok (negsuc n, after)))
unfolding read_data
read_data-Returns d i =
    let r = read_int16-Returns d i in sized r.value r.after r.result r.inside r.same
  where
    sized :
        (l : ℤ) (after : Decode)
        → read_int16 d ≡ ok (l, after)
        → IsInside after
        → after.bytes ≡ d.bytes
        → Returns read_data d ⊎ ((n : ℕ) × (after : Decode) × (read_int16 d ≡ ok (negsuc n, after)))
    sized (negsuc n) after q j e = inr (n, after, q)
    sized (pos n) after q j e =
        let c = copy-Returns n after j in
        inl (record {
          value = c.value;
          after = c.after;
          result = rw q c.result;
          inside = c.inside;
          same = cc (c.same, e);
        })

-- From a reader inside its data, the methods that read a byte or a word return with the reader inside the same
-- data, and so do `Copy` for a size that is not negative and `Data`, unless the length that `Data` reads is
-- negative; and `Seek` leaves the reader inside, by any amount.
pub methods-Returns :
    (d : Decode)
    → IsInside d
    → Returns byte d
      × Returns read_int16 d
      × Returns read_int32 d
      × Returns read_uint32 d
      × Returns peek_byte d
      × Returns peek_int16 d
      × ((n : ℕ) → Returns (copy (pos n)) d)
      × (Returns read_data d ⊎ ((n : ℕ) × (after : Decode) × (read_int16 d ≡ ok (negsuc n, after))))
      × ((by : ℤ) → IsInside (seek by d) × ((seek by d).bytes ≡ d.bytes))
unfolding read_int16 read_int32 read_uint32 peek_int16
methods-Returns d i = (
  byte-Returns d i,
  read_int16-Returns d i,
  word-Returns 4 (λ o. o + 4) be_u32 int32 (pos 0) (λ o. omega arith) be_u32-four d i,
  word-Returns 4 (λ o. o + 4) be_u32 (λ v. v) 0 (λ o. omega arith) be_u32-four d i,
  peek_byte-Returns d i,
  word-Returns 2 (λ o. o) be_u16 int16 (pos 0) (λ o. omega arith) be_u16-two d i,
  (λ n. copy-Returns n d i),
  read_data-Returns d i,
  λ by. seek-IsInside by d i,
)

copy_pos-ne-panic : (n : ℕ) (d : Decode) → IsInside d → copy (pos n) d ≢ panic
copy_pos-ne-panic n d i q = let r = copy-Returns n d i in cc (q, r.result)

-- `Copy` panics exactly on a negative size that leads to no place before the data.
pub copy-eq-panic :
    (size : ℤ) (d : Decode)
    → IsInside d
    → (copy size d ≡ panic) ↔ ((n : ℕ) × (size ≡ negsuc n) × (n < d.offset))
unfolding copy has_bytes
copy-eq-panic (pos n) d i = ((λ q. absurd (copy_pos-ne-panic n d i q)), λ (x, e, lt). cc e)
copy-eq-panic (negsuc n) d i = ground arith
