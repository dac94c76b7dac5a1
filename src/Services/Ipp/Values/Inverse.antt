-- ===== src/Services/Ipp/Values/Inverse.antt =====
-- honeytrap/services/ipp/values.go: the texts that `valStr.encode` writes are what `valStr.decode` reads.
use dynamic_labyrinth.Base.{
  ℕ, zero, suc, ◌+◌, ◌≤◌, ◌<◌, ◌≡◌, ◌≢◌, ◌==◌, true, false, Option, List, [], ◌∷◌, ◌++◌, length,
  All, arith, ok, refl, sym, ap, ◌∙◌, length-append, append_assoc, append_nil,
}
use dynamic_labyrinth.Services.Decoder.{
  OutOfBounds, Decode, byte, read_int16, read_data, write_uint8, write_uint16, write_data,
}
use dynamic_labyrinth.Services.Decoder.Walk.{at, byte-at, read_int16-at, seek-at}
use dynamic_labyrinth.Services.Decoder.Inverse.{text_bytes, write_data-eq, read_data-at}
use dynamic_labyrinth.Services.Decoder.Monad.{bind-eq}
use dynamic_labyrinth.Services.Ipp.Values.{
  val_str, more_strs, decode_str, encode_strs, encode_value,
}

-- Few enough bytes for a length that is an int16.
abbrev pub IsText : List ℕ → Type 0
IsText v = length v < 32768

-- The values after the first.
abbrev more_bytes : ℕ → List (List ℕ) → List ℕ
more_bytes tag [] = []
more_bytes tag (v ∷ vs) = tag ∷ 0 ∷ 0 ∷ (text_bytes v ++ more_bytes tag vs)

-- Behind the tag, the empty name and the text.
abbrev after : ℕ → List ℕ → List ℕ → List ℕ
after tag v front = ((front ++ (tag ∷ [])) ++ (0 ∷ 0 ∷ [])) ++ text_bytes v

after-eq :
    (tag : ℕ) (v more front : List ℕ)
    → (after tag v front ++ more) ≡ front ++ (tag ∷ 0 ∷ 0 ∷ (text_bytes v ++ more))
after-eq tag v more front =
    append_assoc ((front ++ (tag ∷ [])) ++ (0 ∷ 0 ∷ [])) (text_bytes v) more
    ∙ append_assoc (front ++ (tag ∷ [])) (0 ∷ 0 ∷ []) (text_bytes v ++ more)
    ∙ append_assoc front (tag ∷ []) (0 ∷ 0 ∷ (text_bytes v ++ more))

encode_strs-more :
    (tag : ℕ) (name : List ℕ) (vs : List (List ℕ)) (buf : List ℕ)
    → All IsText vs
    → encode_strs tag name true vs buf ≡ buf ++ more_bytes tag vs
unfolding encode_strs write_data write_uint8 write_uint16
encode_strs-more tag name [] buf h = sym (append_nil buf)
encode_strs-more tag name (v ∷ vs) buf h =
    let before = (buf ++ (tag ∷ [])) ++ (0 ∷ 0 ∷ []) in
    let q : encode_strs tag name true (v ∷ vs) buf
        ≡ encode_strs tag name true vs (before ++ text_bytes v) =
      ap (encode_strs tag name true vs) (write_data-eq v before h.0) in
    q
    ∙ encode_strs-more tag name vs (before ++ text_bytes v) h.1
    ∙ after-eq tag v (more_bytes tag vs) buf

not-eq : (m n : ℕ) → m ≢ n → m == n ≡ false
not-eq m n ne = ground arith

more_strs-more :
    (fuel tag next : ℕ) (vs acc : List (List ℕ)) (front rest : List ℕ) (e : Option OutOfBounds)
    → next ≢ tag
    → length vs ≤ fuel
    → All IsText vs
    → (t : ℕ) × (d : Decode) × (byte (at front (more_bytes tag vs ++ (next ∷ rest)) e) ≡ ok (t, d))
      × (more_strs fuel tag t acc d
          ≡ ok (acc ++ vs, at ((front ++ more_bytes tag vs) ++ (next ∷ [])) rest e))
unfolding more_strs
more_strs-more zero tag next [] acc front rest e ne le h = (
  next,
  _,
  byte-at front rest next e,
  rw (not-eq next tag ne, append_nil acc, append_nil front) refl,
)
more_strs-more (suc fuel) tag next [] acc front rest e ne le h = (
  next,
  _,
  byte-at front rest next e,
  rw (not-eq next tag ne, append_nil acc, append_nil front) refl,
)
more_strs-more zero tag next (v ∷ vs) acc front rest e ne le h = absurd (omega arith)
more_strs-more (suc fuel) tag next (v ∷ vs) acc front rest e ne le h =
    let more = more_bytes tag vs in
    let same : tag == tag ≡ true = ground arith in
    let (t, d, qb, qm) =
      more_strs-more fuel tag next vs (acc ++ (v ∷ [])) (after tag v front) rest e ne (omega arith)
        h.1 in
    let tail = more ++ (next ∷ rest) in
    let s0 : ((v ++ more) ++ (next ∷ rest)) ≡ v ++ tail = append_assoc v more (next ∷ rest) in
    let s1 : ((acc ++ (v ∷ [])) ++ vs) ≡ acc ++ (v ∷ vs) = append_assoc acc (v ∷ []) vs in
    let s2 = after-eq tag v more front in
    (
      tag,
      at (front ++ (tag ∷ [])) (0 ∷ 0 ∷ (text_bytes v ++ tail)) e,
      rw s0 (byte-at front (0 ∷ 0 ∷ (text_bytes v ++ tail)) tag e),
      rw same (
          bind-eq read_int16 _ _ (read_int16-at (front ++ (tag ∷ [])) (text_bytes v ++ tail) 0 0 e)
          ∙ bind-eq read_data _ _
              (read_data-at ((front ++ (tag ∷ [])) ++ (0 ∷ 0 ∷ [])) v tail e h.0)
          ∙ bind-eq byte _ _ qb
          ∙ qm
          ∙ rw (s1, s2) refl),
    )

-- All that `encode` writes behind the first tag.
abbrev value_bytes : ℕ → List ℕ → List ℕ → List (List ℕ) → List ℕ
value_bytes tag name v vs = text_bytes name ++ (text_bytes v ++ more_bytes tag vs)

decode_str-at :
    (fuel tag next : ℕ) (name v : List ℕ) (vs : List (List ℕ)) (front rest : List ℕ)
    (e : Option OutOfBounds)
    → next ≢ tag
    → length vs ≤ fuel
    → All IsText (name ∷ v ∷ vs)
    → decode_str fuel tag (at front (value_bytes tag name v vs ++ (next ∷ rest)) e)
      ≡ ok (val_str tag name (v ∷ vs), at (front ++ value_bytes tag name v vs) (next ∷ rest) e)
unfolding decode_str
decode_str-at fuel tag next name v vs front rest e ne le h =
    let more = more_bytes tag vs in
    let tail = more ++ (next ∷ rest) in
    let named = front ++ text_bytes name in
    let (t, d, qb, qm) =
      more_strs-more fuel tag next vs (v ∷ []) (named ++ text_bytes v) rest e ne le h.1.1 in
    let s0 : (value_bytes tag name v vs ++ (next ∷ rest))
        ≡ text_bytes name ++ (text_bytes v ++ tail) =
      append_assoc (text_bytes name) (text_bytes v ++ more) (next ∷ rest)
      ∙ ap (λ l. text_bytes name ++ l) (append_assoc (text_bytes v) more (next ∷ rest)) in
    let s1 : ((named ++ text_bytes v) ++ more) ≡ front ++ value_bytes tag name v vs =
      append_assoc named (text_bytes v) more
      ∙ append_assoc front (text_bytes name) (text_bytes v ++ more) in
    ap (λ l. decode_str fuel tag (at front l e)) s0
    ∙ bind-eq read_data _ _ (read_data-at front name (text_bytes v ++ tail) e h.0)
    ∙ bind-eq read_data _ _ (read_data-at named v tail e h.1.0)
    ∙ bind-eq byte _ _ qb
    ∙ bind-eq (more_strs fuel tag t (v ∷ [])) _ d qm
    ∙ ap (λ d'. ok (val_str tag name (v ∷ vs), d'))
        (seek-at ((named ++ text_bytes v) ++ more) (next ∷ []) rest 0 e refl)
    ∙ ap (λ l. ok (val_str tag name (v ∷ vs), at l (next ∷ rest) e)) s1

encode_value-eq :
    (tag : ℕ) (name v : List ℕ) (vs : List (List ℕ)) (buf : List ℕ)
    → All IsText (name ∷ v ∷ vs)
    → encode_value (val_str tag name (v ∷ vs)) buf
      ≡ (buf ++ (tag ∷ [])) ++ value_bytes tag name v vs
unfolding encode_value encode_strs write_uint8
encode_value-eq tag name v vs buf h =
    let tagged = buf ++ (tag ∷ []) in
    let named = tagged ++ text_bytes name in
    ap (λ l. encode_strs tag name true vs (write_data v false l)) (write_data-eq name tagged h.0)
    ∙ ap (encode_strs tag name true vs) (write_data-eq v named h.1.0)
    ∙ encode_strs-more tag name vs (named ++ text_bytes v) h.1.1
    ∙ append_assoc named (text_bytes v) (more_bytes tag vs)
    ∙ append_assoc tagged (text_bytes name) (text_bytes v ++ more_bytes tag vs)

-- A text attribute that `encode` appends to a buffer, with at least one value and with a name and values of fewer than
-- 32768 bytes each, is what `decode` reads behind its tag, where another tag follows;
-- the reader then stands before that tag. Fuel for all but the first value is enough.
pub decode_str-encode_value :
    (fuel tag next : ℕ) (name v : List ℕ) (vs : List (List ℕ)) (buf rest : List ℕ)
    (e : Option OutOfBounds)
    → next ≢ tag
    → length vs ≤ fuel
    → All IsText (name ∷ v ∷ vs)
    → let written = encode_value (val_str tag name (v ∷ vs)) buf in
      decode_str fuel tag
        (record { offset = length buf + 1; bytes = written ++ (next ∷ rest); lasterror = e })
      ≡ ok (
        val_str tag name (v ∷ vs),
        record { offset = length written; bytes = written ++ (next ∷ rest); lasterror = e },
      )
decode_str-encode_value fuel tag next name v vs buf rest e ne le h =
    let tagged = buf ++ (tag ∷ []) in
    let q = decode_str-at fuel tag next name v vs tagged rest e ne le h in
    let vb = value_bytes tag name v vs in
    let s : (tagged ++ (vb ++ (next ∷ rest))) ≡ (tagged ++ vb) ++ (next ∷ rest) =
      sym (append_assoc tagged vb (next ∷ rest)) in
    let p : record (at [] ((tagged ++ vb) ++ (next ∷ rest)) e) { offset = length buf + 1 }
        ≡ at tagged (vb ++ (next ∷ rest)) e =
      rw (s, length-append buf (tag ∷ [])) refl in
    rw (encode_value-eq tag name v vs buf h) (ap (decode_str fuel tag) p ∙ q)
