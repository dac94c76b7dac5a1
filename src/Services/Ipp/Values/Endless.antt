-- ===== src/Services/Ipp/Values/Endless.antt =====
-- honeytrap/services/ipp/values.go: the loop of `valBool.decode` at the end of the data.
use dynamic_labyrinth.Base.{
  ℕ, zero, suc, ◌+◌, ◌≤◌, ◌≡◌, ◌≢◌, ◌==◌, false, some, Bool, List, length, arith, err, ok, refl,
  sym, ◌∙◌,
}
use dynamic_labyrinth.Base.Int.{pos}
use dynamic_labyrinth.Services.Decoder.{Decode, byte, read_int16, has_bytes, stuck}
use dynamic_labyrinth.Services.Decoder.Monad.{bind-eq}
use dynamic_labyrinth.Services.Ipp.Values.{more_bools}

-- The reader after a call that asks for `n` bytes and fails.
abbrev failed : Decode → ℕ → Decode
failed d n = record d {
  lasterror = some (record { max = length d.bytes; got = pos (d.offset + n) });
}

has_bytes-end :
    (d : Decode) (n : ℕ)
    → d.offset ≡ length d.bytes
    → 1 ≤ n
    → has_bytes d (pos n) ≡ some (record { max = length d.bytes; got = pos (d.offset + n) })
unfolding has_bytes
has_bytes-end d n q le = ground arith

byte-end : (d : Decode) → d.offset ≡ length d.bytes → byte d ≡ ok (0, failed d 1)
unfolding byte
byte-end d q = rw (byte, has_bytes-end d 1 q (omega arith)) refl

read_int16-end : (d : Decode) → d.offset ≡ length d.bytes → read_int16 d ≡ ok (pos 0, failed d 2)
unfolding read_int16
read_int16-end d q = rw (read_int16, has_bytes-end d 2 q (omega arith)) refl

-- Once the data is used up, with a last tag other than the attribute's own tag, which is not 0, the
-- loop over the values of a boolean goes on for every fuel.
pub more_bools-stuck :
    (fuel tag vtag : ℕ) (vs : List Bool) (d : Decode)
    → tag ≢ 0
    → vtag ≢ tag
    → d.offset ≡ length d.bytes
    → more_bools fuel tag vtag vs d ≡ err stuck
unfolding more_bools
more_bools-stuck zero tag vtag vs d z ne q =
    let other : vtag == tag ≡ false = ground arith in rw other refl
more_bools-stuck (suc fuel) tag vtag vs d z ne q =
    let other : vtag == tag ≡ false = ground arith in
    rw other (
      bind-eq read_int16 _ _ (read_int16-end d q)
      ∙ bind-eq byte _ _ (byte-end (failed d 2) q)
      ∙ bind-eq byte _ _ (byte-end (failed (failed d 2) 1) q)
      ∙ more_bools-stuck fuel tag 0 _ (failed (failed (failed d 2) 1) 1) z (λ e. z (sym e)) q)
