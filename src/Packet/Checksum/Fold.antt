-- ===== src/Packet/Checksum/Fold.antt =====
-- Folding the carries of a ones' complement sum, for the checksums of tcp.go and canary_linux.go.
use native.Mathlib.Decide.{dec_lt}
use dynamic_labyrinth.Base.{ℕ, zero, suc, ◌+◌, ◌*◌, ◌/◌, ◌%◌, ◌≤◌, ◌<◌, ◌≡◌, ◌⊎◌, arith}
use dynamic_labyrinth.Packet.Checksum.{carry, complement}

-- The folded sum, the multiple of 65535 that folding took away, and that only 0 folds to 0.
pub record Folds (s f : ℕ) : Type 0 where
  pub bound : f < 65536
  pub rest : ℕ
  pub whole : s ≡ f + 65535 * rest
  pub positive : (0 < f) ⊎ (s ≡ 0)

abbrev step : ℕ → ℕ
step s = s % 65536 + s / 65536

fold_step : (s f : ℕ) → Folds (step s) f → Folds s f
fold_step s f r = record {
  bound = r.bound;
  rest = r.rest + s / 65536;
  whole = omega arith;
  positive = omega arith;
}

fold_done : (s : ℕ) → s < 65536 → Folds s s
fold_done s h = record { bound = h; rest = 0; whole = omega arith; positive = omega arith }

carry_stop : (n s : ℕ) → s < 65536 → carry n s ≡ s
unfolding carry
carry_stop zero s h = ground arith
carry_stop (suc n) s h = ground arith

carry_go : (n s : ℕ) → 65536 ≤ s → s < 4294967296 → carry (suc n) s ≡ carry n (step s)
unfolding carry
carry_go n s h l = ground arith

round : (n s : ℕ) → s < 4294967296 → Folds (step s) (carry n (step s)) → Folds s (carry (suc n) s)
round n s h r = elim (dec_lt s 65536) [
  | yes p ↦ rw (carry_stop (suc n) s p) (fold_done s p)
  | no p ↦ rw (carry_go n s (omega arith) h) (fold_step s (carry n (step s)) r)
]

last_round : (s : ℕ) → s < 65536 → Folds s (carry 0 s)
unfolding carry
last_round s h = fold_done s h

-- Four rounds fold any uint32.
pub carry-Folds : (s : ℕ) → s < 4294967296 → Folds s (carry 4 s)
carry-Folds s h =
    let s1 = step s in
    let s2 = step s1 in
    let s3 = step s2 in
    round 3 s h (
      round 2 s1 (omega arith)
        (round 1 s2 (omega arith) (round 0 s3 (omega arith) (last_round (step s3) (omega arith)))))

-- Adding the complement of the folded sum gives a sum that folds to all ones.
pub carry-complement :
    (s t : ℕ) → s < 4294967296 → t < 4294967296 → t ≡ s + complement (carry 4 s) → carry 4 t ≡ 65535
carry-complement s t h k e = let x = carry-Folds s h in let y = carry-Folds t k in omega arith
