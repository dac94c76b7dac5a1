-- ===== src/Web/Newest.antt =====
-- An array of honeytrap/web/safe_array.go with a limit holds the newest items.
use dynamic_labyrinth.Base.{
  ℕ, zero, suc, ◌-◌, ◌≤◌, ◌<◌, ◌≡◌, true, false, List, [], ◌∷◌, ◌++◌, length, drop, ltb, ◌⊎◌, inl,
  inr, arith, refl, sym, ap, ◌∙◌, length-append, length-drop, append_assoc, append_nil, ◌==◌,
}
use dynamic_labyrinth.Web.{new_limited, append, append_all}

-- The newest `k` items, in order.
abbrev pub newest {ℓ} : {A : Type ℓ} → ℕ → List A → List A
newest k vs = drop (length vs - k) vs

drop-one {ℓ} : {A : Type ℓ} (k : ℕ) (xs : List A) → drop 1 (drop k xs) ≡ drop (suc k) xs
drop-one zero [] = refl
drop-one zero (x ∷ xs) = refl
drop-one (suc k) [] = refl
drop-one (suc k) (x ∷ xs) = drop-one k xs

drop-snoc {ℓ} :
    {A : Type ℓ} (k : ℕ) (xs ys : List A) → k ≤ length xs → drop k (xs ++ ys) ≡ drop k xs ++ ys
drop-snoc zero xs ys h = refl
drop-snoc (suc k) [] ys h = absurd (omega arith)
drop-snoc (suc k) (x ∷ xs) ys h = drop-snoc k xs ys (omega arith)

newest-snoc_full {ℓ} :
    {A : Type ℓ} (n : ℕ) (seen : List A) (v : A)
    → n < length seen
    → drop 1 (newest (suc n) seen) ++ (v ∷ []) ≡ newest (suc n) (seen ++ (v ∷ []))
newest-snoc_full n seen v h =
    let k = length seen - suc n in
    let e : length (seen ++ (v ∷ [])) - suc n ≡ suc k =
      omega (arith, length-append seen (v ∷ [])) in
    rw (e, drop-one k seen) (sym (drop-snoc (suc k) seen (v ∷ []) (omega arith)))

newest-snoc {ℓ} :
    {A : Type ℓ} (n : ℕ) (seen : List A) (v : A)
    → length seen ≤ n
    → newest (suc n) seen ++ (v ∷ []) ≡ newest (suc n) (seen ++ (v ∷ []))
newest-snoc n seen v h =
    let e : length (seen ++ (v ∷ [])) - suc n ≡ 0 = omega (arith, length-append seen (v ∷ [])) in
    let e0 : length seen - suc n ≡ 0 = omega arith in rw (e, e0) refl

pub lt_or_ge : (m n : ℕ) → (m < n) ⊎ (n ≤ m)
lt_or_ge m n = ground arith

append-newest {ℓ} :
    {A : Type ℓ} (n : ℕ) (seen : List A) (v : A)
    → 1 ≤ n
    → append v (record { array = newest (suc n) seen; limit = n })
      ≡ record { array = newest (suc n) (seen ++ (v ∷ [])); limit = n }
unfolding append
append-newest n seen v h =
    let limited : n == 0 ≡ false = ground arith in
    let size = length-drop (length seen - suc n) seen in
    elim (lt_or_ge n (length seen)) [
      | inl lt ↦
          let above : ltb n (length (newest (suc n) seen)) ≡ true = ground (arith, size) in
          rw (limited, above, newest-snoc_full n seen v lt) refl
      | inr ge ↦
          let below : ltb n (length (newest (suc n) seen)) ≡ false = ground (arith, size) in
          rw (limited, below, newest-snoc n seen v ge) refl
    ]

append_all-newest {ℓ} :
    {A : Type ℓ} (n : ℕ) (vs seen : List A)
    → 1 ≤ n
    → append_all vs (record { array = newest (suc n) seen; limit = n })
      ≡ record { array = newest (suc n) (seen ++ vs); limit = n }
unfolding append_all
append_all-newest n [] seen h = rw (append_nil seen) refl
append_all-newest n (v ∷ vs) seen h =
    ap (append_all vs) (append-newest n seen v h)
    ∙ append_all-newest n vs (seen ++ (v ∷ [])) h
    ∙ ap (λ l. record { array = newest (suc n) l; limit = n }) (append_assoc seen (v ∷ []) vs)

-- After any calls of `Append`, a new array with a limit above 0 holds the newest items in order, one more
-- than the limit, or all while there are no more than that.
pub append_all-new_limited {ℓ} :
    {A : Type ℓ} (n : ℕ) (vs : List A)
    → 1 ≤ n
    → append_all vs (new_limited n) ≡ record { array = newest (suc n) vs; limit = n }
append_all-new_limited {A = A} n vs h =
    let none_left : 0 - suc n ≡ 0 = omega arith in
    let nil : newest {A = A} (suc n) [] ≡ [] = rw none_left refl in
    ap (λ l. append_all vs (record { array = l; limit = n })) (sym nil)
    ∙ append_all-newest n vs [] h
