-- ===== src/Canary/Handlers/Tables.antt =====
-- The table of connections stays sound through every frame: its pointers are distinct and lead to
-- States.
use dynamic_labyrinth.Base.{
  ℕ, zero, suc, ◌<◌, ◌≡◌, ◌⊎◌, inl, inr, Option, none, some, List, [], ◌∷◌, length, set, refl, ap,
  ◌∙◌, Bool-cases, ◌==◌,
}
use dynamic_labyrinth.Canary.Send.{Effect}
use dynamic_labyrinth.Canary.StateTable.{Table, remove}
use dynamic_labyrinth.Canary.StateTable.Search.{InTable, here, there, IsDistinct, free, taken}
use dynamic_labyrinth.Canary.Handlers.{Node, is_removed, apply_removes}

-- `t'` has no pointer that `t` has not, and keeps its size.
pub record Shrinks (t t' : Table) : Type 0 where
  pub size : length t' ≡ length t
  pub subset : (q : ℕ) → InTable q t' → InTable q t
  pub distinct : IsDistinct t → IsDistinct t'

IsDistinct-tail : {slot : Option ℕ} {t : Table} → IsDistinct (slot ∷ t) → IsDistinct t
IsDistinct-tail (free d) = d
IsDistinct-tail (taken n d) = d

IsDistinct-head : {p : ℕ} {t : Table} → IsDistinct (some p ∷ t) → ¬ InTable p t
IsDistinct-head (taken n d) = n

InTable-cons :
    {slot : Option ℕ} {t t' : Table} {q : ℕ}
    → (InTable q t' → InTable q t)
    → InTable q (slot ∷ t')
    → InTable q (slot ∷ t)
InTable-cons f here = here
InTable-cons f (there m) = there (f m)

InTable-free : {q : ℕ} {t : Table} → InTable q (none ∷ t) → InTable q t
InTable-free (there m) = m

Shrinks-cons : (slot : Option ℕ) {t t' : Table} → Shrinks t t' → Shrinks (slot ∷ t) (slot ∷ t')
Shrinks-cons none r = record {
  size = ap suc r.size;
  subset = λ q m. InTable-cons (r.subset q) m;
  distinct = λ d. free (r.distinct (IsDistinct-tail d));
}
Shrinks-cons (some p) r = record {
  size = ap suc r.size;
  subset = λ q m. InTable-cons (r.subset q) m;
  distinct = λ d. taken (λ m. IsDistinct-head d (r.subset p m)) (r.distinct (IsDistinct-tail d));
}

Shrinks-refl : (t : Table) → Shrinks t t
Shrinks-refl t = record { size = refl; subset = λ q m. m; distinct = λ d. d }

remove-Shrinks : (p : ℕ) (t : Table) → Shrinks t (remove p t)
unfolding remove
remove-Shrinks p [] = Shrinks-refl []
remove-Shrinks p (none ∷ t) = Shrinks-cons none (remove-Shrinks p t)
remove-Shrinks p (some q ∷ t) = elim (Bool-cases (q == p)) [
  | inl h ↦ rw h (record {
    size = refl;
    subset = λ r m. there (InTable-free m);
    distinct = λ d. free (IsDistinct-tail d);
  })
  | inr h ↦ rw h (Shrinks-cons (some q) (remove-Shrinks p t))
]

Shrinks-trans : {t t' t'' : Table} → Shrinks t t' → Shrinks t' t'' → Shrinks t t''
Shrinks-trans r s = record {
  size = s.size ∙ r.size;
  subset = λ q m. r.subset q (s.subset q m);
  distinct = λ d. s.distinct (r.distinct d);
}

pub apply_removes-Shrinks :
    (p : ℕ) (es : List Effect) (t : Table) → Shrinks t (apply_removes p es t)
unfolding apply_removes
apply_removes-Shrinks p [] t = Shrinks-refl t
apply_removes-Shrinks p (e ∷ es) t = elim (Bool-cases (is_removed e)) [
  | inl h ↦ rw h (Shrinks-trans (remove-Shrinks p t) (apply_removes-Shrinks p es (remove p t)))
  | inr h ↦ rw h (apply_removes-Shrinks p es t)
]

pub InTable-set : (i p q : ℕ) (t : Table) → InTable q (set t i (some p)) → (q ≡ p) ⊎ InTable q t
InTable-set i p q [] m = inr m
InTable-set zero p _ (slot ∷ t) here = inl refl
InTable-set zero p q (slot ∷ t) (there m) = inr (there m)
InTable-set (suc i) p q (_ ∷ t) here = inr here
InTable-set (suc i) p q (slot ∷ t) (there m) = elim (InTable-set i p q t m) [
  | inl e ↦ inl e
  | inr m' ↦ inr (there m')
]

pub IsDistinct-set :
    (i p : ℕ) (t : Table) → ¬ InTable p t → IsDistinct t → IsDistinct (set t i (some p))
IsDistinct-set i p [] n d = d
IsDistinct-set zero p (slot ∷ t) n d = taken (λ m. n (there m)) (IsDistinct-tail d)
IsDistinct-set (suc i) p (none ∷ t) n d =
    free (IsDistinct-set i p t (λ m. n (there m)) (IsDistinct-tail d))
IsDistinct-set (suc i) p (some q ∷ t) n d =
    taken
      (λ m. elim (InTable-set i p q t m) [
        | inl e ↦ n (rw (← e) here)
        | inr m' ↦ IsDistinct-head d m'
      ])
      (IsDistinct-set i p t (λ m. n (there m)) (IsDistinct-tail d))

-- Pointers are distinct and lead to States.
pub record IsValid (node : Node) : Type 0 where
  pub distinct : IsDistinct node.table
  pub within : (p : ℕ) → InTable p node.table → p < length node.heap
