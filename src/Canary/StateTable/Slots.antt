-- ===== src/Canary/StateTable/Slots.antt =====
-- Which slot `Add` and `Remove` of state.go change, and when `Add` panics.
use dynamic_labyrinth.Base.{
  ℕ, zero, suc, ◌<◌, ◌≡◌, ◌⊎◌, inl, inr, Bool, true, false, Option, none, some, [], ◌∷◌, get_elem?,
  set, All, arith, refl, ap, Bool-cases, ok, panic,
}
use dynamic_labyrinth.Canary.StateTable.{Heap, Table, reusable, idle, place_first, add}

-- `t` is `table` with the pointer in the first slot that passes the test.
pub record Placed (test : Option ℕ → Bool) (p : ℕ) (table t : Table) : Type 0 where
  pub place : ℕ
  pub slot : Option ℕ
  pub found : get_elem? table place ≡ some slot
  pub passes : test slot ≡ true
  pub first : (j : ℕ) (q : Option ℕ) → j < place → get_elem? table j ≡ some q → test q ≡ false
  pub result : t ≡ set table place (some p)

abbrev pub NoSlot : (Option ℕ → Bool) → Table → Type 0
NoSlot test table = All (λ slot. test slot ≡ false) table

place_here :
    (test : Option ℕ → Bool) (p : ℕ) (slot : Option ℕ) (table : Table)
    → test slot ≡ true
    → Placed test p (slot ∷ table) (some p ∷ table)
place_here test p slot table h = record {
  place = 0;
  slot = slot;
  found = refl;
  passes = h;
  first = λ j q lt e. absurd (omega arith);
  result = refl;
}

place_later :
    {test : Option ℕ → Bool} {p : ℕ} (slot : Option ℕ) {table t : Table}
    → test slot ≡ false
    → Placed test p table t
    → Placed test p (slot ∷ table) (slot ∷ t)
place_later {test} slot {table} h r = record {
  place = suc r.place;
  slot = r.slot;
  found = r.found;
  passes = r.passes;
  first = before;
  result = ap (λ x. slot ∷ x) r.result;
}
  where
    before :
        (j : ℕ) (q : Option ℕ)
        → j < suc r.place
        → get_elem? (slot ∷ table) j ≡ some q
        → test q ≡ false
    before zero q lt e = ground arith
    before (suc j) q lt e = r.first j q (omega arith) e

place_first_cases :
    (test : Option ℕ → Bool) (p : ℕ) (table : Table)
    → ((t : Table) × (place_first test p table ≡ some t) × Placed test p table t)
      ⊎ ((place_first test p table ≡ none) × NoSlot test table)
unfolding place_first
place_first_cases test p [] = inr (refl, tt)
place_first_cases test p (slot ∷ table) = elim (Bool-cases (test slot)) [
  | inl h ↦ inl (some p ∷ table, rw h, place_here test p slot table h)
  | inr h ↦ elim (place_first_cases test p table) [
    | inl (t, e, r) ↦ inl (slot ∷ t, rw (h, e), place_later slot h r)
    | inr (e, r) ↦ inr (rw (h, e), (h, r))
  ]
]

-- `add` ends in one of three ways: the pointer goes into the first slot
-- that is nil or in TimeWait; or there is none, and it goes into the first slot that was idle for
-- more than 30 seconds; or there is none of either, and it panics. No other slot changes.
pub add_cases :
    (heap : Heap) (now p : ℕ) (table : Table)
    → ((t : Table) × (add heap now p table ≡ ok t) × Placed (reusable heap) p table t)
      ⊎ (NoSlot (reusable heap) table
            × ((t : Table) × (add heap now p table ≡ ok t) × Placed (idle heap now) p table t)
          ⊎ (NoSlot (reusable heap) table
              × NoSlot (idle heap now) table
              × (add heap now p table ≡ panic)))
unfolding add
add_cases heap now p table = elim (place_first_cases (reusable heap) p table) [
  | inl (t, e, r) ↦ inl (t, rw (e, add), r)
  | inr (e, no_free) ↦ elim (place_first_cases (idle heap now) p table) [
    | inl (t, e', r) ↦ inr (inl (no_free, (t, rw (e, e', add), r)))
    | inr (e', no_idle) ↦ inr (inr (no_free, no_idle, rw (e, e', add)))
  ]
]
