-- ===== src/Canary/Knock/Groups.antt =====
-- The groups of knock.go stay distinct, and so do the knocks of each.
use dynamic_labyrinth.Base.{
  ℕ, zero, suc, ◌+◌, ◌≤◌, ◌≡◌, ◌⊎◌, inl, inr, Bool, false, none, some, List, [], ◌∷◌, ◌++◌, length,
  All, arith, refl, Bool-cases, length-append,
}
use dynamic_labyrinth.Canary.Knock.{
  Knock, Group, find_equal, add_item, same_knock, same_group, new_group, count_knock, at_place,
  receive_knock,
}

-- No item is equal to one before it.
module _ {ℓ} {A : Type ℓ} (equal : A → A → Bool) where
  abbrev pub IsUnique : List A → Type 0
  IsUnique [] = Unit {0}
  IsUnique (x ∷ items) = All (λ y. equal y x ≡ false) items × IsUnique items

  -- No item is equal to this one, as `Add` tests it.
  abbrev IsNew : A → List A → Type 0
  IsNew item items = All (λ x. equal item x ≡ false) items

  find_equal_cases :
      (item : A) (items : List A)
      → ((i : ℕ) × (find_equal equal item items ≡ some i))
        ⊎ ((find_equal equal item items ≡ none) × IsNew item items)
  unfolding find_equal
  find_equal_cases item [] = inr (refl, tt)
  find_equal_cases item (x ∷ items) = elim (Bool-cases (equal item x)) [
    | inl h ↦ inl (0, rw h refl)
    | inr h ↦ elim (find_equal_cases item items) [
      | inl (i, e) ↦ inl (suc i, rw (h, e) refl)
      | inr (e, n) ↦ inr (rw (h, e) refl, (h, n))
    ]
  ]

  All-snoc :
      (x item : A) (items : List A)
      → All (λ y. equal y x ≡ false) items
      → equal item x ≡ false
      → All (λ y. equal y x ≡ false) (items ++ (item ∷ []))
  All-snoc x item [] a h = (h, tt)
  All-snoc x item (y ∷ items) a h = (a.0, All-snoc x item items a.1 h)

  IsUnique-snoc :
      (item : A) (items : List A)
      → IsUnique items
      → IsNew item items
      → IsUnique (items ++ (item ∷ []))
  IsUnique-snoc item [] u n = (tt, tt)
  IsUnique-snoc item (x ∷ items) u n =
      (All-snoc x item items u.0 n.0, IsUnique-snoc item items u.1 n.1)

  add_item_cases :
      (item : A) (items : List A)
      → ((add_item equal item items).1 ≡ items)
        ⊎ (((add_item equal item items).1 ≡ items ++ (item ∷ [])) × IsNew item items)
  unfolding add_item
  add_item_cases item items = elim (find_equal_cases item items) [
    | inl (i, e) ↦ inl (rw (e, add_item) refl)
    | inr (e, n) ↦ inr (rw (e, add_item) refl, n)
  ]

  add_item-IsUnique :
      (item : A) (items : List A) → IsUnique items → IsUnique (add_item equal item items).1
  add_item-IsUnique item items u = elim (add_item_cases item items) [
    | inl e ↦ rw e u
    | inr (e, n) ↦ rw e (IsUnique-snoc item items u n)
  ]

  length-add_item :
      (item : A) (items : List A) → length (add_item equal item items).1 ≤ length items + 1
  length-add_item item items = elim (add_item_cases item items) [
    | inl e ↦ rw e (omega arith)
    | inr (e, n) ↦ rw e (omega (arith, length-append items (item ∷ [])))
  ]

-- The knocks of a group are distinct for its own test, and every one of them was counted.
pub record IsCounted (g : Group) : Type 0 where
  pub unique : IsUnique (same_knock g.kind) g.knocks
  pub counted : length g.knocks ≤ g.count

count_knock-IsCounted :
    (now : ℕ) (k : Knock) (g : Group) → IsCounted g → IsCounted (count_knock now k g)
unfolding count_knock
count_knock-IsCounted now k g c = record {
  unique = add_item-IsUnique (same_knock g.kind) k g.knocks c.unique;
  counted = omega (arith, length-add_item (same_knock g.kind) k g.knocks, c.counted);
}

at_place-IsUnique :
    (now : ℕ) (k : Knock) (i : ℕ) (gs : List Group)
    → IsUnique same_group gs
    → IsUnique same_group (at_place (count_knock now k) i gs)
unfolding count_knock same_group
at_place-IsUnique now k i [] u = tt
at_place-IsUnique now k zero (g ∷ gs) u = u
at_place-IsUnique now k (suc i) (g ∷ gs) u = (kept i gs u.0, at_place-IsUnique now k i gs u.1)
  where
    kept :
        (j : ℕ) (hs : List Group)
        → All (λ y. same_group y g ≡ false) hs
        → All (λ y. same_group y g ≡ false) (at_place (count_knock now k) j hs)
    kept j [] a = tt
    kept zero (h ∷ hs) a = a
    kept (suc j) (h ∷ hs) a = (a.0, kept j hs a.1)

at_place-All :
    (now : ℕ) (k : Knock) (i : ℕ) (gs : List Group)
    → All IsCounted gs
    → All IsCounted (at_place (count_knock now k) i gs)
at_place-All now k i [] a = tt
at_place-All now k zero (g ∷ gs) a = (count_knock-IsCounted now k g a.0, a.1)
at_place-All now k (suc i) (g ∷ gs) a = (a.0, at_place-All now k i gs a.1)

All-snoc-IsCounted :
    (g : Group) (gs : List Group) → IsCounted g → All IsCounted gs → All IsCounted (gs ++ (g ∷ []))
All-snoc-IsCounted g [] c a = (c, tt)
All-snoc-IsCounted g (h ∷ gs) c a = (a.0, All-snoc-IsCounted g gs c a.1)

new_group-IsCounted : (now : ℕ) (k : Knock) → IsCounted (new_group now k)
unfolding new_group
new_group-IsCounted now k = record { unique = tt; counted = omega arith }

-- The groups are distinct, and each is counted.
pub record IsSound (groups : List Group) : Type 0 where
  pub unique : IsUnique same_group groups
  pub counted : All IsCounted groups

added-IsCounted :
    (now : ℕ) (k : Knock) (groups : List Group)
    → All IsCounted groups
    → All IsCounted (add_item same_group (new_group now k) groups).1
added-IsCounted now k groups a = elim (add_item_cases same_group (new_group now k) groups) [
  | inl e ↦ rw e a
  | inr (e, n) ↦ rw e (All-snoc-IsCounted (new_group now k) groups (new_group-IsCounted now k) a)
]

-- A knock that is received leaves the groups distinct, the knocks of each group distinct for the test
-- of that group, and no group with more knocks than its count.
pub receive_knock-IsSound :
    (now : ℕ) (k : Knock) (groups : List Group)
    → IsSound groups
    → IsSound (receive_knock now k groups)
unfolding receive_knock
receive_knock-IsSound now k groups s =
    let added = add_item same_group (new_group now k) groups in
    record {
      unique =
          at_place-IsUnique now k added.0 added.1
            (add_item-IsUnique same_group (new_group now k) groups s.unique);
      counted = at_place-All now k added.0 added.1 (added-IsCounted now k groups s.counted);
    }
