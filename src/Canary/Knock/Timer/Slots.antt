-- ===== src/Canary/Knock/Timer/Slots.antt =====
-- What `Remove` leaves in the array that `Each` walks.
use dynamic_labyrinth.Base.{
  ℕ, zero, suc, ◌≡◌, ◌≢◌, ◌≤◌, true, false, Option, none, some, List, [], ◌∷◌, ◌++◌, take, drop,
  get_elem?, length, All, refl, ap, sym, arith, Bool-cases, inl, inr,
}
use mathlib.Core.Path.{subst}
use dynamic_labyrinth.Canary.Knock.Timer.{
  Item, Slot, is_item, last_of, close_up, keep_slot, remove_slot,
}

-- The slots that stay in the set, and those that Each has still to visit, hold items with a property.
abbrev pub Holds : (Item → Type 0) → Slot → Type 0
Holds P none = ⊥
Holds P (some x) = P x

module _ {A : Type 0} (P : A → Type 0) where
  pub All-append : (xs ys : List A) → All P xs → All P ys → All P (xs ++ ys)
  All-append [] ys a b = b
  All-append (x ∷ xs) ys a b = (a.0, All-append xs ys a.1 b)

  pub All-drop : (n : ℕ) (xs : List A) → All P xs → All P (drop n xs)
  All-drop zero xs a = a
  All-drop (suc n) [] a = tt
  All-drop (suc n) (x ∷ xs) a = All-drop n xs a.1

  -- What holds from a place on holds from a later one on.
  pub All-drop_later : (n m : ℕ) (xs : List A) → n ≤ m → All P (drop n xs) → All P (drop m xs)
  All-drop_later zero m xs h a = All-drop m xs a
  All-drop_later (suc n) zero xs h a = absurd (omega arith)
  All-drop_later (suc n) (suc m) [] h a = tt
  All-drop_later (suc n) (suc m) (x ∷ xs) h a = All-drop_later n m xs (omega arith) a

  pub All-drop_append :
      (n : ℕ) (xs ys : List A) → All P (drop n xs) → All P ys → All P (drop n (xs ++ ys))
  All-drop_append zero xs ys a b = All-append xs ys a b
  All-drop_append (suc n) [] ys a b = All-drop (suc n) ys b
  All-drop_append (suc n) (x ∷ xs) ys a b = All-drop_append n xs ys a b

  -- Behind a front that takes the place of so many elements.
  pub All-drop_behind :
      (n : ℕ) (xs zs : List A)
      → length xs ≤ n
      → length xs ≤ length zs
      → All P (drop n zs)
      → All P (drop n (xs ++ drop (length xs) zs))
  All-drop_behind n [] zs h k a = a
  All-drop_behind zero (x ∷ xs) zs h k a = absurd (omega arith)
  All-drop_behind (suc n) (x ∷ xs) [] h k a = absurd (omega arith)
  All-drop_behind (suc n) (x ∷ xs) (z ∷ zs) h k a =
      All-drop_behind n xs zs (omega arith) (omega arith) a

  pub All-take_append :
      (n : ℕ) (xs ys : List A) → n ≤ length xs → All P (take n xs) → All P (take n (xs ++ ys))
  All-take_append zero xs ys h a = tt
  All-take_append (suc n) [] ys h a = absurd (omega arith)
  All-take_append (suc n) (x ∷ xs) ys h a = (a.0, All-take_append n xs ys (omega arith) a.1)

  All-take_snoc : (xs : List A) (y : A) → All P xs → All P (take (length xs) (xs ++ (y ∷ [])))
  All-take_snoc [] y a = tt
  All-take_snoc (x ∷ xs) y a = (a.0, All-take_snoc xs y a.1)

module _ (P : Item → Type 0) (x : Item) where
  last_of-Holds : (s : Slot) (ss : List Slot) → All (Holds P) (s ∷ ss) → Holds P (last_of s ss)
  last_of-Holds s [] a = a.0
  last_of-Holds s (t ∷ ss) a = last_of-Holds t ss a.1

  close_up-Holds :
      (s : Slot) (ss : List Slot) → All (Holds P) (s ∷ ss) → All (Holds P) (close_up (s ∷ ss))
  close_up-Holds s ss a = All-append (Holds P) (s ∷ ss) _ a (last_of-Holds s ss a, tt)

  length-snoc : (ss : List Slot) (s : Slot) → length (ss ++ (s ∷ [])) ≡ suc (length ss)
  length-snoc [] s = refl
  length-snoc (t ∷ ss) s = ap suc (length-snoc ss s)

  length-close_up : (ss : List Slot) → length (close_up ss) ≡ suc (length ss)
  length-close_up [] = refl
  length-close_up (s ∷ ss) = length-snoc (s ∷ ss) (last_of s ss)

  -- What `Remove` makes of the slots of the set, if it finds the item.
  pub record Kept (i : ℕ) (slots after : List Slot) : Type 0 where
    pub same_length : length after ≡ length slots
    pub kept : (n : ℕ) → length slots ≡ suc n → All (Holds P) (take n after)
    pub ahead : get_elem? slots i ≡ some (some x) → All (Holds P) (drop (suc i) after)

  close_up-take :
      (ss : List Slot) → All (Holds P) ss → All (Holds P) (take (length ss) (close_up ss))
  close_up-take [] a = tt
  close_up-take (s ∷ ss) a = All-take_snoc (Holds P) (s ∷ ss) (last_of s ss) a

  close_up-ahead :
      (i : ℕ) (s : Slot) (ss : List Slot)
      → All (Holds P) ss
      → get_elem? (s ∷ ss) i ≡ some (some x)
      → All (Holds P) (drop (suc i) (close_up ss))
  close_up-ahead zero s [] a g = tt
  close_up-ahead (suc i) s [] a g = absurd (cc g)
  close_up-ahead i s (t ∷ ss) a g =
      All-drop (Holds P) (suc i) (close_up (t ∷ ss)) (close_up-Holds t ss a)

  is_item_refl : is_item x (some x) ≡ true
  is_item_refl = ground arith

  some_injective : (s : Slot) → ◌≡◌ {A = Option Slot} (some s) (some (some x)) → s ≡ some x
  some_injective s q = cc q

  suc-injective : (m n : ℕ) → suc m ≡ suc n → m ≡ n
  suc-injective m n q = omega arith

  cons-Kept :
      (i : ℕ) (s : Slot) (ss rest : List Slot)
      → Holds P s
      → is_item x s ≡ false
      → ss ≢ []
      → ((j : ℕ) → Kept j ss rest)
      → Kept i (s ∷ ss) (s ∷ rest)
  cons-Kept i s [] rest a e ne ih = absurd (ne refl)
  cons-Kept zero s (t ∷ ss) rest a e ne ih = record {
    same_length = ap suc (ih 0).same_length;
    kept = λ n q.
        let g : suc (length ss) ≡ n = suc-injective (suc (length ss)) n q in
        subst (λ m. All (Holds P) (take m (s ∷ rest))) g (a, (ih 0).kept (length ss) refl);
    ahead = λ g. absurd (cc (e, sym (ap (is_item x) (some_injective s g)), is_item_refl));
  }
  cons-Kept (suc i) s (t ∷ ss) rest a e ne ih = record {
    same_length = ap suc (ih 0).same_length;
    kept = λ n q.
        let g : suc (length ss) ≡ n = suc-injective (suc (length ss)) n q in
        subst (λ m. All (Holds P) (take m (s ∷ rest))) g (a, (ih 0).kept (length ss) refl);
    ahead = λ g. (ih i).ahead g;
  }

  remove_slot-ne : (ss rest : List Slot) → remove_slot x ss ≡ some rest → ss ≢ []
  unfolding remove_slot
  remove_slot-ne [] rest q e = absurd (cc q)
  remove_slot-ne (s ∷ ss) rest q e = absurd (cc e)

  keep_slot-Kept :
      (i : ℕ) (s : Slot) (ss after : List Slot) (r : Option (List Slot))
      → Holds P s
      → is_item x s ≡ false
      → remove_slot x ss ≡ r
      → ((j : ℕ) (rest : List Slot) → remove_slot x ss ≡ some rest → Kept j ss rest)
      → keep_slot s r ≡ some after
      → Kept i (s ∷ ss) after
  keep_slot-Kept i s ss after none a e f ih q = absurd (cc q)
  keep_slot-Kept i s ss after (some rest) a e f ih q =
      let g : s ∷ rest ≡ after = cc q in
      subst (Kept i (s ∷ ss)) g
        (cons-Kept i s ss rest a e (remove_slot-ne ss rest f) (λ j. ih j rest f))

  pub remove_slot-Kept :
      (slots : List Slot)
      → All (Holds P) slots
      → (i : ℕ) (after : List Slot) → remove_slot x slots ≡ some after
      → Kept i slots after
  unfolding remove_slot
  remove_slot-Kept [] a i after q = absurd (cc q)
  remove_slot-Kept (s ∷ ss) a i after q = elim (Bool-cases (is_item x s)) [
    | inl e ↦
        let g : close_up ss ≡ after = cc (e, q) in
        subst (Kept i (s ∷ ss)) g (record {
          same_length = length-close_up ss;
          kept = λ n h.
              subst (λ m. All (Holds P) (take m (close_up ss))) (suc-injective (length ss) n h)
                (close_up-take ss a.1);
          ahead = close_up-ahead i s ss a.1;
        })
    | inr e ↦
        keep_slot-Kept i s ss after (remove_slot x ss) a.0 e refl
          (λ j rest. remove_slot-Kept ss a.1 j rest) (rw e at q)
  ]
