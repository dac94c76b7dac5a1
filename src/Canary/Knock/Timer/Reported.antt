-- ===== src/Canary/Knock/Timer/Reported.antt =====
-- What the timer of `knockDetector` reports and keeps.
use dynamic_labyrinth.Base.{
  ℕ, zero, suc, ◌≡◌, ◌∙◌, ◌≤◌, ◌<◌, ◌+◌, ◌-◌, ◌*◌, Bool, true, false, Option, none, some, List, [],
  ◌∷◌, ◌++◌, map, take, drop, get_elem?, length, All, refl, ap, sym, arith, inl, inr, ◌⊎◌, ok, err,
  panic, Outcome, length-append, length-drop, length-take,
}
use mathlib.Core.Path.{subst}
use dynamic_labyrinth.Canary.Knock.{Knock, Group}
use dynamic_labyrinth.Canary.Knock.Timer.{
  Item, Slot, ItemSet, remove_slot, removed, remove, Portscan, portscan, is_due, is_within, second,
  drop_recent, Turn, on_due, on_slot, next_turn, each, expire,
}
use dynamic_labyrinth.Canary.Knock.Timer.Slots.{
  Holds, All-append, All-drop_later, All-drop_append, All-drop_behind, All-take_append,
  remove_slot-Kept,
}

get_elem?-take :
    (n i : ℕ) (slots : List Slot) → i < n → get_elem? (take n slots) i ≡ get_elem? slots i
get_elem?-take zero i slots h = elim h [ ]
get_elem?-take (suc n) i [] h = refl
get_elem?-take (suc n) zero (s ∷ slots) h = refl
get_elem?-take (suc n) (suc i) (s ∷ slots) h = get_elem?-take n i slots (omega arith)

-- A slot that is still to be visited holds an item.
get_elem?-Holds :
    (P : Item → Type 0) (i : ℕ) (slots : List Slot)
    → All (Holds P) (drop i slots)
    → i < length slots
    → (x : Item) × (get_elem? slots i ≡ some (some x)) × P x
get_elem?-Holds P i [] a h = elim h [ ]
get_elem?-Holds P zero (some x ∷ slots) a h = (x, refl, a.0)
get_elem?-Holds P zero (none ∷ slots) a h = absurd a.0
get_elem?-Holds P (suc i) (s ∷ slots) a h = get_elem?-Holds P i slots a (omega arith)

module _ (P : Item → Type 0) where
  -- The set in the middle of Each: so many slots, of which those of the set, and those from that place on,
  -- hold items with the property.
  record Walks (n i : ℕ) (array : List Slot) (size : ℕ) : Type 0 where
    in_set : All (Holds P) (take size array)
    ahead : All (Holds P) (drop i array)
    bounded : size ≤ length array
    same : length array ≡ n

  shorter-Holds :
      (size : ℕ) (array after : List Slot)
      → length (take size array) ≡ size
      → ((n : ℕ) → length (take size array) ≡ suc n → All (Holds P) (take n after))
      → length after ≡ size
      → All (Holds P) (take (size - 1) (after ++ drop size array))
  shorter-Holds zero array after e kept f =
      let none_left : zero - 1 ≡ 0 = omega arith in
      subst (λ n. All (Holds P) (take n (after ++ array))) (sym none_left) tt
  shorter-Holds (suc size) array after e kept f =
      let one_less : suc size - 1 ≡ size = omega arith in
      subst (λ n. All (Holds P) (take n (after ++ drop (suc size) array))) (sym one_less)
        (All-take_append (Holds P) size after (drop (suc size) array) (omega arith) (kept size e))

  ahead-Holds :
      (i size : ℕ) (array after : List Slot) (x : Item)
      → All (Holds P) (drop i array)
      → size ≤ length array
      → length after ≡ size
      → get_elem? array i ≡ some (some x)
      → (get_elem? (take size array) i ≡ some (some x) → All (Holds P) (drop (suc i) after))
      → (i < size) ⊎ (size ≤ i)
      → All (Holds P) (drop (suc i) (after ++ drop size array))
  ahead-Holds i size array after x a b e g kept (inl h) =
      All-drop_append (Holds P) (suc i) after (drop size array)
        (kept (get_elem?-take size i array h ∙ g))
        (All-drop_later (Holds P) i size array (omega arith) a)
  ahead-Holds i size array after x a b e g kept (inr h) =
      subst (λ n. All (Holds P) (drop (suc i) (after ++ drop n array))) e
        (All-drop_behind (Holds P) (suc i) after array (omega arith) (omega arith)
          (All-drop_later (Holds P) i (suc i) array (omega arith) a))

  below_or_not : (i n : ℕ) → (i < n) ⊎ (n ≤ i)
  below_or_not i zero = inr (omega arith)
  below_or_not zero (suc n) = inl (omega arith)
  below_or_not (suc i) (suc n) = elim (below_or_not i n) [
    | inl h ↦ inl (omega arith)
    | inr h ↦ inr (omega arith)
  ]

  removed-Walks :
      (n i size : ℕ) (array : List Slot) (x : Item) (r : Option (List Slot))
      → Walks n i array size
      → get_elem? array i ≡ some (some x)
      → remove_slot x (take size array) ≡ r
      → Walks n
          (suc i)
          (removed (record { array = array; size = size }) r).array
          (removed (record { array = array; size = size }) r).size
  removed-Walks n i size array x none w g q = record {
    in_set = w.in_set;
    ahead = All-drop_later (Holds P) i (suc i) array (omega arith) w.ahead;
    bounded = w.bounded;
    same = w.same;
  }
  removed-Walks n i size array x (some after) w g q =
      let k = remove_slot-Kept P x (take size array) w.in_set i after q in
      let taken : length (take size array) ≡ size =
        omega (arith, length-take size array, w.bounded) in
      let e : length after ≡ size = k.same_length ∙ taken in
      let whole : length (after ++ drop size array) ≡ length array =
        omega (
          arith,
          length-append {0} after (drop size array),
          length-drop size array,
          w.bounded,
          e,
        ) in
      record {
        in_set = shorter-Holds size array after taken k.kept e;
        ahead =
            ahead-Holds i size array after x w.ahead w.bounded e g k.ahead (below_or_not i size);
        bounded = omega (arith, whole, w.bounded);
        same = whole ∙ w.same;
      }

  remove-Walks :
      (n i : ℕ) (set : ItemSet) (x : Item)
      → Walks n i set.array set.size
      → get_elem? set.array i ≡ some (some x)
      → Walks n (suc i) (remove x set).array (remove x set).size
  unfolding remove
  remove-Walks n i set x w g =
      removed-Walks n i set.size set.array x (remove_slot x (take set.size set.array)) w g refl

  later-Walks :
      (n i : ℕ) (set : ItemSet) → Walks n i set.array set.size → Walks n (suc i) set.array set.size
  later-Walks n i set w = record {
    in_set = w.in_set;
    ahead = All-drop_later (Holds P) i (suc i) set.array (omega arith) w.ahead;
    bounded = w.bounded;
    same = w.same;
  }

  module _ (decimal : ℕ → List ℕ) (now : ℕ) where
    -- The report of a group with the property that is due.
    abbrev pub IsReport : Portscan → Type 0
    IsReport e = (x : Item) × P x × (is_due decimal now x.1 ≡ true) × (e ≡ portscan decimal x.1)

    -- A walk that ends: reports of such groups, and a set of such groups.
    abbrev pub Reports : Outcome Knock (Turn decimal) → Type 0
    Reports (ok (set, events)) = All IsReport events × All (Holds P) (take set.size set.array)
    Reports (err e) = ⊥
    Reports panic = ⊥

    drop_recent-Walks :
        (n i : ℕ) (b : Bool) (set : ItemSet) (x : Item)
        → Walks n i set.array set.size
        → get_elem? set.array i ≡ some (some x)
        → Walks n (suc i) (drop_recent decimal b x set).array (drop_recent decimal b x set).size
    drop_recent-Walks n i true set x w g = remove-Walks n i set x w g
    drop_recent-Walks n i false set x w g = later-Walks n i set w

    on_due-Walks :
        (n i : ℕ) (b : Bool) (x : Item) (t : Turn decimal)
        → is_due decimal now x.1 ≡ b
        → P x
        → All IsReport t.1
        → Walks n i t.0.array t.0.size
        → get_elem? t.0.array i ≡ some (some x)
        → Walks n (suc i) (on_due decimal b now x t).0.array (on_due decimal b now x t).0.size
          × All IsReport (on_due decimal b now x t).1
    on_due-Walks n i false x (set, events) d p r w g = (later-Walks n i set w, r)
    on_due-Walks n i true x (set, events) d p r w g = (
      drop_recent-Walks n i (is_within (60 * second) x.1.last now) set x w g,
      All-append IsReport events (portscan decimal x.1 ∷ []) r ((x, p, d, refl), tt),
    )

    each-Reports :
        (rest i n : ℕ) (t : Turn decimal)
        → i + rest ≡ n
        → Walks n i t.0.array t.0.size
        → All IsReport t.1
        → Reports (each decimal now rest i t)
    unfolding each
    each-Reports zero i n t e w r = (r, w.in_set)
    each-Reports (suc rest) i n t e w r =
        let (x, g, p) = get_elem?-Holds P i t.0.array w.ahead (omega (arith, e, w.same)) in
        let (w', r') = on_due-Walks n i (is_due decimal now x.1) x t refl p r w g in
        let turned : next_turn decimal (on_slot decimal now (get_elem? t.0.array i) t)
              (each decimal now rest (suc i))
            ≡ each decimal now rest (suc i) (on_due decimal (is_due decimal now x.1) now x t) =
          ap (λ s. next_turn decimal (on_slot decimal now s t) (each decimal now rest (suc i))) g in
        subst Reports (sym turned) (
          each-Reports rest (suc i) n (on_due decimal (is_due decimal now x.1) now x t)
            (omega (arith, e)) w' r')

    some_items :
        (items : List Item)
        → All P items
        → All (Holds P) (map some items)
          × All (Holds P) (take (length items) (map some items))
          × (length (map some items) ≡ length items)
    some_items [] a = (tt, tt, refl)
    some_items (x ∷ items) a =
        let (h, k, e) = some_items items a.1 in ((a.0, h), (a.0, k), ap suc e)

    -- Whatever the timer removes while it walks over the groups, it meets no nil and does not panic; what
    -- it reports are groups that were in the set and are due, and what it keeps were in the set.
    pub expire-Reports : (items : List Item) → All P items → Reports (expire decimal now items)
    unfolding expire
    expire-Reports items a =
        let (h, k, e) = some_items items a in
        each-Reports (length items) 0 (length items)
          (record { array = map some items; size = length items }, []) (omega arith)
          (record { in_set = k; ahead = h; bounded = omega (arith, e); same = e }) tt

-- Of three groups that are all due and have had a knock in the last minute, the timer reports the first once and the
-- third twice, and the second stays in the set without a report.
pub expire-skips :
    (decimal : ℕ → List ℕ) (now : ℕ) (a b c : Group)
    → All
        (λ g. (is_due decimal now g ≡ true) × (is_within (60 * second) g.last now ≡ true))
        (a ∷ b ∷ c ∷ [])
    → expire decimal now ((0, a) ∷ (1, b) ∷ (2, c) ∷ [])
      ≡ ok (
        record { array = some (1, b) ∷ none ∷ some (2, c) ∷ []; size = 1 },
        portscan decimal a ∷ portscan decimal c ∷ portscan decimal c ∷ [],
      )
unfolding expire each remove remove_slot
expire-skips decimal now a b c ((p, q), ((r, s), ((t, u), _))) =
    rw (p, q) (rw (t, u) (rw (t, u) refl))
