-- ===== src/Canary/StateTable/Search.antt =====
-- What `Get` and `Remove` of state.go find and forget.
use dynamic_labyrinth.Base.{
  ℕ, ◌≡◌, ◌≢◌, ◌⊎◌, inl, inr, Bool, true, false, Option, none, some, [], ◌∷◌, All, get_elem?, arith,
  refl, ap, sym, ◌∙◌, Bool-cases, ◌==◌, ==_iff, ◌&&◌, ◌||◌,
}
use dynamic_labyrinth.Base.Ip.{Ip, ip_equal}
use dynamic_labyrinth.Canary.Types.{State}
use dynamic_labyrinth.Canary.StateTable.{Heap, Table, slot_matches, matches, find_slot, get, remove}
use mathlib.Core.Path.{fun_ext}

pub data InTable (p : ℕ) : Table → Type 0 where
  here : {table : Table} → InTable p (some p ∷ table)
  there : {slot : Option ℕ} {table : Table} → InTable p table → InTable p (slot ∷ table)

-- The slot holds a pointer to a State that passes the test.
slot_matches_true :
    (heap : Heap) (test : State → Bool) (slot : Option ℕ)
    → slot_matches heap test slot ≡ true
    → (p : ℕ) × (s : State) × (slot ≡ some p) × (get_elem? heap p ≡ some s) × (test s ≡ true)
slot_matches_true heap test none h = cc
slot_matches_true heap test (some p) h = at_state (get_elem? heap p) refl h
  where
    at_state :
        (o : Option State)
        → get_elem? heap p ≡ o
        → elim o as (λ x. Bool) [ none ↦ false | some s ↦ test s ] ≡ true
        → (q : ℕ) × (s : State) × (some p ≡ some q) × (get_elem? heap q ≡ some s) × (test s ≡ true)
    at_state none e k = cc
    at_state (some s) e k = (p, s, refl, e, k)

-- A state that `find_slot` returns: its pointer is in the table and its State passes the test.
pub record Found (heap : Heap) (test : State → Bool) (table : Table) (p : ℕ) : Type 0 where
  pub member : InTable p table
  pub state : State
  pub held : get_elem? heap p ≡ some state
  pub passes : test state ≡ true

abbrev pub NoMatch : Heap → (State → Bool) → Table → Type 0
NoMatch heap test table = All (λ slot. slot_matches heap test slot ≡ false) table

find_slot_cases :
    (heap : Heap) (test : State → Bool) (table : Table)
    → ((p : ℕ) × (find_slot heap test table ≡ some p) × Found heap test table p)
      ⊎ ((find_slot heap test table ≡ none) × NoMatch heap test table)
unfolding find_slot slot_matches_true
find_slot_cases heap test [] = inr (refl, tt)
find_slot_cases heap test (slot ∷ table) = elim (Bool-cases (slot_matches heap test slot)) [
  | inl h ↦
      let (p, s, e, held, passes) = slot_matches_true heap test slot h in
      inl (
        p,
        rw (find_slot, h) e,
        record { member = rw e here; state = s; held = held; passes = passes },
      )
  | inr h ↦ elim (find_slot_cases heap test table) [
    | inl (p, e, f) ↦ inl (
      p,
      rw (find_slot, h) e,
      record { member = there f.member; state = f.state; held = f.held; passes = f.passes },
    )
    | inr (e, no_match) ↦ inr (rw (find_slot, h) e, (h, no_match))
  ]
]

-- `get` returns a pointer of the table whose State matches, or it returns nil and no State of the
-- table matches.
pub get_cases :
    (heap : Heap) (table : Table) (src_ip dest_ip : Ip) (src_port dest_port : ℕ)
    → let test = matches src_ip dest_ip src_port dest_port in
      ((p : ℕ) × (get heap table src_ip dest_ip src_port dest_port ≡ some p)
        × Found heap test table p)
      ⊎ ((get heap table src_ip dest_ip src_port dest_port ≡ none) × NoMatch heap test table)
unfolding get
get_cases heap table src_ip dest_ip src_port dest_port =
    find_slot_cases heap (matches src_ip dest_ip src_port dest_port) table

matches_swap :
    (src_ip dest_ip : Ip) (src_port dest_port : ℕ) (s : State)
    → matches src_ip dest_ip src_port dest_port s ≡ matches dest_ip src_ip dest_port src_port s
unfolding matches
matches_swap src_ip dest_ip src_port dest_port s =
    swap (s.src_port == src_port) (s.dest_port == src_port) (s.dest_port == dest_port)
      (s.src_port == dest_port) (ip_equal s.src_ip src_ip) (ip_equal s.dest_ip src_ip)
      (ip_equal s.dest_ip dest_ip) (ip_equal s.src_ip dest_ip)
  where
    swap :
        (a b c d e f g h : Bool)
        → (a || b) && ((c || d) && ((e || f) && (g || h)))
          ≡ (d || c) && ((b || a) && ((h || g) && (f || e)))
    swap a b c d e f g h = ground arith

-- The lookup does not tell the two ends of a connection apart: exchanging them finds the same.
pub get_swap :
    (heap : Heap) (table : Table) (src_ip dest_ip : Ip) (src_port dest_port : ℕ)
    → get heap table src_ip dest_ip src_port dest_port
      ≡ get heap table dest_ip src_ip dest_port src_port
unfolding get
get_swap heap table src_ip dest_ip src_port dest_port =
    ap (λ (test : State → Bool). find_slot heap test table)
      (fun_ext (matches_swap src_ip dest_ip src_port dest_port))

-- Every pointer stands in one slot at most.
pub data IsDistinct : Table → Type 0 where
  empty : IsDistinct []
  free : {table : Table} → IsDistinct table → IsDistinct (none ∷ table)
  taken :
      {p : ℕ} {table : Table} → ¬ InTable p table → IsDistinct table → IsDistinct (some p ∷ table)

InTable-none : {p : ℕ} {table : Table} → InTable p (none ∷ table) → InTable p table
InTable-none (there m) = m

InTable-ne : {p q : ℕ} {table : Table} → p ≢ q → InTable p (some q ∷ table) → InTable p table
InTable-ne h here = absurd (h refl)
InTable-ne h (there m) = m

-- The slots of the table as it is after one more slot in front.
InTable-cons :
    {q : ℕ} {slot : Option ℕ} {table t : Table}
    → (InTable q table → InTable q t)
    → InTable q (slot ∷ table)
    → InTable q (slot ∷ t)
InTable-cons f here = here
InTable-cons f (there m) = there (f m)

-- Where pointers are distinct, a pointer that is removed is gone, and every other stays.
pub remove_lem :
    (p : ℕ) (table : Table)
    → IsDistinct table
    → (¬ InTable p (remove p table))
      × ((q : ℕ) → q ≢ p → InTable q table → InTable q (remove p table))
unfolding remove
remove_lem p _ empty = ((λ m. elim m [ ]), λ q ne m. elim m [ ])
remove_lem p _ (free {table} d) =
    let (gone, kept) = remove_lem p table d in
    ((λ m. gone (InTable-none m)), λ q ne m. there (kept q ne (InTable-none m)))
remove_lem p _ (taken {p = r} {table} new d) = elim (Bool-cases (r == p)) [
  | inl h ↦
      let e = (==_iff r p).0 h in
      rw h ((λ m. new (rw e (InTable-none m))), λ q ne m. there (InTable-ne (λ x. ne (x ∙ e)) m))
  | inr h ↦
      let (gone, kept) = remove_lem p table d in
      rw h (
        (λ m. gone (InTable-ne (λ x. cc (sym h ∙ (==_iff r p).1 (sym x))) m)),
        λ q ne m. InTable-cons (kept q ne) m,
      )
]
