-- ===== src/Canary/Handlers/Changes.antt =====
-- What one call of the handlers of canary_linux.go may do to a sound table of connections: write a
-- State back, remove its pointer, or add a State.
use dynamic_labyrinth.Base.{
  ℕ, ◌<◌, ◌≤◌, ◌≡◌, inl, inr, Bool, true, false, some, List, [], ◌∷◌, ◌++◌, length, set, arith,
  refl, ◌∙◌, ok, err, panic, if◌then◌else◌, length-set, length-append,
}
use dynamic_labyrinth.Canary.Types.{State}
use dynamic_labyrinth.Canary.StateTable.{Table, add}
use dynamic_labyrinth.Canary.StateTable.Search.{InTable}
use dynamic_labyrinth.Canary.StateTable.Slots.{add_cases}
use dynamic_labyrinth.Canary.Machine.{Proc}
use dynamic_labyrinth.Canary.Handlers.{Node, Report, Handled, apply_removes}
use dynamic_labyrinth.Canary.Handlers.Tables.{
  IsValid, apply_removes-Shrinks, InTable-set, IsDistinct-set,
}

-- `node'` is sound, has a table of the same size, and has lost no State.
pub record Kept (node node' : Node) : Type 0 where
  pub valid : IsValid node'
  pub size : length node'.table ≡ length node.table
  pub grows : length node.heap ≤ length node'.heap

-- Whatever the handler returns with is sound.
abbrev pub Preserves : Node → Handled → Type 0
Preserves node h = (node' : Node) (rs : List Report) → h ≡ ok (node', rs) → Kept node node'

pub Kept-trans : {a b c : Node} → Kept a b → Kept b c → Kept a c
Kept-trans r s = record {
  valid = s.valid;
  size = s.size ∙ r.size;
  grows = omega (arith, r.grows, s.grows);
}

pub Kept-refl : {node : Node} → IsValid node → Kept node node
Kept-refl v = record { valid = v; size = refl; grows = omega arith }

pub Preserves-same :
    (node : Node) (rs : List Report) → IsValid node → Preserves node (ok (node, rs))
Preserves-same node rs v node' rs' q = let e : node ≡ node' = cc q in rw (← e) (Kept-refl v)

pub Preserves-err : (node : Node) → Preserves node (err tt)
Preserves-err node node' rs q = cc

pub Preserves-panic : (node : Node) → Preserves node panic
Preserves-panic node node' rs q = cc

pub Preserves-if :
    (node : Node) (b : Bool) (x y : Handled)
    → Preserves node x
    → Preserves node y
    → Preserves node (if b then x else y)
Preserves-if node true x y h k = h
Preserves-if node false x y h k = k

-- A State written back, and the pointers removed.
pub written_back :
    (node : Node) (p : ℕ) (proc : Proc)
    → IsValid node
    → Kept node (record {
      heap = set node.heap p proc.state;
      table = apply_removes p proc.effects node.table;
    })
written_back node p proc v =
    let r = apply_removes-Shrinks p proc.effects node.table in
    let l = length-set node.heap p proc.state in
    record {
      valid = record {
        distinct = r.distinct v.distinct;
        within = λ q m. rw l (v.within q (r.subset q m));
      };
      size = r.size;
      grows = omega (arith, l);
    }

fresh : (node : Node) → IsValid node → ¬ InTable (length node.heap) node.table
fresh node v m = let lt = v.within (length node.heap) m in absurd (omega arith)

set_within :
    (node : Node) (s : State) (i : ℕ)
    → IsValid node
    → (q : ℕ) → InTable q (set node.table i (some (length node.heap)))
    → q < length (node.heap ++ (s ∷ []))
set_within node s i v q m =
    let l = length-append node.heap (s ∷ []) in
    elim (InTable-set i (length node.heap) q node.table m) [
      | inl e ↦ omega arith
      | inr m' ↦ let lt = v.within q m' in omega arith
    ]

-- The pointer to a State just made, in some slot.
placed :
    (node : Node) (s : State) (i : ℕ)
    → IsValid node
    → Kept node (record {
      heap = node.heap ++ (s ∷ []);
      table = set node.table i (some (length node.heap));
    })
placed node s i v = record {
  valid = record {
    distinct = IsDistinct-set i (length node.heap) node.table (fresh node v) v.distinct;
    within = set_within node s i v;
  };
  size = length-set node.table i (some (length node.heap));
  grows = omega (arith, length-append node.heap (s ∷ []));
}

-- The table that `Add` leaves for a State just made.
pub added :
    (node : Node) (s : State) (now : ℕ) (table : Table)
    → IsValid node
    → add (node.heap ++ (s ∷ [])) now (length node.heap) node.table ≡ ok table
    → Kept node (record { heap = node.heap ++ (s ∷ []); table = table })
added node s now table v q =
    let at_place : (t : Table) (i : ℕ)
        → add (node.heap ++ (s ∷ [])) now (length node.heap) node.table ≡ ok t
        → t ≡ set node.table i (some (length node.heap))
        → Kept node (record { heap = node.heap ++ (s ∷ []); table = table }) =
      λ t i e r.
        let same : table ≡ set node.table i (some (length node.heap)) = cc (q, e, r) in
        rw same (placed node s i v) in
    elim (add_cases (node.heap ++ (s ∷ [])) now (length node.heap) node.table) [
      | inl (t, e, r) ↦ at_place t r.place e r.result
      | inr (inl (_, (t, e, r))) ↦ at_place t r.place e r.result
      | inr (inr (_, _, e)) ↦ cc (q, e)
    ]
