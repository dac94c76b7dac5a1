-- ===== src/Canary/StateTable.antt =====
-- honeytrap/listener/canary/state.go: the table of connection states. A slot holds a pointer, which
-- is the place of the State in the heap, `states`; the table of the code has 65535 slots.
pub mod Search
pub mod Slots
use dynamic_labyrinth.Base.{
  ℕ, zero, suc, ◌+◌, ◌<◌, Bool, true, false, ◌&&◌, ◌||◌, Option, none, some, List, [], ◌∷◌, ltb,
  ◌==◌, get_elem?, set, if◌then◌else◌, Outcome, ok, panic,
}
use dynamic_labyrinth.Base.Ip.{Ip, ip_equal}
use dynamic_labyrinth.Canary.Types.{State, time_wait, same_state}

abbrev pub Heap : Type 0
Heap = List State

abbrev pub Table : Type 0
Table = List (Option ℕ)

abbrev pub state_at : Heap → Option ℕ → Option State
state_at heap none = none
state_at heap (some p) = get_elem? heap p

abbrev pub time_waits : Option State → Bool
time_waits none = false
time_waits (some s) = same_state s.state time_wait

-- The first loop of `Add` takes a slot that is nil or holds a State in TimeWait.
abbrev pub reusable : Heap → Option ℕ → Bool
reusable heap none = true
reusable heap (some p) = time_waits (get_elem? heap p)

-- The second loop takes a slot whose State was idle for more than 30 seconds; times are unsigned,
-- and now.Sub is not positive where the State is younger.
abbrev pub idle_state : ℕ → Option State → Bool
idle_state now none = false
idle_state now (some s) = ltb (s.t + 30) now

abbrev pub idle : Heap → ℕ → Option ℕ → Bool
idle heap now slot = idle_state now (state_at heap slot)

-- A loop of `Add`: write the pointer into the first slot that passes the test.
unfoldable pub place_first : (Option ℕ → Bool) → ℕ → Table → Option Table
place_first test p [] = none
place_first test p (slot ∷ table) =
    let rest = place_first test p table in
    if test slot
    then some (some p ∷ table)
    else elim rest [ none ↦ none | some t ↦ some (slot ∷ t) ]

-- `Add`: it panics with "Statetable full".
unfoldable pub add : Heap → ℕ → ℕ → Table → Outcome (Unit {0}) Table
add heap now p table = elim (place_first (reusable heap) p table) [
  | some t ↦ ok t
  | none ↦ elim (place_first (idle heap now) p table) [ some t ↦ ok t | none ↦ panic ]
]

-- The four tests of `Get`, on a State.
unfoldable pub matches : Ip → Ip → ℕ → ℕ → State → Bool
matches src_ip dest_ip src_port dest_port s =
    (s.src_port == src_port || s.dest_port == src_port)
    && ((s.dest_port == dest_port || s.src_port == dest_port)
        && ((ip_equal s.src_ip src_ip || ip_equal s.dest_ip src_ip)
            && (ip_equal s.dest_ip dest_ip || ip_equal s.src_ip dest_ip)))

abbrev pub slot_matches : Heap → (State → Bool) → Option ℕ → Bool
slot_matches heap test slot = elim (state_at heap slot) [ none ↦ false | some s ↦ test s ]

-- `Get`: the pointer in the first slot that matches, or nil.
unfoldable pub find_slot : Heap → (State → Bool) → Table → Option ℕ
find_slot heap test [] = none
find_slot heap test (slot ∷ table) =
    if slot_matches heap test slot then slot else find_slot heap test table

unfoldable pub get : Heap → Table → Ip → Ip → ℕ → ℕ → Option ℕ
get heap table src_ip dest_ip src_port dest_port =
    find_slot heap (matches src_ip dest_ip src_port dest_port) table

-- `Remove`: the first slot with this pointer becomes nil.
unfoldable pub remove : ℕ → Table → Table
remove p [] = []
remove p (none ∷ table) = none ∷ remove p table
remove p (some q ∷ table) = if q == p then none ∷ table else some q ∷ remove p table
