-- ===== src/Canary/Knock/Timer.antt =====
-- honeytrap/listener/canary: the timer of `knockDetector` in knock.go, with `Each` and `Remove` of unique-set.go, which
-- share the array that `Each` walks.
pub mod Slots
pub mod Reported
use dynamic_labyrinth.Base.{
  ℕ, zero, suc, ◌+◌, ◌-◌, ◌*◌, Bool, true, false, Option, none, some, List, [], ◌∷◌, ◌++◌, map,
  take, drop, get_elem?, length, ltb, leb, ◌==◌, if◌then◌else◌, Outcome, ok, err, panic, ◌⊎◌,
}
use dynamic_labyrinth.Base.Int.{ℤ, pos, negsuc}
use dynamic_labyrinth.Base.Ip.{Ip}
use dynamic_labyrinth.Base.Text.{codes}
use dynamic_labyrinth.Canary.Knock.{Protocol, tcp, udp, icmp, Knock, Group}

-- A `*KnockGroup`: its pointer and what it points to. A slot of the array is none where it is nil.
abbrev pub Item : Type 0
Item = ℕ × Group

abbrev pub Slot : Type 0
Slot = Option Item

-- `items`: the slots that it had when `Each` began, and how many it has now.
pub record ItemSet : Type 0 where
  pub array : List Slot
  pub size : ℕ

abbrev pub is_item : Item → Slot → Bool
is_item x none = false
is_item x (some y) = x.0 == y.0

-- The slots behind the removed one move down by one; the last one stays as it was, or is nil if it was the one
-- that is removed.
abbrev pub last_of : Slot → List Slot → Slot
last_of s [] = s
last_of s (t ∷ ss) = last_of t ss

abbrev pub close_up : List Slot → List Slot
close_up [] = none ∷ []
close_up (s ∷ ss) = (s ∷ ss) ++ (last_of s ss ∷ [])

abbrev pub keep_slot : Slot → Option (List Slot) → Option (List Slot)
keep_slot s none = none
keep_slot s (some ss) = some (s ∷ ss)

-- The loop of `Remove`; none if the item is not found.
unfoldable pub remove_slot : Item → List Slot → Option (List Slot)
remove_slot x [] = none
remove_slot x (s ∷ ss) =
    let later = keep_slot s (remove_slot x ss) in if is_item x s then some (close_up ss) else later

abbrev pub removed : ItemSet → Option (List Slot) → ItemSet
removed set none = set
removed set (some slots) = record { array = slots ++ drop set.size set.array; size = set.size - 1 }

-- `Remove`
unfoldable pub remove : Item → ItemSet → ItemSet
remove x set = removed set (remove_slot x (take set.size set.array))

-- The event of a port scan.
pub record Portscan : Type 0 where
  pub source_hardware_addr : List ℕ
  pub destination_hardware_addr : List ℕ
  pub source_ip : Ip
  pub destination_ip : Ip
  pub ports : List (List ℕ)
  pub duration : ℤ

-- `Sub` of two times, and `last.Add(d).After(now)`; times are nanoseconds.
abbrev pub time_sub : ℕ → ℕ → ℤ
time_sub a b = if leb b a then pos (a - b) else negsuc (b - a - 1)

abbrev pub second : ℕ
second = 1000000000

abbrev pub is_within : ℕ → ℕ → ℕ → Bool
is_within seconds last now = ltb now (last + seconds)

-- `%d` of package fmt.
module _ (decimal : ℕ → List ℕ) where
  abbrev pub port_name : Protocol → ℕ → List ℕ
  port_name tcp port = codes "tcp/" ++ decimal port
  port_name udp port = codes "udp/" ++ decimal port
  port_name icmp port = codes "icmp"

  unfoldable pub portscan : Group → Portscan
  portscan g = record {
    source_hardware_addr = g.source_hardware_addr;
    destination_hardware_addr = g.destination_hardware_addr;
    source_ip = g.source_ip;
    destination_ip = g.destination_ip;
    ports = map (λ (k : Knock). port_name k.kind k.destination_port) g.knocks;
    duration = time_sub g.last g.start;
  }

  -- Whether a group is reported: after more than 100 knocks, or five seconds without one.
  abbrev pub is_due : ℕ → Group → Bool
  is_due now g =
      if ltb 100 g.count then true else (if is_within (5 * second) g.last now then false else true)

  abbrev pub drop_recent : Bool → Item → ItemSet → ItemSet
  drop_recent true x set = remove x set
  drop_recent false x set = set

  abbrev pub Turn : Type 0
  Turn = ItemSet × List Portscan

  -- The function that `Each` runs; the deferred `Remove` comes last.
  abbrev pub on_due : Bool → ℕ → Item → Turn → Turn
  on_due false now x t = t
  on_due true now x (set, events) =
      (drop_recent (is_within (60 * second) x.1.last now) x set, events ++ (portscan x.1 ∷ []))

  abbrev pub on_slot : ℕ → Option Slot → Turn → Outcome Knock Turn
  on_slot now (some (some x)) t = ok (on_due (is_due now x.1) now x t)
  on_slot now (some none) t = panic
  on_slot now none t = panic

  abbrev pub next_turn : Outcome Knock Turn → (Turn → Outcome Knock Turn) → Outcome Knock Turn
  next_turn (ok t) f = f t
  next_turn (err e) f = err e
  next_turn panic f = panic

  -- `Each` from a place on; a type assertion on nil panics.
  unfoldable pub each : ℕ → ℕ → ℕ → Turn → Outcome Knock Turn
  each now zero i t = ok t
  each now (suc rest) i t =
      next_turn (on_slot now (get_elem? t.0.array i) t) (each now rest (suc i))

  -- The case of `knockDetector` on the timer.
  unfoldable pub expire : ℕ → List Item → Outcome Knock Turn
  expire now items =
      each now (length items) 0 (record { array = map some items; size = length items }, [])
