-- ===== src/Canary/Knock.antt =====
-- honeytrap/listener/canary/unique-set.go and the receiving side of knock.go: knocks are collected
-- in groups. An item of a set is its place in the list of items, which is what `Add` returns a pointer to.
-- The timer of `knockDetector` is in Timer.
pub mod Groups
pub mod Timer
use dynamic_labyrinth.Base.{
  ℕ, zero, suc, ◌+◌, Bool, true, false, ◌&&◌, Option, none, some, List, [], ◌∷◌, ◌++◌, length,
  get_elem?, set, ◌==◌, if◌then◌else◌,
}
use dynamic_labyrinth.Base.Ip.{Ip, ip_equal, same_bytes}

module _ {ℓ} {A : Type ℓ} (equal : A → A → Bool) where
  -- The loop of `Add`.
  unfoldable pub find_equal : A → List A → Option ℕ
  find_equal item [] = none
  find_equal item (x ∷ items) =
      let rest = find_equal item items in
      if equal item x then some 0 else elim rest [ none ↦ none | some i ↦ some (suc i) ]

  -- `Add`: the place of the item, and the items.
  unfoldable pub add_item : A → List A → ℕ × List A
  add_item item items = elim (find_equal item items) [
    | some i ↦ (i, items)
    | none ↦ (length items, items ++ (item ∷ []))
  ]

pub data Protocol : Type 0 where
  tcp udp icmp : Protocol

-- `KnockUDPPort`, `KnockTCPPort` and `KnockICMP`, whose port is 0 here.
pub record Knock : Type 0 where
  pub kind : Protocol
  pub source_hardware_addr : List ℕ
  pub destination_hardware_addr : List ℕ
  pub source_ip : Ip
  pub destination_ip : Ip
  pub destination_port : ℕ

-- `kind` says which `NewGroup` made the group, and with it the test of its set of knocks.
pub record Group : Type 0 where
  pub kind : Protocol
  pub start : ℕ
  pub last : ℕ
  pub source_hardware_addr : List ℕ
  pub destination_hardware_addr : List ℕ
  pub source_ip : Ip
  pub destination_ip : Ip
  pub protocol : ℕ
  pub count : ℕ
  pub knocks : List Knock

abbrev pub kind_code : Protocol → ℕ
kind_code tcp = 0
kind_code udp = 1
kind_code icmp = 2

-- The Protocol field that `NewGroup` sets: the one of KnockUDPPort leaves the zero value, ProtocolTCP.
abbrev pub group_protocol : Protocol → ℕ
group_protocol tcp = 0
group_protocol udp = 0
group_protocol icmp = 2

abbrev pub same_kind : Protocol → Protocol → Bool
same_kind a b = kind_code a == kind_code b

-- The ports of two knocks, as the test of a group compares them.
abbrev pub same_port : Protocol → Knock → Knock → Bool
same_port icmp a b = true
same_port _ a b = a.destination_port == b.destination_port

unfoldable pub same_knock : Protocol → Knock → Knock → Bool
same_knock kind a b = same_kind a.kind kind && (same_kind b.kind kind && same_port kind a b)

unfoldable pub new_group : ℕ → Knock → Group
new_group now k = record {
  kind = k.kind;
  start = now;
  last = 0;
  source_hardware_addr = k.source_hardware_addr;
  destination_hardware_addr = k.destination_hardware_addr;
  source_ip = k.source_ip;
  destination_ip = k.destination_ip;
  protocol = group_protocol k.kind;
  count = 0;
  knocks = [];
}

-- The test of the set of groups.
unfoldable pub same_group : Group → Group → Bool
same_group a b =
    a.protocol == b.protocol
    && (same_bytes a.source_hardware_addr b.source_hardware_addr
        && (same_bytes a.destination_hardware_addr b.destination_hardware_addr
            && (ip_equal a.source_ip b.source_ip && ip_equal a.destination_ip b.destination_ip)))

-- A knock counted in its group.
unfoldable pub count_knock : ℕ → Knock → Group → Group
count_knock now k g = record g {
  count = g.count + 1;
  last = now;
  knocks = (add_item (same_knock g.kind) k g.knocks).1;
}

abbrev pub at_place : (Group → Group) → ℕ → List Group → List Group
at_place f i [] = []
at_place f zero (g ∷ gs) = f g ∷ gs
at_place f (suc i) (g ∷ gs) = g ∷ at_place f i gs

-- The case of `knockDetector` on a knock that it receives: the group it finds or makes is changed in place.
unfoldable pub receive_knock : ℕ → Knock → List Group → List Group
receive_knock now k groups =
    let (i, gs) = add_item same_group (new_group now k) groups in at_place (count_knock now k) i gs
