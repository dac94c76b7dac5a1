-- ===== src/Server/Ports.antt =====
-- honeytrap/server/honeytrap.go: the ports of the configuration, in `Run`, and the candidates of
-- `findService`. Names and addresses are texts; package net and strconv are a parameter.
pub mod Order
pub mod Configured
pub mod Covered
use dynamic_labyrinth.Base.{
  ℕ, Bool, true, false, ◌||◌, Option, none, some, List, [], ◌∷◌, ◌++◌, ◌⊎◌, inl, inr, if◌then◌else◌,
}
use dynamic_labyrinth.Base.Ip.{Ip}
use dynamic_labyrinth.Base.Text.{codes, same_text, split_at}
use dynamic_labyrinth.Server.Addr.{Addr, tcp_addr, udp_addr, compare_addr}

-- What `ToAddr` calls: net.SplitHostPort, net.JoinHostPort, strconv.ParseUint to 16 bits and
-- the two resolvers, with none for an error.
pub record Names : Type 0 where
  pub split_host_port : List ℕ → Option (List ℕ × List ℕ)
  pub join_host_port : List ℕ → List ℕ → List ℕ
  pub parse_port : List ℕ → Option ℕ
  pub resolve_tcp : List ℕ → Option (Ip × ℕ)
  pub resolve_udp : List ℕ → Option (Ip × ℕ)

-- The errors of `ToAddr`.
pub data BadAddr : Type 0 where
  wrong_format : BadAddr
  bad_port : BadAddr
  unresolved : BadAddr
  unknown_protocol : BadAddr

-- One entry of `ports` in the configuration; nil for a `ports` that is not set.
pub record PortConfig : Type 0 where
  pub port : List ℕ
  pub ports : Option (List (List ℕ))
  pub services : List (List ℕ)

module _ (net : Names) where
  abbrev pub resolved : (Ip → ℕ → Addr) → Option (Ip × ℕ) → BadAddr ⊎ Addr
  resolved make none = inl unresolved
  resolved make (some (ip, port)) = inr (make ip port)

  abbrev pub by_protocol : List ℕ → List ℕ → BadAddr ⊎ Addr
  by_protocol proto host_port =
      if same_text proto (codes "tcp")
      then resolved tcp_addr (net.resolve_tcp host_port)
      else if same_text proto (codes "udp")
      then resolved udp_addr (net.resolve_udp host_port)
      else inl unknown_protocol

  -- The host is empty where the text is a port alone.
  abbrev pub host_and_port : List ℕ → Option (List ℕ × List ℕ) → List ℕ × List ℕ
  host_and_port text none = ([], text)
  host_and_port text (some split) = split

  abbrev pub to_addr_of : List ℕ → List ℕ × List ℕ → Option ℕ → BadAddr ⊎ Addr
  to_addr_of proto (host, port) none = inl bad_port
  to_addr_of proto (host, port) (some number) = by_protocol proto (net.join_host_port host port)

  abbrev pub to_addr_parts : List (List ℕ) → BadAddr ⊎ Addr
  to_addr_parts (proto ∷ text ∷ []) =
      let split = host_and_port text (net.split_host_port text) in
      to_addr_of proto split (net.parse_port split.1)
  to_addr_parts _ = inl wrong_format

  -- `ToAddr`, without the protocol and the number that its caller drops.
  unfoldable pub to_addr : List ℕ → BadAddr ⊎ Addr
  to_addr input = to_addr_parts (split_at b'/' input)

-- `hc.ports`, in an order of its entries.
abbrev pub Table : Type 0 → Type 0
Table S = List (Addr × List S)

module _ {S : Type 0} where
  -- The loop of `findService` over the ports: the last entry that matches.
  unfoldable pub candidates : Addr → List S → Table S → List S
  candidates l sc [] = sc
  candidates l sc ((k, ss) ∷ t) = candidates l (if compare_addr k l then ss else sc) t

  -- `found`
  unfoldable pub is_defined : Addr → Table S → Bool
  is_defined a [] = false
  is_defined a ((k, ss) ∷ t) = compare_addr k a || is_defined a t

-- `hc.ports`, the addresses given to the listener, and the names in `isServiceUsed` that are set.
pub record Ports (S : Type 0) : Type 0 where
  pub table : Table S
  pub listened : List Addr
  pub used : List (List ℕ)

abbrev pub no_ports : {S : Type 0} → Ports S
no_ports = record { table = []; listened = []; used = [] }

abbrev pub keep : {S : Type 0} → Option S → List S → List S
keep none ss = ss
keep (some s) ss = s ∷ ss

abbrev pub keep_name : {S : Type 0} → List ℕ → Option S → List (List ℕ) → List (List ℕ)
keep_name n none ns = ns
keep_name n (some s) ns = n ∷ ns

abbrev pub listed : Option (List (List ℕ)) → List (List ℕ)
listed none = []
listed (some ps) = ps

-- The ports of an entry: `ports` and then `port`; an entry with neither is passed over.
abbrev pub ports_of : PortConfig → List (List ℕ)
ports_of x = listed x.ports ++ (if same_text x.port [] then [] else x.port ∷ [])

-- `serviceList`, and whether the listener is an AddAddresser.
module _ (net : Names) {S : Type 0} (service_of : List ℕ → Option S) (adds : Bool) where
  -- `servicePtrs`: the services with a known name.
  unfoldable pub named : List (List ℕ) → List S
  named [] = []
  named (n ∷ ns) = keep (service_of n) (named ns)

  unfoldable pub known : List (List ℕ) → List (List ℕ)
  known [] = []
  known (n ∷ ns) = keep_name n (service_of n) (known ns)

  -- A port is entered unless it has no service or is defined already.
  abbrev pub add_new : Addr → List S → Bool → Ports S → Ports S
  add_new a ss true c = c
  add_new a ss false c = record {
    table = c.table ++ ((a, ss) ∷ []);
    listened = if adds then c.listened ++ (a ∷ []) else c.listened;
    used = c.used;
  }

  abbrev pub enter : Addr → List S → Ports S → Ports S
  enter a [] c = c
  enter a (s ∷ ss) c = add_new a (s ∷ ss) (is_defined a c.table) c

  abbrev pub add_addr : List (List ℕ) → BadAddr ⊎ Addr → Ports S → Ports S
  add_addr names (inl e) c = c
  add_addr names (inr a) c = enter a (named names) (record c { used = c.used ++ known names })

  unfoldable pub add_ports : List (List ℕ) → List (List ℕ) → Ports S → Ports S
  add_ports names [] c = c
  add_ports names (p ∷ ps) c = add_ports names ps (add_addr names (to_addr net p) c)

  -- The loop over `hc.config.Ports`; none for an entry that does not decode.
  unfoldable pub configure : List (Option PortConfig) → Ports S → Ports S
  configure [] c = c
  configure (none ∷ xs) c = configure xs c
  configure (some x ∷ xs) c = configure xs (add_ports x.services (ports_of x) c)
