-- ===== src/Server/Examples.antt =====
-- Runs of honeytrap/server: ports that are configured, connections that are dispatched, events that are filtered.
use dynamic_labyrinth.Base.{
  ℕ, ◌≡◌, Bool, true, false, Option, none, some, List, [], ◌∷◌, ◌++◌, ◌⊎◌, refl, arith, take, drop,
  take-append-drop, length-take, zero, suc, ◌≢◌, if◌then◌else◌,
}
use mathlib.Core.List.{Permᴰ}
use dynamic_labyrinth.Base.Ip.{Ip}
use dynamic_labyrinth.Base.Text.{codes, same_text, split_at}
use dynamic_labyrinth.Server.Addr.{Addr, tcp_addr, udp_addr, compare_addr}
use dynamic_labyrinth.Server.Ports.{
  Names, PortConfig, no_ports, Table, candidates, is_defined, named, configure, to_addr, add_ports,
}
use dynamic_labyrinth.Server.Ports.Order.{candidates_found}
use dynamic_labyrinth.Server.Ports.Configured.{IsConfigured, configure-IsConfigured}
use dynamic_labyrinth.Server.Stream.{
  Conn, IsStream, Peeked, peek_connection, peeked_rest, peek, peek_connection-IsStream,
}
use dynamic_labyrinth.Server.Dispatch.{Handed, find_service, try_services}
use dynamic_labyrinth.Server.Dispatch.Choice.{chosen, chosen-find_service, first_suitable}
use dynamic_labyrinth.Server.Dispatch.Rest.{handed_rest, find_service-rest}
use dynamic_labyrinth.Server.Bus.{
  Regexps, Channel, FilterConfig, Event, global_bus, channel_named, subscribers, subscribe_all,
  bus_send, store, send, any_match, get, subscribe, compile_all,
}
use dynamic_labyrinth.Server.Bus.Delivered.{expected, bus_send-subscribers}

-- A network whose ports are texts of one letter: its number is the port.
abbrev first_code : List ℕ → Option ℕ
first_code [] = none
first_code (c ∷ _) = some c

abbrev at_port : List ℕ → Option (Ip × ℕ)
at_port [] = none
at_port (c ∷ _) = some (Ip.nil, c)

abbrev names : Names
names = record {
  split_host_port = λ _. none;
  join_host_port = λ host port. port;
  parse_port = first_code;
  resolve_tcp = at_port;
  resolve_udp = at_port;
}

-- Services by number: "a" is 1 and "b" is 2.
abbrev services : List ℕ → Option ℕ
services name =
    if same_text name (codes "a")
    then some 1
    else if same_text name (codes "b")
    then some 2
    else none

abbrev both_services : PortConfig
both_services = record {
  port = codes "tcp/P";
  ports = some (codes "udp/P" ∷ []);
  services = codes "a" ∷ codes "z" ∷ codes "b" ∷ [];
}

abbrev again : PortConfig
again = record { port = codes "tcp/P"; ports = none; services = codes "b" ∷ [] }

abbrev entries : List (Option PortConfig)
entries = some both_services ∷ none ∷ some again ∷ []

-- The second definition of tcp/P is passed over.
configure-run :
    (configure names services true entries no_ports).table
    ≡ (udp_addr Ip.nil b'P', 1 ∷ 2 ∷ []) ∷ (tcp_addr Ip.nil b'P', 1 ∷ 2 ∷ []) ∷ []
unfolding configure add_ports to_addr named is_defined compare_addr split_at
configure-run = refl

configure-IsConfigured_example :
    IsConfigured names services true (configure names services true entries no_ports)
configure-IsConfigured_example =
    configure-IsConfigured names services true entries no_ports
      (record { distinct = tt; served = tt; listening = refl })

-- Two ports, in both orders of the map.
abbrev local : Addr
local = tcp_addr (Ip.v4 10 0 0 1) 80

abbrev web : Addr × List ℕ
web = (tcp_addr Ip.nil 80, 1 ∷ 2 ∷ [])

abbrev mail : Addr × List ℕ
mail = (tcp_addr Ip.nil 25, 3 ∷ [])

candidates_found_example : candidates local [] (mail ∷ web ∷ []) ≡ 1 ∷ 2 ∷ []
unfolding compare_addr
candidates_found_example =
    candidates_found local (tcp_addr Ip.nil 80) (1 ∷ 2 ∷ []) [] (mail ∷ []) (mail ∷ web ∷ []) tt
      refl ((refl, tt), (tt, tt)) (Permᴰ.swap refl refl)

-- A connection that has those bytes to hand out.
abbrev given : Conn
given = record {
  State = List ℕ;
  Error = ℕ;
  read = λ n s. ((take n s, none), drop n s);
  set_deadline = λ s. (none, s);
}

abbrev all_of : List ℕ → List ℕ
all_of s = s

given-IsStream : IsStream given all_of
given-IsStream = record {
  reads = take-append-drop;
  fits = λ n s. omega (arith, length-take n s);
  deadlines = λ s. refl;
}

peek_connection-IsStream_example :
    IsStream (peek_connection given) (peeked_rest given all_of)
    × ((n : ℕ) (p : Peeked given)
        → (peeked_rest given all_of (peek given n p).1 ≡ peeked_rest given all_of p)
          × ((peek given n p).0.0 ++ (peek given n p).1.inner ≡ p.inner))
peek_connection-IsStream_example = peek_connection-IsStream given all_of given-IsStream

-- Service 1 wants an "S" first, and the others ask nothing.
abbrev asks : ℕ → Option (List ℕ → Bool)
asks zero = none
asks (suc zero) = some (λ bytes. same_text (take 1 bytes) (codes "S"))
asks (suc (suc n)) = none

abbrev hello : List ℕ
hello = codes "GET"

abbrev ports : Table ℕ
ports = mail ∷ web ∷ []

chosen-find_service_example :
    chosen given asks (find_service given asks ports local hello)
    ≡ first_suitable given asks hello (1 ∷ 2 ∷ [])
unfolding candidates compare_addr
chosen-find_service_example =
    chosen-find_service given asks ports local hello 1 2 [] (record { inner = []; buffer = hello })
      hello refl refl

-- The second service is handed a connection with nothing left to read.
find_service-rest_example :
    ((asks 2 ≢ none) × (handed_rest given all_of asks (Handed.raw []) ≡ hello))
    ⊎ ((asks 2 ≡ none) × (hello ++ handed_rest given all_of asks (Handed.raw []) ≡ hello))
unfolding candidates compare_addr find_service try_services
find_service-rest_example =
    find_service-rest given all_of asks ports local hello 1 2 []
      (record { inner = []; buffer = hello }) hello 2 (Handed.raw []) given-IsStream refl
      (λ q. absurd (cc q)) refl refl

-- Expressions that are matched whole; "*" does not compile.
abbrev whole_texts : Regexps
whole_texts = record {
  Regexp = List ℕ;
  compile = λ x. if same_text x (codes "*") then none else some x;
  matches = same_text;
}

abbrev filters : List (Option (FilterConfig whole_texts))
filters =
    some (record {
      channels = codes "file" ∷ codes "lost" ∷ [];
      services = [];
      categories = codes "ssh" ∷ [];
    })
    ∷ some (record { channels = codes "kafka" ∷ []; services = codes "ftp" ∷ []; categories = [] })
    ∷ []

abbrev is_channel : List ℕ → Bool
is_channel name = if same_text name (codes "lost") then false else true

abbrev subscribed : List (Channel whole_texts)
subscribed =
    Channel.bus_channel
    ∷ Channel.filter (codes "category") (codes "ssh" ∷ [])
        (Channel.token (codes "t") (Channel.base (codes "file")))
    ∷ Channel.filter (codes "service") (codes "ftp" ∷ [])
        (Channel.token (codes "t") (Channel.base (codes "kafka")))
    ∷ []

abbrev ssh_event : Event
ssh_event = (codes "category", some (codes "ssh")) ∷ []

bus_send-run :
    (bus_send whole_texts subscribed ssh_event).0
    ≡ (global_bus, ssh_event)
      ∷ (channel_named (codes "file"), store (codes "token") (some (codes "t")) ssh_event)
      ∷ []
unfolding bus_send send any_match get store
bus_send-run = refl

bus_send-subscribers_example :
    (bus_send whole_texts subscribed ssh_event).0
    ≡ (global_bus, ssh_event) ∷ expected whole_texts is_channel (codes "t") ssh_event filters
unfolding subscribers subscribe_all subscribe compile_all
bus_send-subscribers_example =
    bus_send-subscribers whole_texts is_channel (codes "t") ssh_event filters subscribed refl
