-- ===== src/Canary/Types.antt =====
-- The data of honeytrap/listener/canary: socket.go (SocketState), state.go (State, NewState),
-- arpcache.go and route.go (the entries), and the fields of Canary that are only read.
use Prim.Native.Nat.{bit_and}
use Prim.Native.String.{String}
use text.Mathlib.Text.{◌==◌ as str_eq}
use dynamic_labyrinth.Base.{
  ℕ, Bool, true, false, ◌&&◌, Option, none, some, List, [], ◌∷◌, ◌==◌, if◌then◌else◌,
}
use dynamic_labyrinth.Base.Ip.{Ip, v4, ip_equal}

pub data SocketState : Type 0 where
  closed listen syn_received syn_sent established fin_wait1 fin_wait2 closing time_wait close_wait
        last_ack :
      SocketState

-- The iota of the constants.
abbrev pub state_code : SocketState → ℕ
state_code closed = 0
state_code listen = 1
state_code syn_received = 2
state_code syn_sent = 3
state_code established = 4
state_code fin_wait1 = 5
state_code fin_wait2 = 6
state_code closing = 7
state_code time_wait = 8
state_code close_wait = 9
state_code last_ack = 10

abbrev pub same_state : SocketState → SocketState → Bool
same_state a b = state_code a == state_code b

-- `State`, less the fields that nothing reads: LastAcked, the windows and pointers of the sender.
-- Times are seconds.
pub record State : Type 0 where
  pub src_ip : Ip
  pub src_port : ℕ
  pub dest_ip : Ip
  pub dest_port : ℕ
  pub id : ℕ
  pub state : SocketState
  pub send_unacknowledged : ℕ
  pub send_next : ℕ
  pub initial_send_sequence_number : ℕ
  pub recv_next : ℕ
  pub receive_window : ℕ
  pub t : ℕ

-- `NewState`: the two random numbers and the time come from outside. A new State is SocketClosed,
-- the zero value, until `handleTCP` sets it.
unfoldable pub new_state : Ip → ℕ → Ip → ℕ → ℕ → ℕ → ℕ → State
new_state src src_port dest dst_port random_id random_iss now = record {
  src_ip = src;
  src_port = src_port;
  dest_ip = dest;
  dest_port = dst_port;
  id = random_id;
  state = closed;
  send_unacknowledged = 0;
  send_next = 0;
  initial_send_sequence_number = random_iss;
  recv_next = 0;
  receive_window = 65535;
  t = now;
}

pub record ArpEntry : Type 0 where
  pub ip : Ip
  pub hardware_address : List ℕ
  pub interface : String

-- `ARPCache.Get`
unfoldable pub arp_get : List ArpEntry → Ip → Option ArpEntry
arp_get [] ip = none
arp_get (a ∷ ac) ip = if ip_equal a.ip ip then some a else arp_get ac ip

-- A route: its destination is an IPv4 network.
pub record Route : Type 0 where
  pub interface : String
  pub gateway : Ip
  pub net : List ℕ
  pub mask : List ℕ

abbrev pub masked_equal : List ℕ → List ℕ → List ℕ → Bool
masked_equal (n ∷ ns) (m ∷ ms) (i ∷ is) = bit_and n m == bit_and i m && masked_equal ns ms is
masked_equal [] [] [] = true
masked_equal _ _ _ = false

-- route.Destination.Contains(ip)
unfoldable pub contains : Route → Ip → Bool
contains r (v4 a b c d) = masked_equal r.net r.mask (a ∷ b ∷ c ∷ d ∷ [])
contains r _ = false

pub record Interface : Type 0 where
  pub hardware_addr : List ℕ
  pub addrs : List Ip

-- The fields of Canary that the packet handlers only read.
pub record Env : Type 0 where
  pub arp_cache : List ArpEntry
  pub routes : List Route
  pub interfaces : List Interface
  pub descriptors : List (String × ℕ)

-- c.descriptors[name]: 0 where the key is missing.
abbrev pub descriptor : List (String × ℕ) → String → ℕ
descriptor [] name = 0
descriptor ((n, fd) ∷ ds) name = if str_eq n name then fd else descriptor ds name

any_equal : List Ip → Ip → Bool
any_equal [] ip = false
any_equal (a ∷ as') ip = if ip_equal a ip then true else any_equal as' ip

-- `isMe`: one of the interfaces has the address.
unfoldable pub is_me : List Interface → Ip → Bool
unfolding any_equal
is_me [] ip = false
is_me (i ∷ is) ip = if any_equal i.addrs ip then true else is_me is ip
