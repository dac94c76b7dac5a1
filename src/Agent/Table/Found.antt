-- ===== src/Agent/Table/Found.antt =====
-- What `Connections.Get` of honeytrap/listener/agent/connections.go finds.
use dynamic_labyrinth.Base.{
  and_true, ℕ, ◌≡◌, ◌≢◌, ◌==◌, Bool, true, false, Option, none, some, List, [], ◌∷◌, All, arith,
  Outcome, ok, err, panic, refl, sym, ◌⊎◌, inl, inr,
}
use mathlib.Core.Path.{subst}
use dynamic_labyrinth.Base.Text.{same_text, same_text-eq}
use dynamic_labyrinth.Services.Decoder.{Stuck}
use dynamic_labyrinth.Agent.Table.{Addr, Connection, same_addr, get_behind, get}
use dynamic_labyrinth.Agent.Table.Queues.{is_text, is_between, streams}

same_addr-true : (a b : Addr) → same_addr a b ≡ ok true → a ≡ b
same_addr-true none b q = absurd (cc q)
same_addr-true (some a) none q = absurd (cc q)
same_addr-true (some a) (some b) q =
    let e : same_text a b ≡ true = cc q in rw (same_text-eq a b e) refl

same_addr-false :
    (l : List ℕ) (a b : Addr) → same_addr a b ≡ ok false → is_text l b ≡ true → is_text l a ≡ false
same_addr-false l none b q h = refl
same_addr-false l (some a) none q h = absurd (cc q)
same_addr-false l (some a) (some b) q h =
    let e : same_text a b ≡ false = cc q in rw (sym (same_text-eq b l h)) e

-- The entry is not the one that is looked for, or is the first that is.
abbrev pub Misses : Addr → Addr → Connection → Type 0
Misses laddr raddr c =
    (same_addr c.laddr laddr ≡ ok false)
    ⊎ ((same_addr c.laddr laddr ≡ ok true) × (same_addr c.raddr raddr ≡ ok false))

pub data Found (laddr raddr : Addr) : List Connection → Connection → Type 0 where
  here :
      (c : Connection) (conns : List Connection)
      → c.laddr ≡ laddr
      → c.raddr ≡ raddr
      → Found laddr raddr (c ∷ conns) c
  there :
      (x c : Connection) (conns : List Connection)
      → Misses laddr raddr x
      → Found laddr raddr conns c
      → Found laddr raddr (x ∷ conns) c

get_behind-Found :
    (laddr raddr : Addr) (x c : Connection) (conns : List Connection) (p q : Outcome Stuck Bool)
    → same_addr x.laddr laddr ≡ p
    → same_addr x.raddr raddr ≡ q
    → (get laddr raddr conns ≡ ok (some c) → Found laddr raddr conns c)
    → get_behind p q x (get laddr raddr conns) ≡ ok (some c)
    → Found laddr raddr (x ∷ conns) c
get_behind-Found laddr raddr x c conns (ok true) (ok true) ep eq ih g =
    let e : x ≡ c = cc g in
    subst (Found laddr raddr (x ∷ conns)) e
      (here x conns (same_addr-true x.laddr laddr ep) (same_addr-true x.raddr raddr eq))
get_behind-Found laddr raddr x c conns (ok true) (ok false) ep eq ih g =
    there x c conns (inr (ep, eq)) (ih g)
get_behind-Found laddr raddr x c conns (ok false) q ep eq ih g = there x c conns (inl ep) (ih g)
get_behind-Found laddr raddr x c conns (ok true) (err e) ep eq ih g = absurd (cc g)
get_behind-Found laddr raddr x c conns (ok true) panic ep eq ih g = absurd (cc g)
get_behind-Found laddr raddr x c conns (err e) q ep eq ih g = absurd (cc g)
get_behind-Found laddr raddr x c conns panic q ep eq ih g = absurd (cc g)

pub get-Found :
    (laddr raddr : Addr) (conns : List Connection) (c : Connection)
    → get laddr raddr conns ≡ ok (some c)
    → Found laddr raddr conns c
unfolding get
get-Found laddr raddr [] c g = absurd (cc g)
get-Found laddr raddr (x ∷ conns) c g =
    get_behind-Found laddr raddr x c conns _ _ refl refl (get-Found laddr raddr conns c) g

pub Found-All :
    (P : Connection → Type 0) {laddr raddr : Addr} {conns : List Connection} {c : Connection}
    → Found laddr raddr conns c
    → All P conns
    → P c
Found-All P (here c conns el er) a = a.0
Found-All P (there x c conns m found) a = Found-All P found a.1

pub not-eq : (m n : ℕ) → m ≢ n → m == n ≡ false
not-eq m n ne = ground arith

-- The first of a pair of addresses, and none of another pair.
pub Misses-between :
    (l r : List ℕ) (laddr raddr : Addr) (x : Connection)
    → Misses laddr raddr x
    → is_between l r laddr raddr ≡ true
    → is_between l r x.laddr x.raddr ≡ false
Misses-between l r laddr raddr x (inl e) k =
    let (hl, hr) = and_true (is_text l laddr) (is_text r raddr) k in
    rw (same_addr-false l x.laddr laddr e hl) refl
Misses-between l r laddr raddr x (inr (el, er)) k =
    let (hl, hr) = and_true (is_text l laddr) (is_text r raddr) k in
    let same = same_addr-true x.laddr laddr el in
    rw (same, hl, same_addr-false r x.raddr raddr er hr) refl

-- Nothing is found.
get_behind-Misses :
    (laddr raddr : Addr) (x : Connection) (rest : Outcome Stuck (Option Connection))
    (p q : Outcome Stuck Bool)
    → same_addr x.laddr laddr ≡ p
    → same_addr x.raddr raddr ≡ q
    → get_behind p q x rest ≡ ok none
    → Misses laddr raddr x × (rest ≡ ok none)
get_behind-Misses laddr raddr x rest (ok true) (ok true) ep eq g = absurd (cc g)
get_behind-Misses laddr raddr x rest (ok true) (ok false) ep eq g = (inr (ep, eq), g)
get_behind-Misses laddr raddr x rest (ok false) q ep eq g = (inl ep, g)
get_behind-Misses laddr raddr x rest (ok true) (err e) ep eq g = absurd (cc g)
get_behind-Misses laddr raddr x rest (ok true) panic ep eq g = absurd (cc g)
get_behind-Misses laddr raddr x rest (err e) q ep eq g = absurd (cc g)
get_behind-Misses laddr raddr x rest panic q ep eq g = absurd (cc g)

pub streams_missing :
    (l r : List ℕ) (laddr raddr : Addr) (conns : List Connection)
    → get laddr raddr conns ≡ ok none
    → is_between l r laddr raddr ≡ true
    → streams l r conns ≡ []
unfolding get
streams_missing l r laddr raddr [] g k = refl
streams_missing l r laddr raddr (x ∷ conns) g k =
    let (m, rest) = get_behind-Misses laddr raddr x (get laddr raddr conns) _ _ refl refl g in
    rw (Misses-between l r laddr raddr x m k) (streams_missing l r laddr raddr conns rest k)
